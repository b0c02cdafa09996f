-- ===== src/Errors/Message.antt =====
-- `libpulp_strerror`: a code at or above 256 is looked up in the table of error_common.h.
use Prim.Native.String.{String}
use libpulp.Base.{ℕ, ◌+◌, List, [], ◌∷◌, Option, length, get_elem?, ltb, if◌then◌else◌, ◌&&◌, ◌%◌}
use libpulp.Errors.Codes.{eunknown}

-- __ULP_ERRLIST. The last entry is two literals with no comma between them, which C joins.
abbrev pub errlist : List String
errlist =
    "Unknown error" ∷ "Build ID mismatch" ∷ "Error attaching to process"
    ∷ "Process without debug tag" ∷ "No link map in object" ∷ "Invalid program header"
    ∷ "Unable to find process entry address" ∷ "Libpulp not found in target process"
    ∷ "Thread attach failure" ∷ "Thread dettach failure" ∷ "Invalid .ulp file"
    ∷ "To be patched function not found" ∷ "New function not found" ∷ "No metadata in .so"
    ∷ "State update failure" ∷ "Unable to retrieve ulp state" ∷ "Patch not applied"
    ∷ "Dependency failure" ∷ "Address read error" ∷ "Patch already applied"
    ∷ "Target library not loaded" ∷ "libpulp.so hook routine not run"
    ∷ "Function is not livepatchable" ∷ "No file matched wildcard"
    ∷ "Livepatching blocked by user request" ∷ "Libpulp version is too old"
    ∷ "Libpulp initialization failure" ∷ "Page permission error" ∷ "No patches installed"
    ∷ "Instruction queue in inconsistent state" ∷ "ULP tool is too old" ∷ "Failure in dlopen"
    ∷ "Libdl not found.Libc not found or unsupported." ∷ []

-- What is printed for a code: an entry of the table, read at an index that may be out of range,
-- or what strerror says of it.
pub data Message : Type 0 where
  entry : Option String → Message
  system : ℕ → Message

-- libpulp_strerror on a code that is not negative; `errnum & 0xFF` is the remainder by 256.
unfoldable pub strerror : ℕ → Message
strerror errnum =
    if ltb 0xff errnum && ltb errnum (eunknown + length errlist)
    then entry (get_elem? errlist (errnum % 256))
    else system errnum
