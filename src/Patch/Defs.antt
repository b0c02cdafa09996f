-- ===== src/Patch/Defs.antt =====
-- The data of include/ulp.h and include/ulp_common.h that lib/ulp.c keeps. A linked list is a List
-- with its head first; an address is a number, 0 for NULL.
use libpulp.Base.{ℕ, List, Bool, Option}
use libpulp.Base.Memory.{Memory}
use libpulp.InsnQueue.Insert.{Globals}

-- struct ulp_detour; `patch_id` is 32 bytes
pub record Detour : Type 0 where
  pub patch_id : List ℕ
  pub universe : ℕ
  pub target_addr : ℕ
  pub active : Bool

-- struct ulp_detour_root: a patched function, with its detours from the newest to the oldest
pub record DetourRoot : Type 0 where
  pub index : ℕ
  pub patched_addr : ℕ
  pub detours : List Detour

-- struct ulp_unit: the function to replace, by name or address, and the name of its replacement
pub record UlpUnit : Type 0 where
  pub old_fname : List ℕ
  pub new_fname : List ℕ
  pub old_faddr : ℕ

-- struct ulp_dependency
pub record Dependency : Type 0 where
  pub dep_id : List ℕ
  pub patch_id_check : Bool

-- struct ulp_reference
pub record Reference : Type 0 where
  pub target_name : List ℕ
  pub reference_name : List ℕ
  pub target_offset : ℕ
  pub patch_offset : ℕ
  pub tls : Bool

-- struct ulp_object
pub record Object : Type 0 where
  pub build_id : List ℕ
  pub build_id_check : Bool
  pub name : List ℕ
  pub units : List UlpUnit

-- struct ulp_metadata; `so_handler` is what dlopen returned, 0 for NULL
pub record Metadata : Type 0 where
  pub patch_id : List ℕ
  pub so_filename : List ℕ
  pub so_handler : ℕ
  pub objs : Object
  pub deps : List Dependency
  pub refs : List Reference
  pub type : ℕ

-- struct ulp_applied_unit
pub record AppliedUnit : Type 0 where
  pub patched_addr : ℕ
  pub target_addr : ℕ
  pub overwritten_bytes : List ℕ

-- struct ulp_applied_patch
pub record AppliedPatch : Type 0 where
  pub patch_id : List ℕ
  pub lib_name : List ℕ
  pub container_name : List ℕ
  pub units : List AppliedUnit
  pub deps : List Dependency
  pub timestamp : ℕ

-- The globals of lib/ulp.c, with the instruction queue and the error state (`insnq`), and the
-- number of calls of the allocator so far.
pub record State : Type 0 where
  pub patches : List AppliedPatch
  pub roots : List DetourRoot
  pub root_index_counter : ℕ
  pub global_universe : ℕ
  pub insnq : Globals
  pub metadata_ref : Option Metadata
  pub allocations : ℕ

-- struct build_id_note, of which `descsz` is the length of build_id
pub record Note : Type 0 where
  pub type : ℕ
  pub namesz : ℕ
  pub build_id : List ℕ

-- What lib/ulp.c calls: the allocator, the dynamic loader, the symbol tables that
-- lib/symbol_loader.c reads, the clock, and the process's memory, which no call writes directly.
pub record World : Type 0 where
  pub calloc : ℕ → Bool
  pub dlopen : List ℕ → ℕ
  -- load_so_symbol: dlsym on a name and a handle
  pub so_symbol : List ℕ → ℕ → ℕ
  -- get_loaded_symbol_addr on the library, the name and the address
  pub loaded_symbol : List ℕ → List ℕ → ℕ → ℕ
  -- get_loaded_library_base_addr and get_loaded_library_tls_index
  pub library_base : List ℕ → ℕ
  pub library_tls : List ℕ → ℕ
  -- dlinfo: none when it fails, else l_addr
  pub link_map : ℕ → Option ℕ
  -- what dl_iterate_phdr shows: for each library, for each PT_NOTE segment, its notes
  pub libraries : List (List (List Note))
  pub asunsafe_trylock : Bool
  pub time : ℕ
  pub memory : Memory
