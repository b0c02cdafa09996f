-- ===== src/Threads/Defs.antt =====
-- hijack_threads and restore_threads of tools/introspection.c. What ptrace and the allocator do is
-- the record Tracer. The reads of the task directory are an argument: for each time that it is
-- rewound, the thread numbers that readdir gives until it ends, and the errno that it leaves.
use libpulp.Base.{
  ℕ, ◌≡◌, ◌≢◌, List, [], ◌∷◌, Option, none, some, Bool, true, false, ◌==◌, ◌||◌, not, if◌then◌else◌,
}
use libpulp.Errors.Codes.{eunknown, esrch, ethrdattach, ethrddettach, enoent}

-- The calls of tools/ptrace.c for one thread, where `true` is a failure, and which threads are
-- attached. A call that succeeds has its documented effect on the thread; one that fails is only
-- taken to leave the other threads alone, and a detach that fails to change nothing.
pub record Tracer (R S : Type 0) : Type 0 where
  pub traced : S → ℕ → Bool
  pub calloc : S → Bool
  pub attach : ℕ → S → Bool × S
  pub detach : ℕ → S → Bool × S
  pub get_regs : ℕ → S → Option R × S
  pub set_regs : ℕ → R → S → Bool × S
  pub attached_lem : (t : ℕ) (s : S) → (attach t s).0 ≡ false → traced (attach t s).1 t ≡ true
  pub attach_other : (t x : ℕ) (s : S) → x ≢ t → traced (attach t s).1 x ≡ traced s x
  pub detached_lem : (t : ℕ) (s : S) → (detach t s).0 ≡ false → traced (detach t s).1 t ≡ false
  pub detach_failed : (t : ℕ) (s : S) → (detach t s).0 ≡ true → traced (detach t s).1 t ≡ traced s t
  pub detach_other : (t x : ℕ) (s : S) → x ≢ t → traced (detach t s).1 x ≡ traced s x
  pub get_regs_lem : (t x : ℕ) (s : S) → traced (get_regs t s).1 x ≡ traced s x
  pub set_regs_lem : (t x : ℕ) (c : R) (s : S) → traced (set_regs t c s).1 x ≡ traced s x

-- struct ulp_thread
pub record UlpThread (R : Type 0) : Type 0 where
  pub tid : ℕ
  pub context : R

-- struct ulp_process, as far as its threads go; the main thread is known by its number
pub record UlpProcess (R : Type 0) : Type 0 where
  pub pid : ℕ
  pub all_threads_hijacked : Bool
  pub threads : List (UlpThread R)
  pub main_thread : Option ℕ

-- One pass of readdir over the task directory.
pub record Pass : Type 0 where
  pub tids : List ℕ
  pub errno : ℕ

-- search_thread(list, tid) != NULL
unfoldable pub has_thread : {R : Type 0} → List (UlpThread R) → ℕ → Bool
has_thread [] tid = false
has_thread (t ∷ ts) tid = t.tid == tid || has_thread ts tid

-- How the loop over the directory ends; `rerun` is the local `loop`.
pub data Read (R S : Type 0) : Type 0 where
  ended : Bool → UlpProcess R → S → Read R S
  failed : UlpProcess R → S → Read R S

module _ {R S : Type 0} (k : Tracer R S) where
  -- A new thread: `none` is a jump to children_restore.
  unfoldable pub hijack_thread : ℕ → UlpProcess R → S → Option (UlpProcess R) × S
  hijack_thread tid p s =
      let (refused, s1) = k.attach tid s in
      let (context, s2) = k.get_regs tid s1 in
      if not (k.calloc s) then (none, s) else if refused then (none, s1) else elim context [
        | none ↦ (none, (k.detach tid s2).1)
        | some c ↦ (
          some (record p {
            threads = record { tid = tid; context = c } ∷ p.threads;
            main_thread = if tid == p.pid then some tid else p.main_thread;
          }),
          s2,
        )
      ]

  -- The inner loop over the rest of a pass.
  unfoldable pub read_tasks : List ℕ → Bool → UlpProcess R → S → Read R S
  read_tasks [] rerun p s = ended rerun p s
  read_tasks (tid ∷ tids) rerun p s =
      let known = read_tasks tids rerun p s in
      let (hijacked, s') = hijack_thread tid p s in
      if tid == 0 || has_thread p.threads tid
      then known
      else elim hijacked [ none ↦ failed p s' | some p' ↦ read_tasks tids true p' s' ]

  -- children_restore: whether a detach failed
  unfoldable pub detach_all : List (UlpThread R) → S → Bool × S
  detach_all [] s = (false, s)
  detach_all (t ∷ ts) s =
      let (bad, s1) = k.detach t.tid s in let (fatal, s2) = detach_all ts s1 in (bad || fatal, s2)

  unfoldable pub children_restore : UlpProcess R → S → ℕ × UlpProcess R × S
  children_restore p s =
      let (fatal, s') = detach_all p.threads s in
      (if fatal then ethrddettach else ethrdattach, record p { threads = [] }, s')

  -- Behind a pass that left this errno, with the next round of the do loop given.
  unfoldable pub end_pass :
      (UlpProcess R → S → Option (ℕ × UlpProcess R × S))
      → ℕ
      → Read R S
      → Option (ℕ × UlpProcess R × S)
  end_pass next errno (failed p s) = some (children_restore p s)
  end_pass next errno (ended rerun p s) =
      let again = next p s in
      if not (errno == 0)
      then some (children_restore p s)
      else if rerun
      then again
      else some (0, record p { all_threads_hijacked = true }, s)

  -- The do loop over the passes; `none` while there is a pass missing.
  unfoldable pub hijack_loop : List Pass → UlpProcess R → S → Option (ℕ × UlpProcess R × S)
  hijack_loop [] p s = none
  hijack_loop (pass ∷ passes) p s =
      end_pass (hijack_loop passes) pass.errno (read_tasks pass.tids false p s)

  -- hijack_threads, where opendir leaves the errno `opened`, 0 if it succeeds
  unfoldable pub hijack_threads : ℕ → List Pass → UlpProcess R → S → Option (ℕ × UlpProcess R × S)
  hijack_threads opened passes p s =
      let attempt = hijack_loop passes p s in
      if p.all_threads_hijacked
      then some (eunknown, p, s)
      else if opened == enoent
      then some (esrch, p, s)
      else if not (opened == 0)
      then some (opened, p, s)
      else attempt

  -- The loop of restore_threads: whether a call failed
  unfoldable pub release_all : List (UlpThread R) → S → Bool × S
  release_all [] s = (false, s)
  release_all (t ∷ ts) s =
      let (unset, s1) = k.set_regs t.tid t.context s in
      let (kept, s2) = k.detach t.tid s1 in
      let (errors, s3) = release_all ts s2 in (unset || kept || errors, s3)

  -- restore_threads
  unfoldable pub restore_threads : UlpProcess R → S → ℕ × UlpProcess R × S
  restore_threads p s =
      let (errors, s') = release_all p.threads s in
      (if errors then 1 else 0, record p { all_threads_hijacked = false; threads = [] }, s')
