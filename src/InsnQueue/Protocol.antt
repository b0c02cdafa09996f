-- ===== src/InsnQueue/Protocol.antt =====
-- What the tool's round trip through a process's queue does to the process's memory.
use libpulp.Base.{
  ℕ, ◌+◌, ◌^◌, ◌<◌, ◌≡◌, refl, ap, ◌∙◌, List, [], ◌∷◌, length, take, arith, take_all, suc, ◌≤◌,
  ◌==◌, false, ◌&&◌, ltb,
}
use libpulp.Base.Memory.{Memory, store, IsBytes, bytes_le, bytes_le-IsBytes}
use libpulp.Ptrace.Defs.{Tracee, Responsive, write_bytes_ptrace}
use libpulp.Ptrace.Write.{write_bytes_ptrace-Wrote, write_bytes_ptrace_succeeds}
use libpulp.InsnQueue.Commands.{Command, print, write, exec, NoneFails, Holds}
use libpulp.InsnQueue.Interpret as Interpret
use libpulp.InsnQueue.Fetch.{IsImage, get_from_remote_process-Holds}
use libpulp.InsnQueue.Remote.{
  tool, interpret_from_process, update_remote, interpret_fetched, returns, code,
}
use libpulp.InsnQueue.Defs.{Queue, insnq_curr_version, insn_buffer_max}
use libpulp.Errors.Codes.{enone}
use libpulp.Base.Words.{add_size, is_positive}
use libpulp.Ptrace.Read.{write_bytes-store}
use libpulp.InsnQueue.Interpret.{interpret}
use libpulp.InsnQueue.Execute.{interpret-exec}

-- The memory after the queued writes were made directly, in order.
unfoldable pub applied : List Command → Memory → Memory
applied [] m = m
applied (print text ∷ cs) m = applied cs m
applied (write addr bytes ∷ cs) m = applied cs (store m addr bytes)

-- Each write is of bytes, and inside the address space.
abbrev pub InRange : List Command → Type 0
InRange [] = Unit
InRange (print text ∷ cs) = InRange cs
InRange (write addr bytes ∷ cs) = IsBytes bytes × (addr + length bytes < 2 ^ 64) × InRange cs

-- The two counters of the queue in the process are zeroed.
abbrev pub emptied : ℕ → Memory → Memory
emptied a m = store (store m (a + 8) (bytes_le 4 0)) (a + 4) (bytes_le 4 0)

module _ {S : Type 0} (t : Tracee S) (put : List ℕ → S → S)
    (quiet : (text : List ℕ) (s : S) → t.byte (put text s) ≡ t.byte s) where
  -- Through ptrace the commands have the effect of direct writes, if none fails.
  pub exec-applied :
      (cs : List Command) (s : S)
      → InRange cs
      → NoneFails (tool t put) cs s
      → t.byte (exec (tool t put) cs s) ≡ applied cs (t.byte s)
  unfolding exec applied
  exec-applied [] s h ok = refl
  exec-applied (print text ∷ cs) s h ok =
      exec-applied cs (put text s) h ok ∙ ap (applied cs) (quiet text s)
  exec-applied (write addr bytes ∷ cs) s h ok =
      let w = write_bytes_ptrace-Wrote t bytes addr s h.0 h.1 in
      exec-applied cs (write_bytes_ptrace t bytes addr s).1 h.2 ok.1
      ∙ ap (applied cs) (
          w.memory
          ∙ ap (λ k. store (t.byte s) addr (take k bytes)) (w.whole ok.0)
          ∙ ap (store (t.byte s) addr) (take_all (length bytes) bytes (omega arith)))

  Responsive-NoneFails : (cs : List Command) (s : S) → Responsive t → NoneFails (tool t put) cs s
  Responsive-NoneFails [] s h = tt
  Responsive-NoneFails (print text ∷ cs) s h = Responsive-NoneFails cs (put text s) h
  Responsive-NoneFails (write addr bytes ∷ cs) s h = (
    write_bytes_ptrace_succeeds t bytes addr s h,
    Responsive-NoneFails cs (write_bytes_ptrace t bytes addr s).1 h,
  )

  update_remote-emptied :
      (fuel a : ℕ) (q : Queue) (s : S)
      → Responsive t
      → a + 16 < 2 ^ 64
      → (s' : S) × (update_remote t (suc fuel) q a s
          ≡ returns (code enone) (record q { size = 0; num_insns = 0 }) s')
        × (t.byte s' ≡ emptied a (t.byte s))
  unfolding update_remote bytes_le
  update_remote-emptied fuel a q s h fits =
      let zeros = bytes_le 4 0 in
      let at_size : add_size a 8 ≡ a + 8 = omega arith in
      let at_num : add_size a 4 ≡ a + 4 = omega arith in
      let one = h.writes zeros (a + 8) s (bytes_le-IsBytes 4 0) in
      let two = h.writes zeros (a + 4) one.0 (bytes_le-IsBytes 4 0) in
      let first = write_bytes-store t fuel zeros (a + 8) s one.0 (omega arith) one.1 in
      let second = write_bytes-store t fuel zeros (a + 4) one.0 two.0 (omega arith) two.1 in
      (
        two.0,
        rw (at_size, first.0, at_num, second.0, update_remote),
        second.1 ∙ ap (λ m. store m (a + 4) zeros) first.1,
      )

  -- Where every ptrace call succeeds and every transfer is complete, the tool executes exactly the
  -- commands that the process queued, in order, reports success, and then empties the queue;
  -- nothing else in the process's memory changes. The queue stands at an address that is not 0 and
  -- leaves room for its header, its version is at most the tool's, and the commands write bytes
  -- inside the address space; printing leaves the process's memory alone.
  pub interpret_from_process-applied :
      (fuel a : ℕ) (cs : List Command) (q : Queue) (s : S)
      → Responsive t
      → Holds cs q
      → IsImage q (t.byte s) a
      → q.version ≤ insnq_curr_version
      → 0 < a
      → a + 16 < 2 ^ 64
      → InRange cs
      → (q' : Queue) × (s' : S) × (interpret_from_process t put (suc fuel) a s
          ≡ returns (code enone) q' s')
        × (t.byte s' ≡ emptied a (applied cs (t.byte s)))
  unfolding interpret_from_process interpret_fetched
  interpret_from_process-applied fuel a cs q s h holds image v pos fits range =
      let got = get_from_remote_process-Holds t h.reads fuel a cs q s holds image v fits in
      let q1 = got.0 in
      let s1 = got.1 in
      let ok = Responsive-NoneFails cs s1 h in
      let s2 = exec (tool t put) cs s1 in
      let ran : interpret (tool t put) q1 s1 ≡ Interpret.done 0 s2 =
        interpret-exec (tool t put) cs q1 s1 got.3 ok in
      let up = update_remote-emptied fuel a q1 s2 h fits in
      let here : (a == 0) ≡ false = ground arith in
      let room : (is_positive q1.size && ltb insn_buffer_max q1.size) ≡ false =
        let small = got.3.valid.within in ground arith in
      (
        record q1 { size = 0; num_insns = 0 },
        up.0,
        rw (here, got.2, interpret_from_process) (rw (room, ran, interpret_fetched) up.1),
        up.2 ∙ ap (emptied a) (exec-applied cs s1 range ok ∙ ap (applied cs) got.4),
      )
