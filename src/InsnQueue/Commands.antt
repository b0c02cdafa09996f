-- ===== src/InsnQueue/Commands.antt =====
-- What the queue of insn_queue.h stands for: a list of commands, and how each is laid out.
use libpulp.Base.{ℕ, suc, ◌+◌, ◌^◌, ◌≤◌, ◌<◌, ◌≡◌, ◌≢◌, List, [], ◌∷◌, ◌++◌, false, length}
use libpulp.Base.Memory.{Memory, load, bytes_le}
use libpulp.InsnQueue.Defs.{Queue, insn_buffer_max, ulp_insn_print, ulp_insn_write}
use libpulp.InsnQueue.Insert.{Globals, insert_print, insert_write}
use libpulp.InsnQueue.Interpret.{Target}
use libpulp.InsnQueue.Bounds.{IsValid, print_size, write_size}

pub data Command : Type 0 where
  print : List ℕ → Command
  write : ℕ → List ℕ → Command

-- The call that queues a command.
abbrev pub insert : Command → Globals → ℕ × Globals
insert (print text) = insert_print text
insert (write addr bytes) = insert_write addr bytes

abbrev pub size_of : Command → ℕ
size_of (print text) = print_size text
size_of (write addr bytes) = write_size bytes

-- A text has no null character.
abbrev pub IsText : List ℕ → Type 0
IsText [] = Unit
IsText (c ∷ cs) = (c ≢ 0) × IsText cs

-- Arguments that the C types can hold.
abbrev pub IsCommand : Command → Type 0
IsCommand (print text) = IsText text × (length text < 2 ^ 30)
IsCommand (write addr bytes) = (addr < 2 ^ 64) × (length bytes < 2 ^ 30)

-- The instruction at `pc` is the one for the command.
abbrev pub IsInsn : Memory → ℕ → Command → Type 0
IsInsn m pc (print text) =
    (m pc ≡ ulp_insn_print)
    × (load m (pc + 1) 3 ≡ bytes_le 3 (print_size text))
    × (load m (pc + 4) (suc (length text)) ≡ text ++ 0 ∷ [])
    × IsText text
IsInsn m pc (write addr bytes) =
    (m pc ≡ ulp_insn_write)
    × (load m (pc + 1) 3 ≡ bytes_le 3 (write_size bytes))
    × (load m (pc + 4) 4 ≡ bytes_le 4 (length bytes))
    × (load m (pc + 8) 8 ≡ bytes_le 8 addr)
    × (load m (pc + 16) (length bytes) ≡ bytes)
    × (addr < 2 ^ 64)

-- The instructions from `pc` to `end` are those for the commands.
abbrev pub Encodes : Memory → ℕ → ℕ → List Command → Type 0
Encodes m pc end [] = pc ≡ end
Encodes m pc end (c ∷ cs) =
    IsInsn m pc c × (pc + size_of c ≤ insn_buffer_max) × Encodes m (pc + size_of c) end cs

-- The queue holds exactly these commands, oldest first.
pub record Holds (cs : List Command) (q : Queue) : Type 0 where
  pub valid : IsValid q
  pub number : q.num_insns ≡ length cs
  pub content : Encodes q.buffer 0 q.size cs

module _ {S : Type 0} (t : Target S) where
  -- What executing the commands in order does.
  unfoldable pub exec : List Command → S → S
  exec [] s = s
  exec (print text ∷ cs) s = exec cs (t.print text s)
  exec (write addr bytes ∷ cs) s = exec cs (t.write_bytes bytes addr s).1

  -- No write fails on the way.
  abbrev pub NoneFails : List Command → S → Type 0
  NoneFails [] s = Unit
  NoneFails (print text ∷ cs) s = NoneFails cs (t.print text s)
  NoneFails (write addr bytes ∷ cs) s =
      ((t.write_bytes bytes addr s).0 ≡ false) × NoneFails cs (t.write_bytes bytes addr s).1
