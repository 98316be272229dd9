-- ===== src/Threads/Hooks/Commands.antt =====
-- Commands of src/command.c as runs of one thread among calls of hooks.
use lbm_rtp_proxy.Base.{ℕ, zero, suc, ◌+◌, ◌<◌, ◌^◌, List, [], ◌∷◌, ◌≡◌, refl, ap, ◌∙◌}
use lbm_rtp_proxy.Command.{Globals, handle_command}
use lbm_rtp_proxy.Command.Formats.{Scanner}
use lbm_rtp_proxy.Kernel.{Kernel}
use lbm_rtp_proxy.Net.ByteOrder.{ByteOrder}
use lbm_rtp_proxy.Spec
use lbm_rtp_proxy.Spec.{Request}
use lbm_rtp_proxy.Spec.Requests.{request}
use lbm_rtp_proxy.Table.{table_size}
use lbm_rtp_proxy.Threads.{
  Access, noted, Pc, idle, smoothing_row, add, delete, read_config, write_config, clear_config,
  clear_row, clear_end, arrive, take_note, Alone, stop, move, put_same,
}
use lbm_rtp_proxy.Threads.Commands.{no_entries, accesses, handle_command-Alone}
use lbm_rtp_proxy.Threads.Hooks.{Local, writing, Machine, command, Reach, later}

-- Accesses of writers alone.
abbrev NoNotes : List Access → Type 0
NoNotes [] = Unit
NoNotes (noted index sn out ∷ log) = ⊥
NoNotes (_ ∷ log) = NoNotes log

no_entries-NoNotes : (left index : ℕ) → NoNotes (no_entries left index)
unfolding no_entries
no_entries-NoNotes zero index = tt
no_entries-NoNotes (suc left) index = no_entries-NoNotes left (index + 1)

accesses-NoNotes : (q : Request) → NoNotes (accesses q)
accesses-NoNotes (Spec.add index e) = tt
accesses-NoNotes (Spec.delete index) = tt
accesses-NoNotes (Spec.configure int ext) = tt
accesses-NoNotes (Spec.smoothing x) = tt
accesses-NoNotes (Spec.loopback x) = tt
accesses-NoNotes Spec.flush = no_entries-NoNotes table_size 0
accesses-NoNotes Spec.nothing = tt

-- A packet that comes to its end leaves a note.
note_needed :
    {g g' : Globals} {q p' : Pc} {cs : List Access} (index sn : ℕ)
    → Alone g q g' p' cs
    → q ≡ smoothing_row index sn
    → p' ≡ idle
    → NoNotes cs
    → ⊥
note_needed index sn stop e e' h = cc
note_needed index sn (move (add _ _ _ _ _ _) rest) e e' h = cc
note_needed index sn (move (delete _) rest) e e' h = cc
note_needed index sn (move (read_config _ _) rest) e e' h = cc
note_needed index sn (move write_config rest) e e' h = cc
note_needed index sn (move clear_config rest) e e' h = cc
note_needed index sn (move clear_row rest) e e' h = cc
note_needed index sn (move clear_end rest) e e' h = cc
note_needed index sn (move (arrive _ _ _) rest) e e' h = cc
note_needed index sn (move take_note rest) e e' h = h

module _ ⦃o : ByteOrder⦄ ⦃k : Kernel⦄ where
  -- One thread goes on alone with a command.
  commands :
      {g0 g g' : Globals} {p p' : Pc} {cs : List Access} (i : ℕ) (pc : ℕ → Local)
      (done : List Access)
      → Reach g0 (record { mem = g; pc = pc; done = done })
      → pc i ≡ writing p
      → Alone g p g' p' cs
      → p' ≡ idle
      → NoNotes cs
      → (e : Machine) × Reach g0 e × (e.mem ≡ g') × (e.pc i ≡ writing idle)
  commands i pc done r at stop e h = (_, r, refl, at ∙ ap writing e)
  commands i pc done r at (move (add index sn ent a b c) rest) e h =
      commands i _ _ (later r (command i at (add index sn ent a b c) tt)) (put_same i _ pc) rest e h
  commands i pc done r at (move (delete index) rest) e h =
      commands i _ _ (later r (command i at (delete index) tt)) (put_same i _ pc) rest e h
  commands i pc done r at (move (read_config c a) rest) e h =
      commands i _ _ (later r (command i at (read_config c a) tt)) (put_same i _ pc) rest e h
  commands i pc done r at (move write_config rest) e h =
      commands i _ _ (later r (command i at write_config tt)) (put_same i _ pc) rest e h
  commands i pc done r at (move clear_config rest) e h =
      commands i _ _ (later r (command i at clear_config tt)) (put_same i _ pc) rest e h
  commands i pc done r at (move clear_row rest) e h =
      commands i _ _ (later r (command i at clear_row tt)) (put_same i _ pc) rest e h
  commands i pc done r at (move clear_end rest) e h =
      commands i _ _ (later r (command i at clear_end tt)) (put_same i _ pc) rest e h
  commands i pc done r at (move (arrive index sn lt) rest) e h =
      absurd (note_needed index sn rest refl e h)
  commands i pc done r at (move take_note rest) e h = absurd h

  pub whole_command :
      ⦃s : Scanner⦄ {g0 : Globals} (i : ℕ) (d : Machine) (text : List ℕ) (random_sn : ℕ)
      → random_sn < 2 ^ 16
      → Reach g0 d
      → d.pc i ≡ writing idle
      → (e : Machine) × Reach g0 e
        × (e.mem ≡ (handle_command text random_sn d.mem).0)
        × (e.pc i ≡ writing idle)
  whole_command i d text random_sn lt r rests =
      commands i d.pc d.done r rests (handle_command-Alone text random_sn d.mem lt) refl
        (accesses-NoNotes (request text))
