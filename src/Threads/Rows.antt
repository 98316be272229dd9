-- ===== src/Threads/Rows.antt =====
-- The rows of the table (src/table.c) under any interleaving of commands and packets.
use lbm_rtp_proxy.Base.{ℕ, List, [], ◌∷◌, ◌++◌, ◌≡◌, refl, arith, ◌==◌, if◌then◌else◌}
use lbm_rtp_proxy.Command.{Globals, update_table_function}
use lbm_rtp_proxy.Spec.{Ends, no_ends, ends}
use lbm_rtp_proxy.Spec.Refinement.{ends-after}
use lbm_rtp_proxy.Table.{TableEntry, table_atomically, table_del}
use lbm_rtp_proxy.Threads.{
  Access, entry, no_entry, Pc, Move, add, delete, read_config, write_config, clear_config,
  clear_row, clear_end, arrive, take_note, System, pick, Reach, here, later,
}

-- The addresses and ports of a row after some accesses, the newest first, by those before them.
unfoldable pub logged : ℕ → List Access → Ends → Ends
logged i [] e = e
logged i (entry index x ∷ log) e = let before = logged i log e in if i == index then x else before
logged i (no_entry index ∷ log) e =
    let before = logged i log e in if i == index then no_ends else before
logged i (_ ∷ log) e = logged i log e

update-ends :
    (random_sn : ℕ) (e ent : TableEntry) → ends (update_table_function random_sn e ent).0 ≡ ends ent
unfolding update_table_function
update-ends random_sn e ent = ground arith

Move-logged :
    {g g' : Globals} {p p' : Pc} {cs : List Access} (i : ℕ) (log : List Access) (e : Ends)
    → Move g p g' p' cs
    → ends (g.table i) ≡ logged i log e
    → ends (g'.table i) ≡ logged i (cs ++ log) e
unfolding logged table_atomically table_del
Move-logged {g} i log e (add index random_sn ent lt r h) q =
    ground (arith, update-ends random_sn (g.table index) ent)
Move-logged i log e (delete index) q = ground arith
Move-logged i log e (read_config c h) q = q
Move-logged i log e write_config q = q
Move-logged i log e clear_config q = q
Move-logged i log e clear_row q = ground arith
Move-logged i log e clear_end q = q
Move-logged i log e (arrive index sn lt) q = q
Move-logged {g} i log e (take_note {index} {sn}) q = ground (arith, ends-after (g.table index) sn)

-- However the accesses of writers and packets interleave, no change of a row is lost: its addresses
-- and ports are those of the last command that wrote or deleted the row, or that it had at the start.
pub Reach-logged :
    (g : Globals) (s : System) (i : ℕ)
    → Reach g s
    → ends (s.mem.table i) ≡ logged i s.done (ends (g.table i))
unfolding logged
Reach-logged g s i here = refl
Reach-logged g _ i (later {s = b} before (pick j mv)) =
    Move-logged i b.done (ends (g.table i)) mv (Reach-logged g b i before)
