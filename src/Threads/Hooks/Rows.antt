-- ===== src/Threads/Hooks/Rows.antt =====
-- The rows of the table (src/table.c) under any interleaving of commands and of hook calls.
use lbm_rtp_proxy.Base.{ℕ, List, [], ◌∷◌, ◌≡◌, refl}
use lbm_rtp_proxy.Command.{Globals}
use lbm_rtp_proxy.Kernel.{Kernel}
use lbm_rtp_proxy.Net.ByteOrder.{ByteOrder}
use lbm_rtp_proxy.Spec.{Ends, ends}
use lbm_rtp_proxy.Threads.{Access, change, defaults, entry, no_entry, noted}
use lbm_rtp_proxy.Threads.Hooks.{Machine, Reach}
use lbm_rtp_proxy.Threads.Hooks.Refinement.{writes, Reach-Reach}
use lbm_rtp_proxy.Threads.Rows.{logged, Reach-logged}

-- Packets leave the addresses and ports of rows alone.
logged-writes : (i : ℕ) (log : List Access) (e : Ends) → logged i (writes log) e ≡ logged i log e
unfolding logged writes
logged-writes i [] e = refl
logged-writes i (noted index sn out ∷ log) e = logged-writes i log e
logged-writes i (change c ∷ log) e = logged-writes i log e
logged-writes i (defaults ∷ log) e = logged-writes i log e
logged-writes i (entry index x ∷ log) e = rw (logged-writes i log e) refl
logged-writes i (no_entry index ∷ log) e = rw (logged-writes i log e) refl

-- However the accesses of writers and of hook calls interleave, no change of a row is lost: its
-- addresses and ports are those of the last command that wrote or deleted the row, or that it had at
-- the start.
pub Reach-rows :
    ⦃o : ByteOrder⦄ ⦃k : Kernel⦄ (g : Globals) (d : Machine) (i : ℕ)
    → Reach g d
    → ends (d.mem.table i) ≡ logged i d.done (ends (g.table i))
Reach-rows g d i r =
    let (s, reach, mem, pcs, log) = Reach-Reach g d r in
    rw (← mem, ← log, logged-writes i s.done (ends (g.table i))) (Reach-logged g s i reach)
