-- ===== src/Threads/OneWriter.antt =====
-- One writer of the proc file at a time (src/command.c), with packets in between.
use lbm_rtp_proxy.Base.{ℕ, List, [], ◌∷◌, ◌++◌, ◌≡◌, ◌≢◌, refl, ap, ◌∙◌}
use lbm_rtp_proxy.Command.{Globals}
use lbm_rtp_proxy.Config.{Config, empty_config, config_get, config_set, config_clr}
use lbm_rtp_proxy.Spec.{ends}
use lbm_rtp_proxy.Threads.{
  changed, Access, change, defaults, Pc, changing, Move, add, delete, read_config, write_config,
  clear_config, clear_row, clear_end, arrive, take_note, System, put, put_same, put_other, pick,
  start, Reach, here, later,
}
use lbm_rtp_proxy.Threads.Rows.{logged, Reach-logged}

-- The moves of a packet.
abbrev pub IsTraffic : {g g' : Globals} {p p' : Pc} {cs : List Access} → Move g p g' p' cs → Type 0
IsTraffic (arrive index sn lt) = Unit
IsTraffic take_note = Unit
IsTraffic _ = ⊥

-- The thread `w` moves as it likes, the others only for packets.
pub data OneWriter (w : ℕ) (g : Globals) : System → Type 0 where
  begin : OneWriter w g (start g)
  write :
      {s : System} {g' : Globals} {p : Pc} {cs : List Access}
      → OneWriter w g s
      → Move s.mem (s.pc w) g' p cs
      → OneWriter w g (record { mem = g'; pc = put w p s.pc; done = cs ++ s.done })
  traffic :
      {s : System} {g' : Globals} {p : Pc} {cs : List Access} (i : ℕ)
      → OneWriter w g s
      → i ≢ w
      → (mv : Move s.mem (s.pc i) g' p cs) → IsTraffic mv
      → OneWriter w g (record { mem = g'; pc = put i p s.pc; done = cs ++ s.done })

-- The configuration after some accesses, the newest first, by the one before them.
pub configured : List Access → Config → Config
configured [] cfg = cfg
configured (change c ∷ log) cfg = changed c (configured log cfg)
configured (defaults ∷ log) cfg = record empty_config { smoothing = 1; loopback = 1 }
configured (_ ∷ log) cfg = configured log cfg

-- A copy of the configuration that a thread holds is up to date.
abbrev IsCurrent : Pc → Config → Type 0
IsCurrent (changing c cfg) config = cfg ≡ config
IsCurrent _ config = Unit

Move-configured :
    {g g' : Globals} {p p' : Pc} {cs : List Access} (log : List Access) (cfg : Config)
    → Move g p g' p' cs
    → IsCurrent p g.config
    → g.config ≡ configured log cfg
    → (g'.config ≡ configured (cs ++ log) cfg) × IsCurrent p' g'.config
unfolding configured config_get config_set config_clr
Move-configured log cfg (add index random_sn ent lt r h) cur e = (e, tt)
Move-configured log cfg (delete index) cur e = (e, tt)
Move-configured log cfg (read_config c h) cur e = (e, refl)
Move-configured log cfg (write_config {c} {cfg = held}) cur e = (ap (changed c) (cur ∙ e), tt)
Move-configured log cfg clear_config cur e = (refl, tt)
Move-configured log cfg clear_row cur e = (e, tt)
Move-configured log cfg clear_end cur e = (e, tt)
Move-configured log cfg (arrive index sn lt) cur e = (e, tt)
Move-configured log cfg take_note cur e = (e, tt)

traffic-config :
    {g g' : Globals} {p p' : Pc} {cs : List Access} (log : List Access) (cfg : Config)
    (mv : Move g p g' p' cs)
    → IsTraffic mv
    → (g'.config ≡ g.config) × (configured (cs ++ log) cfg ≡ configured log cfg)
unfolding configured
traffic-config log cfg (add index random_sn ent _ _ _) h = absurd h
traffic-config log cfg (delete index) h = absurd h
traffic-config log cfg (read_config c _) h = absurd h
traffic-config log cfg write_config h = absurd h
traffic-config log cfg clear_config h = absurd h
traffic-config log cfg clear_row h = absurd h
traffic-config log cfg clear_end h = absurd h
traffic-config log cfg (arrive index sn lt) h = (refl, refl)
traffic-config log cfg take_note h = (refl, refl)

module _ (w : ℕ) (g : Globals) where
  OneWriter-config :
      {s : System}
      → OneWriter w g s
      → (s.mem.config ≡ configured s.done g.config) × IsCurrent (s.pc w) s.mem.config
  unfolding configured
  OneWriter-config begin = (refl, tt)
  OneWriter-config (write {s} {g'} {p} {cs} run mv) =
      let before = OneWriter-config run in
      let next = Move-configured s.done g.config mv before.1 before.0 in
      (next.0, rw (put_same w p s.pc) next.1)
  OneWriter-config (traffic {s} {g'} {p} {cs} i run other mv h) =
      let before = OneWriter-config run in
      let same = traffic-config s.done g.config mv h in
      (rw (same.0, same.1) before.0, rw (put_other i w p s.pc other, same.0) before.1)

  OneWriter-Reach : {s : System} → OneWriter w g s → Reach g s
  OneWriter-Reach begin = here
  OneWriter-Reach (write run mv) = later (OneWriter-Reach run) (pick w mv)
  OneWriter-Reach (traffic i run other mv h) = later (OneWriter-Reach run) (pick i mv)

-- As long as only one thread writes the proc file, nothing that it writes is lost, however packets
-- interleave with its accesses: the configuration and the addresses and ports of every row are what
-- its accesses, one after another, make of those at the start.
pub OneWriter-loses_nothing :
    (w : ℕ) (g : Globals) (s : System)
    → OneWriter w g s
    → (s.mem.config ≡ configured s.done g.config)
      × ((i : ℕ) → ends (s.mem.table i) ≡ logged i s.done (ends (g.table i)))
OneWriter-loses_nothing w g s run =
    ((OneWriter-config w g run).0, λ i. Reach-logged g s i (OneWriter-Reach w g run))
