-- ===== src/Threads/Safety.antt =====
-- The ranges of the shared state under any interleaving.
use lbm_rtp_proxy.Base.{ℕ, ◌^◌, ◌<◌, some, List, refl, arith, ◌==◌, Bool-cases, inl, inr}
use lbm_rtp_proxy.Command.{Globals, update_table_function}
use lbm_rtp_proxy.Command.Laws.{IsGlobals, update_table_function-IsEntry}
use lbm_rtp_proxy.Config.{Config, IsConfig, config_get, config_set, config_clr-IsConfig}
use lbm_rtp_proxy.Rewrite.Smoothing.{set_sn_function}
use lbm_rtp_proxy.System.Hooks.{RowStep-IsTable}
use lbm_rtp_proxy.Table.{table_atomically}
use lbm_rtp_proxy.Table.Laws.{IsTable, table_del-IsTable, table_atomically-IsTable}
use lbm_rtp_proxy.Threads.{
  Change, Access, addresses, smoothing, loopback, changed, IsChange, Pc, changing, smoothing_row,
  Move, add, delete, read_config, write_config, clear_config, clear_row, clear_end, arrive,
  take_note, System, Step, pick, Reach, here, later,
}

-- The local variables of a thread are in range.
abbrev pub IsPc : Pc → Type 0
IsPc (changing c cfg) = IsChange c × IsConfig cfg
IsPc (smoothing_row index sn) = sn < 2 ^ 16
IsPc _ = Unit

pub record IsSystem (s : System) : Type 0 where
  pub mem : IsGlobals s.mem
  pub threads : (i : ℕ) → IsPc (s.pc i)

changed-IsConfig :
    (c : Change) (cfg : Config) → IsChange c → IsConfig cfg → IsConfig (changed c cfg)
changed-IsConfig (addresses int ext) cfg h w = omega arith
changed-IsConfig (smoothing x) cfg h w = omega arith
changed-IsConfig (loopback x) cfg h w = omega arith

note-IsTable :
    (index sn : ℕ) (g : Globals)
    → sn < 2 ^ 16
    → IsTable g.table
    → IsTable (table_atomically index (some set_sn_function) (record { sn = sn }) g.table).1
unfolding table_atomically
note-IsTable index sn g lt w = RowStep-IsTable g.table _ (inr (index, sn, lt, refl)) w

Move-IsGlobals :
    {g g' : Globals} {p p' : Pc} {cs : List Access}
    → Move g p g' p' cs
    → IsGlobals g
    → IsPc p
    → IsGlobals g' × IsPc p'
unfolding config_get config_set
Move-IsGlobals {g} (add index random_sn ent lt r e) w h = (
  record {
    config = w.config;
    table =
        table_atomically-IsTable index (update_table_function random_sn) ent g.table
          (update_table_function-IsEntry random_sn (g.table index) ent r (w.table.rows index lt) e)
          w.table;
  },
  tt,
)
Move-IsGlobals {g} (delete index) w h =
    (record { config = w.config; table = table_del-IsTable index g.table w.table }, tt)
Move-IsGlobals (read_config c k) w h = (w, (k, w.config))
Move-IsGlobals (write_config {c} {cfg}) w h =
    (record { config = changed-IsConfig c cfg h.0 h.1; table = w.table }, tt)
Move-IsGlobals {g} clear_config w h =
    (record { config = config_clr-IsConfig g.config; table = w.table }, tt)
Move-IsGlobals {g} (clear_row {left} {index}) w h =
    (record { config = w.config; table = table_del-IsTable index g.table w.table }, tt)
Move-IsGlobals clear_end w h = (w, tt)
Move-IsGlobals (arrive index sn lt) w h = (w, lt)
Move-IsGlobals {g} (take_note {index} {sn}) w h =
    (record { config = w.config; table = note-IsTable index sn g h w.table }, tt)

Step-IsSystem : {s t : System} → Step s t → IsSystem s → IsSystem t
Step-IsSystem {s} (pick i {g} {p} mv) w =
    let next = Move-IsGlobals mv w.mem (w.threads i) in
    record {
      mem = next.0;
      threads = λ j. elim (Bool-cases (j == i)) [
        | inl same ↦ rw same next.1
        | inr other ↦ rw other (w.threads j)
      ];
    }

-- However the accesses of any number of writers and packets interleave, starting from a state in
-- range, every field of the configuration and of the table is in the range of its type.
pub Reach-IsGlobals : (g : Globals) (s : System) → IsGlobals g → Reach g s → IsGlobals s.mem
Reach-IsGlobals g s w r = (go r).mem
  where
    go : {s : System} → Reach g s → IsSystem s
    go here = record { mem = w; threads = λ i. tt }
    go (later r st) = Step-IsSystem st (go r)
