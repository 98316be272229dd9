-- ===== src/Examples/Threads.antt =====
-- Two threads that switch smoothing and loopback off at the same time.
use lbm_rtp_proxy.Base.{ℕ, ◌≡◌, [], ◌∷◌, arith}
use lbm_rtp_proxy.Command.{Globals}
use lbm_rtp_proxy.Config.{empty_config, config_get, config_set}
use lbm_rtp_proxy.Examples.Machine.{little_endian, decimal_scanner}
use lbm_rtp_proxy.Spec.{ends}
use lbm_rtp_proxy.Table.{empty_entry}
use lbm_rtp_proxy.Threads.{
  Pc, changing, smoothing_row, arrive, read_config, write_config, put, change, smoothing, loopback,
  idle, System, Reach,
}
use lbm_rtp_proxy.Threads.OneWriter.{
  OneWriter, begin, write, traffic, configured, OneWriter-loses_nothing,
}
use lbm_rtp_proxy.Threads.Races.{Reach-loses_change}
use lbm_rtp_proxy.Threads.Rows.{logged}

abbrev loaded : Globals
loaded = record {
  config = record empty_config { smoothing = 1; loopback = 1 };
  table = λ i. empty_entry;
}

Reach-loses_change_example :
    (s : System) × Reach loaded s
    × (s.done ≡ change (smoothing 0) ∷ change (loopback 0) ∷ [])
    × ((i : ℕ) → s.pc i ≡ idle)
    × (s.mem.config ≡ record empty_config { loopback = 1 })
Reach-loses_change_example =
    Reach-loses_change loaded (smoothing 0) (loopback 0) (omega arith) (omega arith)

-- Thread 0 switches loopback off, and a packet comes in between.
abbrev reading : Pc
reading = changing (loopback 0) loaded.config

abbrev note : Pc
note = smoothing_row 3 7

abbrev ended : System
ended = record {
  mem = record loaded { config = record empty_config { smoothing = 1 } };
  pc = put 0 idle (put 1 note (put 0 reading (λ i. idle)));
  done = change (loopback 0) ∷ [];
}

ended-OneWriter : OneWriter 0 loaded ended
unfolding config_get config_set
ended-OneWriter =
    write
      (traffic 1 (write begin (read_config (loopback 0) (omega arith))) (omega arith)
        (arrive 3 7 (omega arith)) tt)
      write_config

OneWriter-loses_nothing_example :
    (ended.mem.config ≡ configured ended.done loaded.config)
    × ((i : ℕ) → ends (ended.mem.table i) ≡ logged i ended.done (ends (loaded.table i)))
OneWriter-loses_nothing_example = OneWriter-loses_nothing 0 loaded ended ended-OneWriter
