-- ===== src/Threads/Races.antt =====
-- Two writers of the proc file that both change the configuration (src/command.c).
use lbm_rtp_proxy.Base.{ℕ, [], ◌∷◌, ◌≡◌, refl, arith}
use lbm_rtp_proxy.Command.{Globals}
use lbm_rtp_proxy.Config.{config_get, config_set}
use lbm_rtp_proxy.Threads.{
  Change, change, changed, IsChange, idle, changing, read_config, write_config, System, put, pick,
  Reach, here, later,
}

-- Both read the configuration before either writes it.
module _ (g : Globals) (c d : Change) (hc : IsChange c) (hd : IsChange d) where
  abbrev both_read : System
  both_read = record {
    mem = g;
    pc = put 1 (changing d g.config) (put 0 (changing c g.config) (λ i. idle));
    done = [];
  }

  abbrev both_written : System
  both_written = record {
    mem = record g { config = changed c g.config };
    pc = put 0 idle (put 1 idle both_read.pc);
    done = change c ∷ change d ∷ [];
  }

  both_read-Reach : Reach g both_read
  unfolding config_get
  both_read-Reach = later (later here (pick 0 (read_config c hc))) (pick 1 (read_config d hd))

  both_written-Reach : Reach g both_written
  unfolding config_set
  both_written-Reach = later (later both_read-Reach (pick 1 write_config)) (pick 0 write_config)

  both_written-idle : (i : ℕ) → both_written.pc i ≡ idle
  both_written-idle i = ground arith

  -- For any two changes c and d of the configuration by commands, both in range, there is a state
  -- that two threads reach, in which both changes are complete, d before c and nothing else, and no
  -- thread is within a command, and in which the configuration is what c alone makes of it: d is lost.
  pub Reach-loses_change :
      (s : System) × Reach g s
      × (s.done ≡ change c ∷ change d ∷ [])
      × ((i : ℕ) → s.pc i ≡ idle)
      × (s.mem.config ≡ changed c g.config)
  Reach-loses_change = (both_written, both_written-Reach, refl, both_written-idle, refl)
