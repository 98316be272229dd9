-- ===== src/Threads.antt =====
-- Writers of the proc file and packets at the same time, one access of the shared state after another:
-- what src/config.c and src/table.c do under a lock is one move, and between two moves of a thread
-- the others may move.
pub mod Commands
pub mod Safety
pub mod Races
pub mod Rows
pub mod OneWriter
pub mod Hooks
use lbm_rtp_proxy.Base.{ℕ, zero, suc, ◌+◌, ◌^◌, ◌<◌, some, List, [], ◌∷◌, ◌++◌, ◌==◌, if◌then◌else◌}
use lbm_rtp_proxy.Base.{◌≡◌, ◌≢◌, inl, inr, Bool-cases, arith}
use lbm_rtp_proxy.Command.{Globals, update_table_function}
use lbm_rtp_proxy.Config.{Config, config_get, config_set, config_clr}
use lbm_rtp_proxy.Rewrite.Smoothing.{set_sn_function, sent}
use lbm_rtp_proxy.Spec.{Ends, ends}
use lbm_rtp_proxy.Table.{Table, TableEntry, IsEntry, table_size, table_atomically, table_del}

-- What the commands `c`, `s` and `l` do to the configuration between reading and writing it.
pub data Change : Type 0 where
  addresses : (int_proxy_addr ext_proxy_addr : ℕ) → Change
  smoothing loopback : ℕ → Change

abbrev pub changed : Change → Config → Config
changed (addresses int ext) cfg = record cfg { int_proxy_addr = int; ext_proxy_addr = ext }
changed (smoothing x) cfg = record cfg { smoothing = x }
changed (loopback x) cfg = record cfg { loopback = x }

abbrev pub IsChange : Change → Type 0
IsChange (addresses int ext) = (int < 2 ^ 32) × (ext < 2 ^ 32)
IsChange (smoothing x) = x < 2 ^ 8
IsChange (loopback x) = x < 2 ^ 8

-- What an access of the shared state is for: the commands' changes, and the number `out` that a
-- packet gets for its number `sn` from a row.
pub data Access : Type 0 where
  change : Change → Access
  defaults : Access
  entry : (index : ℕ) → Ends → Access
  no_entry : (index : ℕ) → Access
  noted : (index sn out : ℕ) → Access

-- Where a thread stands, with its local variables: between two commands or packets, between
-- config_get and config_set, in the loop of table_clr, before the table_atomically of rewrite_rtp.
pub data Pc : Type 0 where
  idle : Pc
  changing : Change → Config → Pc
  clearing : (left index : ℕ) → Pc
  smoothing_row : (index sn : ℕ) → Pc

-- One move, with the access that it is. Which route a packet found, and
-- when, is left open: from `idle` any row may be the one that takes note of its number.
pub data Move (g : Globals) : Pc → Globals → Pc → List Access → Type 0 where
  add :
      (index random_sn : ℕ) (ent : TableEntry)
      → index < table_size
      → random_sn < 2 ^ 16
      → IsEntry ent
      → Move g idle
          (record g {
            table = (table_atomically index (some (update_table_function random_sn)) ent g.table).1;
          })
          idle
          (entry index (ends ent) ∷ [])
  delete :
      (index : ℕ)
      → Move g idle (record g { table = table_del index g.table }) idle (no_entry index ∷ [])
  read_config : (c : Change) → IsChange c → Move g idle g (changing c (config_get g.config)) []
  write_config :
      {c : Change} {cfg : Config}
      → Move g
          (changing c cfg)
          (record g { config = config_set (changed c cfg) g.config })
          idle
          (change c ∷ [])
  clear_config :
      Move g idle
        (record g { config = config_clr g.config })
        (clearing table_size 0)
        (defaults ∷ [])
  clear_row :
      {left index : ℕ}
      → Move g
          (clearing (suc left) index)
          (record g { table = table_del index g.table })
          (clearing left (index + 1))
          (no_entry index ∷ [])
  clear_end : {index : ℕ} → Move g (clearing zero index) g idle []
  arrive : (index sn : ℕ) → sn < 2 ^ 16 → Move g idle g (smoothing_row index sn) []
  take_note :
      {index sn : ℕ}
      → Move g
          (smoothing_row index sn)
          (record g {
            table = (table_atomically index (some set_sn_function) (record { sn = sn }) g.table).1;
          })
          idle
          (noted index sn (sent (g.table index) sn) ∷ [])

-- The shared state, the threads, and the accesses so far, the newest first.
pub record System : Type 0 where
  pub mem : Globals
  pub pc : ℕ → Pc
  pub done : List Access

abbrev pub put {ℓ} : {A : Type ℓ} → ℕ → A → (ℕ → A) → ℕ → A
put i p pc j = if j == i then p else pc j

pub put_same {ℓ} : {A : Type ℓ} (i : ℕ) (a : A) (f : ℕ → A) → put i a f i ≡ a
put_same i a f = ground arith

pub put_other {ℓ} : {A : Type ℓ} (i j : ℕ) (a : A) (f : ℕ → A) → i ≢ j → put i a f j ≡ f j
put_other i j a f other = ground arith

-- What holds for a thread's new state and for all states before holds for all.
pub put-all {ℓ ℓ'} :
    {A : Type ℓ} (P : A → Type ℓ') (i : ℕ) (a : A) (f : ℕ → A)
    → P a
    → ((j : ℕ) → P (f j))
    → (j : ℕ) → P (put i a f j)
put-all P i a f w ws j = elim (Bool-cases (j == i)) [
  | inl same ↦ rw same w
  | inr other ↦ rw other (ws j)
]

pub data Step (s : System) : System → Type 0 where
  pick :
      (i : ℕ) {g : Globals} {p : Pc} {cs : List Access}
      → Move s.mem (s.pc i) g p cs
      → Step s (record { mem = g; pc = put i p s.pc; done = cs ++ s.done })

abbrev pub start : Globals → System
start g = record { mem = g; pc = λ i. idle; done = [] }

pub data Reach (g : Globals) : System → Type 0 where
  here : Reach g (start g)
  later : {s t : System} → Reach g s → Step s t → Reach g t

-- One thread that is not interrupted, with its accesses in order.
pub data Alone : Globals → Pc → Globals → Pc → List Access → Type 0 where
  stop : {g : Globals} {p : Pc} → Alone g p g p []
  move :
      {g g' g'' : Globals} {p p' p'' : Pc} {cs ds : List Access}
      → Move g p g' p' cs
      → Alone g' p' g'' p'' ds
      → Alone g p g'' p'' (cs ++ ds)
