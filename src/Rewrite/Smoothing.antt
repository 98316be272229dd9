-- ===== src/Rewrite/Smoothing.antt =====
-- `set_SN_function` of src/rewrite.c: the step of the sequence number state of a row.
pub mod Stream
pub mod Reference
use lbm_rtp_proxy.Base.{ℕ, ◌+◌, ◌-◌, ◌%◌, ◌^◌, ◌≤◌, ◌<◌, ◌≡◌, ◌≢◌, arith}
use lbm_rtp_proxy.Base.{ltb, leb, is_set, if◌then◌else◌}
use lbm_rtp_proxy.Table.{TableEntry, IsEntry}

abbrev pub min_delta : ℕ
min_delta = 4

-- `struct set_SN_arg`
pub record SetSnArg : Type 0 where
  pub sn : ℕ

-- The row and the argument as the function leaves them.
unfoldable pub set_sn_function : TableEntry → SetSnArg → TableEntry × SetSnArg
set_sn_function entry a =
    let sn = a.sn in
    let expected = (entry.last_sn + 1) % 2 ^ 16 in
    let delta = (expected + 2 ^ 16 - sn) % 2 ^ 16 in
    let counted =
      if is_set entry.entry_used
      then (if ltb sn expected
          then (if leb min_delta delta
              then record entry { offset = (entry.offset + delta) % 2 ^ 16 }
              else entry)
          else entry)
      else record entry { entry_used = 1 } in
    (record counted { last_sn = sn }, record { sn = (sn + counted.offset) % 2 ^ 16 })

-- The number that the function puts into the packet.
abbrev pub sent : TableEntry → ℕ → ℕ
sent e sn = (set_sn_function e (record { sn = sn })).1.sn

-- The row after a packet with this number.
abbrev pub after : TableEntry → ℕ → TableEntry
after e sn = (set_sn_function e (record { sn = sn })).0

-- The source starts over: the number is at least three below the last one, that is, at least
-- `min_delta` below the one that was expected.
abbrev pub IsRestart : TableEntry → ℕ → Type 0
IsRestart e sn = (e.entry_used ≢ 0) × (e.last_sn + 1 < 2 ^ 16) × (sn + 3 ≤ e.last_sn)

pub set_sn_function-IsEntry :
    (e : TableEntry) (sn : ℕ) → IsEntry e → sn < 2 ^ 16 → IsEntry (after e sn)
unfolding set_sn_function
set_sn_function-IsEntry e sn w h = ground arith

pub sent-lt : (e : TableEntry) (sn : ℕ) → sent e sn < 2 ^ 16
unfolding set_sn_function
sent-lt e sn = ground arith

-- At a restart a row in range sends the successor of the number that it sent last, and adds to its
-- offset how far the source fell below the number that was expected.
pub sent-restart :
    (e : TableEntry) (sn : ℕ)
    → IsEntry e
    → IsRestart e sn
    → (sent e sn ≡ ((e.last_sn + e.offset) % 2 ^ 16 + 1) % 2 ^ 16)
      × ((after e sn).offset ≡ (e.offset + (e.last_sn + 1 - sn)) % 2 ^ 16)
unfolding set_sn_function
sent-restart e sn w r = ground arith

-- At any other packet the offset stays and is added.
pub sent-steady :
    (e : TableEntry) (sn : ℕ)
    → IsEntry e
    → sn < 2 ^ 16
    → ¬ IsRestart e sn
    → (sent e sn ≡ (sn + e.offset) % 2 ^ 16) × ((after e sn).offset ≡ e.offset)
unfolding set_sn_function
sent-steady e sn w lt r = ground arith

-- Packets that get lost where the source's numbers wrap around are taken for a restart: on a row in
-- range and in use, whose last number is not the last before the wrap, a packet `gap` numbers
-- later, behind the wrap and at least three short of the whole circle, is sent as the immediate
-- successor, and the offset hides the loss from then on.
pub sent-hides_loss :
    (e : TableEntry) (gap : ℕ)
    → IsEntry e
    → e.entry_used ≢ 0
    → e.last_sn + 1 < 2 ^ 16
    → 2 ^ 16 ≤ e.last_sn + gap
    → gap + 3 ≤ 2 ^ 16
    → let sn = (e.last_sn + gap) % 2 ^ 16 in
      (sent e sn ≡ ((e.last_sn + e.offset) % 2 ^ 16 + 1) % 2 ^ 16)
      × ((after e sn).offset ≡ (e.offset + 2 ^ 16 + 1 - gap) % 2 ^ 16)
sent-hides_loss e gap w used wrap past near =
    ground (arith, sent-restart e ((e.last_sn + gap) % 2 ^ 16))
