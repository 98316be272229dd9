-- ===== src/Rewrite/Smoothing/Stream.antt =====
-- Whole streams of RTP packets through set_SN_function of src/rewrite.c, as a receiver sees them.
use lbm_rtp_proxy.Base.{ℕ, ◌+◌, ◌%◌, ◌^◌, ◌≤◌, ◌<◌, ◌≡◌, ◌≢◌, ◌⊎◌, refl, arith}
use lbm_rtp_proxy.Base.{List, [], ◌∷◌, map}
use lbm_rtp_proxy.Table.{TableEntry, IsEntry}
use lbm_rtp_proxy.Rewrite.Smoothing.{
  set_sn_function, sent, after, IsRestart, set_sn_function-IsEntry, sent-steady,
}

-- The numbers that a row puts into the packets of a stream.
abbrev pub sent_all : TableEntry → List ℕ → List ℕ
sent_all e [] = []
sent_all e (sn ∷ sns) = sent e sn ∷ sent_all (after e sn) sns

-- Each number follows the one before it, or starts over below it.
abbrev pub IsSegmented : ℕ → List ℕ → Type 0
IsSegmented prev [] = Unit
IsSegmented prev (sn ∷ sns) =
    (sn < 2 ^ 16)
    × ((sn ≡ (prev + 1) % 2 ^ 16) ⊎ ((prev + 1 < 2 ^ 16) × (sn + 3 ≤ prev)))
    × IsSegmented sn sns

-- Each number is the successor of the one before it, as 16-bit numbers.
abbrev pub IsConsecutive : ℕ → List ℕ → Type 0
IsConsecutive prev [] = Unit
IsConsecutive prev (sn ∷ sns) = (sn ≡ (prev + 1) % 2 ^ 16) × IsConsecutive sn sns

sent-next :
    (e : TableEntry) (sn : ℕ)
    → IsEntry e
    → e.entry_used ≢ 0
    → sn < 2 ^ 16
    → (sn ≡ (e.last_sn + 1) % 2 ^ 16) ⊎ ((e.last_sn + 1 < 2 ^ 16) × (sn + 3 ≤ e.last_sn))
    → sent e sn ≡ ((e.last_sn + e.offset) % 2 ^ 16 + 1) % 2 ^ 16
unfolding set_sn_function
sent-next e sn w used lt follows = ground arith

-- What the row remembers is the number that it sent, and that it is in use.
pub after_lem :
    (e : TableEntry) (sn : ℕ)
    → ((after e sn).last_sn ≡ sn)
      × (((after e sn).last_sn + (after e sn).offset) % 2 ^ 16 ≡ sent e sn)
      × ((after e sn).entry_used ≢ 0)
unfolding set_sn_function
after_lem e sn = (ground arith, ground arith, ground arith)

-- A row in use, in range, sends a stream as one stream with no gap, each number the successor of
-- the one sent before it, where each number of the source follows the one before it, or starts over
-- three or more below it where that was not 65535.
pub sent_all-IsConsecutive :
    (e : TableEntry) (sns : List ℕ)
    → IsEntry e
    → e.entry_used ≢ 0
    → IsSegmented e.last_sn sns
    → IsConsecutive ((e.last_sn + e.offset) % 2 ^ 16) (sent_all e sns)
sent_all-IsConsecutive e [] w used seg = tt
sent_all-IsConsecutive e (sn ∷ sns) w used seg = (
  sent-next e sn w used seg.0 seg.1,
  rw (← (after_lem e sn).1) (
      sent_all-IsConsecutive (after e sn) sns (set_sn_function-IsEntry e sn w seg.0)
        (after_lem e sn).2 (rw (after_lem e sn).0 seg.2)),
)

-- No packet of the stream is taken for a restart.
abbrev pub IsSteady : TableEntry → List ℕ → Type 0
IsSteady e [] = Unit
IsSteady e (sn ∷ sns) = (sn < 2 ^ 16) × (¬ IsRestart e sn) × IsSteady (after e sn) sns

-- A stream in which no packet is taken for a restart leaves a row in range with one offset added
-- throughout, so that the gaps and the order of its numbers stay visible.
pub sent_all-IsSteady :
    (e : TableEntry) (sns : List ℕ)
    → IsEntry e
    → IsSteady e sns
    → sent_all e sns ≡ map (λ sn. (sn + e.offset) % 2 ^ 16) sns
sent_all-IsSteady e [] w steady = refl
sent_all-IsSteady e (sn ∷ sns) w steady =
    let here = sent-steady e sn w steady.0 steady.1 in
    let rest =
      sent_all-IsSteady (after e sn) sns (set_sn_function-IsEntry e sn w steady.0) steady.2 in
    rw (here.0, rest, here.1)
