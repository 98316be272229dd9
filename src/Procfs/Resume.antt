-- ===== src/Procfs/Resume.antt =====
-- Reading that is interrupted: `seq_file` calls rtp_proxy_seq_start of src/procfs.c with the position
-- of the next element, which should be the element that next would have yielded there.
use lbm_rtp_proxy.Base.{
  ℕ, zero, suc, ◌<◌, Option, none, some, ◌≡◌, inl, inr, arith, is_set, ◌>>=◌, Option-cases, ◌∙◌,
  if◌then◌else◌,
}
use lbm_rtp_proxy.Table.{Table}
use lbm_rtp_proxy.Procfs.{next_table_index, start_loop, rtp_proxy_seq_start, rtp_proxy_seq_next}
use lbm_rtp_proxy.Procfs.Listing.{next_table_index-IsFirst}

-- The element that `next` yields after so many calls from an index on; 0 calls from 0 is the line of
-- the configuration, at position 0.
abbrev pub nth_from : ℕ → ℕ → Table → Option ℕ
nth_from zero index t = some index
nth_from (suc n) index t = rtp_proxy_seq_next index t >>= λ i. nth_from n i t

abbrev pub element : ℕ → Table → Option ℕ
element position t = nth_from position 0 t

start_loop-nth :
    (rounds index : ℕ) (t : Table)
    → let i = start_loop (suc rounds) index t in
      (if is_set i then some i else none) ≡ nth_from (suc rounds) index t
unfolding start_loop rtp_proxy_seq_next
start_loop-nth zero index t = ground arith
start_loop-nth (suc rounds) index t =
    ground (arith, start_loop-nth rounds (next_table_index index t) t)

-- `start` at a position above 0 yields the element of the position after it.
pub seq_start-element :
    (p : ℕ) (t : Table) → rtp_proxy_seq_start (suc p) t ≡ element (suc (suc p)) t
unfolding rtp_proxy_seq_start
seq_start-element p t = start_loop-nth (suc p) 0 t

nth_from-suc :
    (n index : ℕ) (t : Table)
    → nth_from (suc n) index t ≡ (nth_from n index t >>= λ i. rtp_proxy_seq_next i t)
nth_from-suc zero index t = elim (Option-cases (rtp_proxy_seq_next index t)) [
  | inl e ↦ rw e
  | inr (i, e) ↦ rw e
]
nth_from-suc (suc n) index t = elim (Option-cases (rtp_proxy_seq_next index t)) [
  | inl e ↦ rw e
  | inr (i, e) ↦ rw e (nth_from-suc n i t)
]

seq_next-lt : (i j : ℕ) (t : Table) → rtp_proxy_seq_next i t ≡ some j → i < j
unfolding rtp_proxy_seq_next
seq_next-lt i j t e = ground (arith, (next_table_index-IsFirst i t).found)

-- Reading that resumes at a position above 0 leaves the element of that position out: where `i`
-- stands at the position and `j` at the one after it, `start` yields `j`, which is above `i`.
pub seq_start-skips :
    (p i j : ℕ) (t : Table)
    → element (suc p) t ≡ some i
    → element (suc (suc p)) t ≡ some j
    → (rtp_proxy_seq_start (suc p) t ≡ some j) × (i < j)
seq_start-skips p i j t at_p after = (
  seq_start-element p t ∙ after,
  seq_next-lt i j t (rw (nth_from-suc (suc p) 0 t, at_p) at after),
)
