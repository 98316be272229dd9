-- ===== src/Procfs/Session.antt =====
-- A read of the proc file in portions: the protocol by which `seq_file` of the kernel calls
-- rtp_proxy_seq_start, rtp_proxy_seq_show and rtp_proxy_seq_next of src/procfs.c. A portion starts at the
-- position of the next element, shows elements until the buffer is full, and each call of next
-- counts the position up.
use lbm_rtp_proxy.Base.{
  ℕ, zero, suc, ◌+◌, ◌≤◌, ◌<◌, Option, none, some, List, [], ◌∷◌, ◌++◌, length, take, drop, ◌≡◌,
  inl, inr, refl, sym, ap, ◌∙◌, arith, drop-nil, drop-drop, take-append, length-take, take_nil,
}
use lbm_rtp_proxy.Table.{Table, table_size}
use lbm_rtp_proxy.Procfs.{rtp_proxy_seq_start, rtp_proxy_seq_next}
use lbm_rtp_proxy.Procfs.Listing.{listed, seq_next_cases}
use lbm_rtp_proxy.Procfs.Resume.{nth_from, seq_start-element}

-- At most so many elements from the one at hand on.
abbrev pub portion : ℕ → Option ℕ → Table → List ℕ
portion zero cur t = []
portion (suc n) none t = []
portion (suc n) (some i) t = i ∷ portion n (rtp_proxy_seq_next i t) t

-- The elements that are shown, by the sizes of the portions and the position of the first.
abbrev pub session : List ℕ → ℕ → Table → List ℕ
session [] position t = []
session (n ∷ ns) position t =
    let shown = portion n (rtp_proxy_seq_start position t) t in
    shown ++ session ns (position + length shown) t

-- The line of the configuration, and the rows in order.
abbrev pub whole : Table → List ℕ
whole t = 0 ∷ listed table_size 0 t

abbrev pub total : List ℕ → ℕ
total [] = 0
total (n ∷ ns) = n + total ns

portion_nil : (n : ℕ) (t : Table) → portion n none t ≡ []
portion_nil zero t = refl
portion_nil (suc n) t = refl

listed-end :
    (fuel index : ℕ) (t : Table) → rtp_proxy_seq_next index t ≡ none → listed fuel index t ≡ []
unfolding listed
listed-end zero index t e = refl
listed-end (suc fuel) index t e = rw (e, listed)

listed-next :
    (fuel index i : ℕ) (t : Table)
    → rtp_proxy_seq_next index t ≡ some i
    → listed (suc fuel) index t ≡ i ∷ listed fuel i t
unfolding listed
listed-next fuel index i t e = rw (e, listed)

-- From the element `m` calls of next after `index` on, a portion shows what is listed from there.
portion-nth :
    (fuel n m index : ℕ) (t : Table)
    → table_size ≤ index + fuel + 1
    → index < table_size
    → portion n (nth_from m index t) t ≡ take n (drop m (index ∷ listed fuel index t))
unfolding take
portion-nth fuel zero m index t enough lt = refl
portion-nth zero (suc n) zero index t enough lt = elim (seq_next_cases index t lt) [
  | inl (e, none_left) ↦
      rw (e, listed-end _ index t e)
        (ap (λ (r : List ℕ). index ∷ r) (portion_nil n t ∙ sym (take_nil n)))
  | inr (i, e, above, below, row, skipped) ↦ absurd (omega arith)
]
portion-nth (suc fuel) (suc n) zero index t enough lt = elim (seq_next_cases index t lt) [
  | inl (e, none_left) ↦
      rw (e, listed-end _ index t e)
        (ap (λ (r : List ℕ). index ∷ r) (portion_nil n t ∙ sym (take_nil n)))
  | inr (i, e, above, below, row, skipped) ↦
      rw (e, listed-next fuel index i t e)
        (ap (λ (r : List ℕ). index ∷ r) (portion-nth fuel n zero i t (omega arith) below))
]
portion-nth zero (suc n) (suc m) index t enough lt = elim (seq_next_cases index t lt) [
  | inl (e, none_left) ↦ rw (e, listed-end _ index t e, drop-nil m) refl
  | inr (i, e, above, below, row, skipped) ↦ absurd (omega arith)
]
portion-nth (suc fuel) (suc n) (suc m) index t enough lt = elim (seq_next_cases index t lt) [
  | inl (e, none_left) ↦ rw (e, listed-end _ index t e, drop-nil m) refl
  | inr (i, e, above, below, row, skipped) ↦
      rw (e, listed-next fuel index i t e) (portion-nth fuel (suc n) m i t (omega arith) below)
]

portion-start :
    (n p : ℕ) (t : Table)
    → portion n (rtp_proxy_seq_start (suc p) t) t ≡ take n (drop (suc (suc p)) (whole t))
portion-start n p t =
    rw (seq_start-element p t)
      (portion-nth table_size n (suc (suc p)) 0 t (omega arith) (omega arith))

-- From a position above 0 on all portions together show one stretch.
session-suc :
    (ns : List ℕ) (p : ℕ) (t : Table)
    → session ns (suc p) t ≡ take (total ns) (drop (suc (suc p)) (whole t))
unfolding take
session-suc [] p t = refl
session-suc (n ∷ ns) p t =
    let rest = drop (suc (suc p)) (whole t) in
    let shown = length (take n rest) in
    rw (portion-start n p t) (
      ap (λ (r : List ℕ). take n rest ++ r)
        (ap (λ (k : ℕ). session ns k t) (omega arith)
          ∙ session-suc ns (p + shown) t
          ∙ ap (take (total ns)) (
              ap (λ (k : ℕ). drop k (whole t)) {x = suc (suc (p + shown))} (omega arith)
              ∙ sym (drop-drop shown (suc (suc p)) (whole t))))
      ∙ take-append n (total ns) rest)

portion-first : (n : ℕ) (t : Table) → portion n (rtp_proxy_seq_start 0 t) t ≡ take n (whole t)
unfolding rtp_proxy_seq_start
portion-first n t = portion-nth table_size n 0 0 t (omega arith) (omega arith)

-- Of a read of the proc file that gets `n` lines at first, and the others in portions of any sizes,
-- while the table stays,
-- one element is missing, the one right after the first portion: what is shown is the first `n`
-- elements and then, without a gap, those from the second one after them on. At least one line, and
-- no more than there are, are got at first.
pub session-whole :
    (n : ℕ) (ns : List ℕ) (t : Table)
    → 1 ≤ n
    → n ≤ length (whole t)
    → session (n ∷ ns) 0 t ≡ take n (whole t) ++ take (total ns) (drop (n + 1) (whole t))
session-whole zero ns t pos enough = absurd (omega arith)
session-whole (suc n) ns t pos enough =
    let first : length (take (suc n) (whole t)) ≡ suc n =
      omega (arith, length-take (suc n) (whole t)) in
    rw (portion-first (suc n) t) (
      ap (λ (r : List ℕ). take (suc n) (whole t) ++ r)
        (ap (λ (k : ℕ). session ns k t) (omega (arith, first))
          ∙ session-suc ns n t
          ∙ ap (λ (k : ℕ). take (total ns) (drop k (whole t))) {x = suc (suc n)} (omega arith)))
