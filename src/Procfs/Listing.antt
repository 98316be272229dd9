-- ===== src/Procfs/Listing.antt =====
-- The listing of the proc file when it is read from the start (rtp_proxy_seq_next of src/procfs.c).
use lbm_rtp_proxy.Base.{
  ℕ, zero, suc, ◌+◌, ◌-◌, ◌≤◌, ◌<◌, true, none, some, List, [], ◌∷◌, ◌≡◌, ◌⊎◌, ◌↔◌, inl, inr, refl,
  arith, is_set, Bool-cases,
}
use lbm_rtp_proxy.Table.{Table, table_size, table_get, is_entry_valid}
use lbm_rtp_proxy.Procfs.{next_index_from, next_table_index, rtp_proxy_seq_next}

abbrev pub IsRow : Table → ℕ → Type 0
IsRow t i = is_entry_valid (t i) ≡ true

-- The first valid row of the range from `index` on that has `left` indices, or 0 if there is none.
pub record IsFirst (left index : ℕ) (t : Table) (n : ℕ) : Type 0 where
  pub found : (n ≡ 0) ⊎ (index ≤ n) × (n < index + left) × IsRow t n
  pub before : (j : ℕ) → index ≤ j → j < index + left → (n ≡ 0) ⊎ (j < n) → ¬ IsRow t j

next_index_from-IsFirst :
    (left index : ℕ) (t : Table) → 1 ≤ index → IsFirst left index t (next_index_from left index t)
unfolding next_index_from table_get
next_index_from-IsFirst zero index t h = record {
  found = inl refl;
  before = λ j p q n. absurd (omega arith);
}
next_index_from-IsFirst (suc left) index t h = elim (Bool-cases (is_entry_valid (t index))) [
  | inl valid ↦ rw valid (record {
    found = inr (omega arith, omega arith, valid);
    before = λ j p q n. absurd (omega arith);
  })
  | inr other ↦
      let rest = next_index_from-IsFirst left (index + 1) t (omega arith) in
      rw other (record {
        found = ground (arith, rest.found);
        before = λ j p q n. ground (arith, rest.before j);
      })
]

-- The next index is the least valid one above, or 0 if there is none.
pub next_table_index-IsFirst :
    (index : ℕ) (t : Table)
    → IsFirst (table_size - (index + 1)) (index + 1) t (next_table_index index t)
unfolding next_table_index
next_table_index-IsFirst index t =
    next_index_from-IsFirst (table_size - (index + 1)) (index + 1) t (omega arith)

-- The indices that `next` yields one after another, from an index on.
unfoldable pub listed : ℕ → ℕ → Table → List ℕ
listed zero index t = []
listed (suc fuel) index t = elim (rtp_proxy_seq_next index t) [
  | none ↦ []
  | some i ↦ i ∷ listed fuel i t
]

abbrev pub In : ℕ → List ℕ → Type 0
In j [] = ⊥
In j (i ∷ is) = (j ≡ i) ⊎ In j is

abbrev pub IsAscendingFrom : ℕ → List ℕ → Type 0
IsAscendingFrom index [] = Unit
IsAscendingFrom index (i ∷ is) = (index < i) × IsAscendingFrom i is

pub seq_next_cases :
    (index : ℕ) (t : Table)
    → index < table_size
    → ((rtp_proxy_seq_next index t ≡ none) × ((j : ℕ) → index < j → j < table_size → ¬ IsRow t j))
      ⊎ ((n : ℕ) × (rtp_proxy_seq_next index t ≡ some n)
          × (index < n)
          × (n < table_size)
          × IsRow t n
          × ((j : ℕ) → index < j → j < n → ¬ IsRow t j))
unfolding rtp_proxy_seq_next
seq_next_cases index t h = elim (Bool-cases (is_set (next_table_index index t))) [
  | inl more ↦
      let first = next_table_index-IsFirst index t in
      inr (
        next_table_index index t,
        rw more,
        ground (arith, first.found),
        ground (arith, first.found),
        ground (arith, first.found),
        λ j p q n. ground (arith, first.before j, first.found),
      )
  | inr end ↦
      let first = next_table_index-IsFirst index t in
      inl (rw end, λ j p q n. ground (arith, first.before j))
]

listed_sound :
    (fuel index j : ℕ) (t : Table)
    → index < table_size
    → In j (listed fuel index t)
    → (index < j) × (j < table_size) × IsRow t j
unfolding listed
listed_sound zero index j t h m = absurd m
listed_sound (suc fuel) index j t h m = elim (seq_next_cases index t h) [
  | inl (e, none_left) ↦ absurd (rw (e, listed) at m)
  | inr (n, e, above, below, row, skipped) ↦ ground (arith, listed_sound fuel n j t)
]

listed_complete :
    (fuel index j : ℕ) (t : Table)
    → table_size ≤ index + fuel + 1
    → index < j
    → j < table_size
    → IsRow t j
    → In j (listed fuel index t)
unfolding listed
listed_complete zero index j t enough a b row = absurd (omega arith)
listed_complete (suc fuel) index j t enough a b row = elim (seq_next_cases index t (omega arith)) [
  | inl (e, none_left) ↦ absurd (none_left j a b row)
  | inr (n, e, above, below, _, skipped) ↦ ground (arith, listed_complete fuel n j t, skipped j)
]

listed-IsAscending :
    (fuel index : ℕ) (t : Table) → index < table_size → IsAscendingFrom index (listed fuel index t)
unfolding listed
listed-IsAscending zero index t h = tt
listed-IsAscending (suc fuel) index t h = elim (seq_next_cases index t h) [
  | inl (e, none_left) ↦ ground arith
  | inr (n, e, above, below, row, skipped) ↦ ground (arith, listed-IsAscending fuel n t below)
]

-- What follows the line of the configuration, when the file is read with no interruption, is every
-- valid row but that at index 0, once, in ascending order of the index.
pub listed_iff :
    (t : Table) (j : ℕ)
    → IsAscendingFrom 0 (listed table_size 0 t)
      × (In j (listed table_size 0 t) ↔ ((0 < j) × (j < table_size) × IsRow t j))
listed_iff t j = (
  listed-IsAscending table_size 0 t (omega arith),
  (
    listed_sound table_size 0 j t (omega arith),
    λ r. listed_complete table_size 0 j t (omega arith) r.0 r.1 r.2,
  ),
)
