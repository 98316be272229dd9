-- ===== src/Table/Laws.antt =====
-- The table of src/table.c as a map from indices to rows.
use lbm_rtp_proxy.Base.{ℕ, zero, suc, ◌+◌, ◌<◌, ◌≡◌, ap, ◌∙◌, Bool, inl, inr, arith}
use lbm_rtp_proxy.Base.{◌==◌, leb, ltb, ◌&&◌, false, some, Bool-cases, if◌then◌else◌}
use lbm_rtp_proxy.Table.{
  Table, TableEntry, IsEntry, empty_entry, table_size, is_entry_valid, table_get, table_put,
  table_del, table_clr, table_clr_from, table_atomically,
}

-- What is put into a row is what is got from it, with whether it is valid; the other rows stay.
pub table_get-table_put :
    (i j : ℕ) (e : TableEntry) (t : Table)
    → table_get j (table_put i e t) ≡ (if j == i then (e, is_entry_valid e) else table_get j t)
unfolding table_get table_put
table_get-table_put i j e t = ground arith

pub table_clr_from_lem :
    (left index : ℕ) (t : Table) (j : ℕ)
    → table_clr_from left index t j
      ≡ (if leb index j && ltb j (index + left) then empty_entry else t j)
unfolding table_clr_from table_del
table_clr_from_lem zero index t j = ground arith
table_clr_from_lem (suc left) index t j =
    table_clr_from_lem left (index + 1) (table_del index t) j ∙ ground arith

-- Clearing empties each of the 65536 rows: no lookup at a 16-bit index finds a valid entry.
pub table_get-table_clr :
    (i : ℕ) (t : Table) → i < table_size → table_get i (table_clr t) ≡ (empty_entry, false)
unfolding table_get table_clr
table_get-table_clr i t h = ground (arith, table_clr_from_lem table_size 0 t i)

pub table_clr_row : (i : ℕ) (t : Table) → i < table_size → table_clr t i ≡ empty_entry
unfolding table_clr
table_clr_row i t h = ground (arith, table_clr_from_lem table_size 0 t i)

pub table_del_row : (i : ℕ) (t : Table) → table_del i t i ≡ empty_entry
unfolding table_del
table_del_row i t = ground arith

-- Every row that a 16-bit index reaches is in range.
pub record IsTable (t : Table) : Type 0 where
  pub rows : (i : ℕ) → i < table_size → IsEntry (t i)

pub empty_entry-IsEntry : IsEntry empty_entry
empty_entry-IsEntry = omega arith

pub table_put-IsTable :
    (i : ℕ) (e : TableEntry) (t : Table) → IsEntry e → IsTable t → IsTable (table_put i e t)
unfolding table_put
table_put-IsTable i e t h w = record {
  rows = λ j lt. elim (Bool-cases (j == i)) [
    | inl same ↦ rw same h
    | inr other ↦ rw other (w.rows j lt)
  ];
}

pub table_del-IsTable : (i : ℕ) (t : Table) → IsTable t → IsTable (table_del i t)
unfolding table_del
table_del-IsTable i t w = table_put-IsTable i empty_entry t empty_entry-IsEntry w

pub table_clr-IsTable : (t : Table) → IsTable (table_clr t)
unfolding table_get
table_clr-IsTable t = record {
  rows = λ i lt.
      rw (ap (λ (r : TableEntry × Bool). r.0) (table_get-table_clr i t lt)) empty_entry-IsEntry;
}

pub table_atomically-IsTable {ℓ} :
    {A : Type ℓ} (i : ℕ) (fn : TableEntry → A → TableEntry × A) (arg : A) (t : Table)
    → IsEntry (fn (t i) arg).0
    → IsTable t
    → IsTable (table_atomically i (some fn) arg t).1
unfolding table_atomically table_put
table_atomically-IsTable i fn arg t h w = table_put-IsTable i (fn (t i) arg).0 t h w
