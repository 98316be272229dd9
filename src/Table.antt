-- ===== src/Table.antt =====
-- The routing table (src/table.c, src/table.h): 65536 rows indexed by a `__be16`, each behind a
-- lock of its own, so each access of a row is one atomic step. A table is a function from indices.
pub mod Laws
pub mod Routing
use lbm_rtp_proxy.Base.{ℕ, zero, suc, ◌+◌, ◌^◌, ◌<◌, Bool, ◌&&◌, Option, none, some}
use lbm_rtp_proxy.Base.{◌==◌, is_set, if◌then◌else◌}

pub record TableEntry : Type 0 where
  pub sender_addr : ℕ
  pub sender_port : ℕ
  pub receiver_addr : ℕ
  pub receiver_port : ℕ
  pub sbc_addr : ℕ
  pub sbc_port : ℕ
  pub last_sn : ℕ
  pub offset : ℕ
  pub offset_set : ℕ
  pub entry_used : ℕ

abbrev pub empty_entry : TableEntry
empty_entry = record {
  sender_addr = 0;
  sender_port = 0;
  receiver_addr = 0;
  receiver_port = 0;
  sbc_addr = 0;
  sbc_port = 0;
  last_sn = 0;
  offset = 0;
  offset_set = 0;
  entry_used = 0;
}

-- The fields are in the range of their types.
pub record IsEntry (e : TableEntry) : Type 0 where
  pub sender_addr-lt : e.sender_addr < 2 ^ 32
  pub sender_port-lt : e.sender_port < 2 ^ 16
  pub receiver_addr-lt : e.receiver_addr < 2 ^ 32
  pub receiver_port-lt : e.receiver_port < 2 ^ 16
  pub sbc_addr-lt : e.sbc_addr < 2 ^ 32
  pub sbc_port-lt : e.sbc_port < 2 ^ 16
  pub last_sn-lt : e.last_sn < 2 ^ 16
  pub offset-lt : e.offset < 2 ^ 16
  pub offset_set-lt : e.offset_set < 2 ^ 8
  pub entry_used-lt : e.entry_used < 2 ^ 8

abbrev pub table_size : ℕ
table_size = 65536

abbrev pub Table : Type 0
Table = ℕ → TableEntry

-- `table[index].entry = e`
abbrev pub set_row : ℕ → TableEntry → Table → Table
set_row index e table = λ j. if j == index then e else table j

unfoldable pub is_entry_valid : TableEntry → Bool
is_entry_valid e =
    is_set e.receiver_addr && is_set e.receiver_port && is_set e.sbc_addr && is_set e.sbc_port

-- The row, and whether it is valid.
unfoldable pub table_get : ℕ → Table → TableEntry × Bool
unfolding is_entry_valid
table_get index table = (table index, is_entry_valid (table index))

unfoldable pub table_put : ℕ → TableEntry → Table → Table
table_put index e table = set_row index e table

unfoldable pub table_del : ℕ → Table → Table
unfolding table_put
table_del index table = table_put index empty_entry table

-- The loop of `table_clr` at `index`, with `left` rounds left.
unfoldable pub table_clr_from : ℕ → ℕ → Table → Table
table_clr_from zero index table = table
table_clr_from (suc left) index table = table_clr_from left (index + 1) (table_del index table)

unfoldable pub table_clr : Table → Table
table_clr table = table_clr_from table_size 0 table

unfoldable pub table_init : Table → Table
unfolding table_clr
table_init table = table_clr table

-- `fn` maps the row and the argument to what it leaves in them. The result is the argument that
-- it returns, or `none` for NULL.
unfoldable pub table_atomically {ℓ} :
    {A : Type ℓ} → ℕ → Option (TableEntry → A → TableEntry × A) → A → Table → Option A × Table
table_atomically index none arg table = (none, table)
table_atomically index (some fn) arg table =
    let (e, result) = fn (table index) arg in (some result, set_row index e table)
