-- ===== src/Procfs.antt =====
-- The proc file (src/procfs.c): reading lists the configuration and the valid rows, writing runs a
-- command. The kernel's `seq_file` calls start, show and next; its buffers, `kmalloc` and
-- `copy_from_user` enter as arguments.
pub mod Listing
pub mod Resume
pub mod Session
pub mod Ending
pub mod Printing
pub mod Writing
pub mod Operations
use lbm_rtp_proxy.Base.{
  ℕ, zero, suc, ◌+◌, ◌-◌, Bool, true, false, Option, none, some, List, [], ◌∷◌, take, length, leb,
  ltb, ◌==◌, is_set, if◌then◌else◌,
}
use lbm_rtp_proxy.Command.{Globals, handle_command}
use lbm_rtp_proxy.Command.Formats.{Scanner}
use lbm_rtp_proxy.Config.{Config, config_get}
use lbm_rtp_proxy.Net.Address.{Ip, htoal}
use lbm_rtp_proxy.Net.ByteOrder.{ByteOrder, ntohs, ntohl}
use lbm_rtp_proxy.Table.{Table, TableEntry, table_size, table_get}

-- The loop of `next_table_index` at an index, with the indices left that are below `table_size`.
unfoldable pub next_index_from : ℕ → ℕ → Table → ℕ
next_index_from zero index table = 0
next_index_from (suc left) index table =
    let rest = next_index_from left (index + 1) table in
    if (table_get index table).1 then index else rest

unfoldable pub next_table_index : ℕ → Table → ℕ
next_table_index index table = next_index_from (table_size - (index + 1)) (index + 1) table

-- The loop of `rtp_proxy_seq_start`, with the rounds left.
unfoldable pub start_loop : ℕ → ℕ → Table → ℕ
start_loop zero index table = index
start_loop (suc rounds) index table =
    let found = next_table_index index table in
    let rest = start_loop rounds found table in if is_set found then rest else found

-- The index in the iterator, or `none` for NULL. The loop body runs for the positions down to -1. The
-- code cuts the position to an `int`; those that a read of the table gets to are below 2 ^ 31.
unfoldable pub rtp_proxy_seq_start : ℕ → Table → Option ℕ
rtp_proxy_seq_start zero table = some 0
rtp_proxy_seq_start (suc p) table =
    let index = start_loop (suc (suc p)) 0 table in if is_set index then some index else none

unfoldable pub rtp_proxy_seq_next : ℕ → Table → Option ℕ
rtp_proxy_seq_next index table =
    let found = next_table_index index table in if is_set found then some found else none

-- An address and a port as they are printed.
pub record Endpoint : Type 0 where
  pub ip : Ip
  pub port : ℕ

-- What `seq_printf` is given: the line of the configuration, or the two lines of a row, with their
-- four endpoints each from left to right.
pub data Shown : Type 0 where
  config_line : Ip → Ip → ℕ → ℕ → Shown
  route_lines :
      (sender int_proxy ext_proxy sbc : Endpoint)
      → (sbc' ext_proxy' int_proxy' receiver : Endpoint) → Shown

module _ ⦃o : ByteOrder⦄ where
  abbrev pub endpoint : ℕ → ℕ → Endpoint
  endpoint addr port = record { ip = htoal (ntohl addr); port = ntohs port }

  unfoldable pub seq_show_table_entry : ℕ → TableEntry → Config → Shown
  seq_show_table_entry index ent cfg =
      let int_proxy = endpoint cfg.int_proxy_addr index in
      let ext_proxy = endpoint cfg.ext_proxy_addr index in
      let sender = endpoint ent.sender_addr ent.sender_port in
      let receiver = endpoint ent.receiver_addr ent.receiver_port in
      let sbc = endpoint ent.sbc_addr ent.sbc_port in
      if index == 0
      then config_line (htoal (ntohl cfg.int_proxy_addr)) (htoal (ntohl cfg.ext_proxy_addr))
          cfg.smoothing cfg.loopback
      else route_lines sender int_proxy ext_proxy sbc sbc ext_proxy int_proxy receiver

  unfoldable pub rtp_proxy_seq_show : ℕ → Globals → Shown
  unfolding seq_show_table_entry config_get
  rtp_proxy_seq_show index g =
      seq_show_table_entry index (table_get index g.table).0 (config_get g.config)

abbrev pub write_buf_size : ℕ
write_buf_size = 256

-- What is copied of a write, and what is left of that when the last byte of the buffer is kept for
-- the terminating NUL.
unfoldable pub copied_size : ℕ → ℕ
copied_size len = if ltb len write_buf_size then len else write_buf_size

unfoldable pub command_size : ℕ → ℕ
command_size size = if leb write_buf_size size then write_buf_size - 1 else size

pub data Written : Type 0 where
  enomem efault : Written
  written : ℕ → Written

module _ ⦃o : ByteOrder⦄ ⦃s : Scanner⦄ where
  -- Whether `kmalloc` and `copy_from_user` succeed, then the user's bytes, the random number for the
  -- command, and the state.
  unfoldable pub rtp_proxy_write : Bool → Bool → List ℕ → ℕ → Globals → Globals × Written
  rtp_proxy_write false copied user_buffer random_sn g = (g, enomem)
  rtp_proxy_write true false user_buffer random_sn g = (g, efault)
  rtp_proxy_write true true user_buffer random_sn g =
      let copied = copied_size (length user_buffer) in
      let size = command_size copied in
      let command = take size (take copied user_buffer) in
      (if ltb 0 size then (handle_command command random_sn g).0 else g, written size)
