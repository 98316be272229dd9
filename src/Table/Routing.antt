-- ===== src/Table/Routing.antt =====
-- `get_routing` of src/table.c: the addresses and ports of both sides of a route.
pub mod Laws
pub mod Ranges
use lbm_rtp_proxy.Base.{ℕ, Bool, true, false, ◌&&◌, Option, none, some}
use lbm_rtp_proxy.Base.{◌==◌, is_set, if◌then◌else◌}
use lbm_rtp_proxy.Config.{Config}
use lbm_rtp_proxy.Table.{Table, TableEntry, table_get}

pub record Routing : Type 0 where
  pub i_src_addr : ℕ
  pub i_src_port : ℕ
  pub i_dst_addr : ℕ
  pub i_dst_port : ℕ
  pub i_prx_addr : ℕ
  pub i_prx_port : ℕ
  pub e_prx_addr : ℕ
  pub e_prx_port : ℕ
  pub e_src_addr : ℕ
  pub e_src_port : ℕ
  pub e_dst_addr : ℕ
  pub e_dst_port : ℕ
  pub loopback : ℕ
  pub smoothing : ℕ

unfoldable pub init_routing : ℕ → Config → TableEntry → Routing
init_routing index cfg entry =
    if is_set cfg.loopback
      && entry.receiver_addr == cfg.int_proxy_addr
      && entry.receiver_port == index
    then record {
      i_src_addr = entry.sbc_addr;
      i_src_port = entry.sbc_port;
      i_dst_addr = entry.sbc_addr;
      i_dst_port = entry.sbc_port;
      i_prx_addr = cfg.ext_proxy_addr;
      i_prx_port = index;
      e_prx_addr = cfg.ext_proxy_addr;
      e_prx_port = index;
      e_src_addr = entry.sbc_addr;
      e_src_port = entry.sbc_port;
      e_dst_addr = entry.sbc_addr;
      e_dst_port = entry.sbc_port;
      loopback = 1;
      smoothing = cfg.smoothing;
    }
    else record {
      i_src_addr = entry.sender_addr;
      i_src_port = entry.sender_port;
      i_dst_addr = entry.receiver_addr;
      i_dst_port = entry.receiver_port;
      i_prx_addr = cfg.int_proxy_addr;
      i_prx_port = index;
      e_prx_addr = cfg.ext_proxy_addr;
      e_prx_port = index;
      e_src_addr = entry.sbc_addr;
      e_src_port = entry.sbc_port;
      e_dst_addr = entry.sbc_addr;
      e_dst_port = entry.sbc_port;
      loopback = 0;
      smoothing = cfg.smoothing;
    }

-- The external side of a route that leads back to the proxy is the internal side of the route
-- at the port `ind` that it leads to, if there is one.
unfoldable pub join_routing : ℕ → Config → Table → Routing → Routing
unfolding table_get init_routing
join_routing ind cfg table routing =
    let (ent, found) = table_get ind table in
    let tmp = init_routing ind cfg ent in
    if found
    then record routing {
      e_prx_addr = tmp.i_prx_addr;
      e_prx_port = tmp.i_prx_port;
      e_src_addr = tmp.i_src_addr;
      e_src_port = tmp.i_src_port;
      e_dst_addr = tmp.i_dst_addr;
      e_dst_port = tmp.i_dst_port;
    }
    else routing

-- The row, and the routing if the row is valid.
unfoldable pub get_routing : ℕ → Config → Table → TableEntry × Option Routing
unfolding table_get init_routing join_routing
get_routing index cfg table =
    let (entry, found) = table_get index table in
    let routing = init_routing index cfg entry in
    if found
    then (
      entry,
      some (
          if is_set cfg.loopback && entry.sbc_addr == cfg.ext_proxy_addr
          then join_routing entry.sbc_port cfg table routing
          else routing),
    )
    else (entry, none)
