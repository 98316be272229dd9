-- ===== src/Table/Routing/Ranges.antt =====
-- The ranges of the addresses and ports of a route (get_routing of src/table.c).
use lbm_rtp_proxy.Base.{ℕ, ◌^◌, ◌<◌, some, ◌≡◌, arith}
use lbm_rtp_proxy.Config.{Config, IsConfig}
use lbm_rtp_proxy.Table.{Table, TableEntry, IsEntry}
use lbm_rtp_proxy.Table.Laws.{IsTable}
use lbm_rtp_proxy.Table.Routing.{Routing, init_routing, join_routing, get_routing}

-- A route in range.
pub record IsRouting (rt : Routing) : Type 0 where
  pub i_src_addr-lt : rt.i_src_addr < 2 ^ 32
  pub i_src_port-lt : rt.i_src_port < 2 ^ 16
  pub i_dst_addr-lt : rt.i_dst_addr < 2 ^ 32
  pub i_dst_port-lt : rt.i_dst_port < 2 ^ 16
  pub i_prx_addr-lt : rt.i_prx_addr < 2 ^ 32
  pub i_prx_port-lt : rt.i_prx_port < 2 ^ 16
  pub e_prx_addr-lt : rt.e_prx_addr < 2 ^ 32
  pub e_prx_port-lt : rt.e_prx_port < 2 ^ 16
  pub e_src_addr-lt : rt.e_src_addr < 2 ^ 32
  pub e_src_port-lt : rt.e_src_port < 2 ^ 16
  pub e_dst_addr-lt : rt.e_dst_addr < 2 ^ 32
  pub e_dst_port-lt : rt.e_dst_port < 2 ^ 16

module _ (cfg : Config) (w : IsConfig cfg) where
  pub init_routing-IsRouting :
      (index : ℕ) (e : TableEntry)
      → index < 2 ^ 16
      → IsEntry e
      → IsRouting (init_routing index cfg e)
  unfolding init_routing
  init_routing-IsRouting index e lt h = ground arith

  pub join_routing-IsRouting :
      (ind : ℕ) (t : Table) (rt : Routing)
      → ind < 2 ^ 16
      → IsTable t
      → IsRouting rt
      → IsRouting (join_routing ind cfg t rt)
  unfolding join_routing
  join_routing-IsRouting ind t rt lt h r =
      let other = init_routing-IsRouting ind (t ind) lt (h.rows ind lt) in ground arith

  -- The route of a port is in range, where the configuration and the table are.
  pub get_routing-IsRouting :
      (index : ℕ) (t : Table) (rt : Routing)
      → index < 2 ^ 16
      → IsTable t
      → (get_routing index cfg t).1 ≡ some rt
      → IsRouting rt
  unfolding get_routing
  get_routing-IsRouting index t rt lt h e =
      let own = init_routing-IsRouting index (t index) lt (h.rows index lt) in
      let joined =
        join_routing-IsRouting (t index).sbc_port t _ (h.rows index lt).sbc_port-lt h own in
      grind arith
