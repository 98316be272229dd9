-- ===== src/Startup/Laws.antt =====
-- What rtp_proxy_init and rtp_proxy_exit of src/module.c leave.
use lbm_rtp_proxy.Base.{ℕ, ◌<◌, Bool, some, ◌≡◌, arith}
use lbm_rtp_proxy.Config.{config_init}
use lbm_rtp_proxy.Kernel.{Kernel}
use lbm_rtp_proxy.Mangle.{untouched, generic_hook_func}
use lbm_rtp_proxy.Mangle.Laws.{generic_hook_func-unrouted}
use lbm_rtp_proxy.Net.ByteOrder.{ByteOrder}
use lbm_rtp_proxy.Packet.{SkBuff, UdpHeader}
use lbm_rtp_proxy.Rewrite.Hooks.{MangleHook}
use lbm_rtp_proxy.Table.{Table, table_init, table_size, empty_entry}
use lbm_rtp_proxy.Table.Laws.{table_clr_row}
use lbm_rtp_proxy.Table.Routing.Laws.{get_routing-empty}
use lbm_rtp_proxy.Startup.{ModuleState, rtp_proxy_init}

table_init_row : (index : ℕ) (t : Table) → index < table_size → table_init t index ≡ empty_entry
unfolding table_init
table_init_row index t h = table_clr_row index t h

module _ ⦃o : ByteOrder⦄ ⦃k : Kernel⦄ where
  pub init-globals :
      (nf_max_hooks : ℕ) (success : Bool) (st : ModuleState)
      → (rtp_proxy_init nf_max_hooks success st).globals
        ≡ record { config = config_init st.globals.config; table = table_init st.globals.table }
  unfolding rtp_proxy_init
  init-globals nf_max_hooks success st = ground arith

  -- A freshly loaded module passes every packet with a UDP header as it came, at every hook,
  -- whatever the memory held before.
  pub rtp_proxy_init-passes :
      (nf_max_hooks : ℕ) (success : Bool) (st : ModuleState) (mh : MangleHook) (skb : SkBuff)
      (udp : UdpHeader) (hook : ℕ)
      → skb.udp ≡ some udp
      → udp.dest < table_size
      → let g = (rtp_proxy_init nf_max_hooks success st).globals in
        generic_hook_func (some mh) (some skb) hook g.config g.table
        ≡ some (untouched (some skb) g.table)
  rtp_proxy_init-passes nf_max_hooks success st mh skb udp hook h lt =
      rw (init-globals nf_max_hooks success st) (
        generic_hook_func-unrouted mh skb udp hook _ _ h (
          get_routing-empty udp.dest _ (table_init st.globals.table)
            (table_init_row udp.dest st.globals.table lt)))
