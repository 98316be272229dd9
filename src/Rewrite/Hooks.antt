-- ===== src/Rewrite/Hooks.antt =====
-- The functions that the netfilter hooks call, and the table of hooks (src/rewrite.c). `none` is the
-- fault of `rewrite_rtp`, an access behind the packet's end.
pub mod Translation
pub mod Ranges
use Prim.Native.String.{String}
use lbm_rtp_proxy.Base.{ℕ, Option, none, some, List, [], ◌∷◌, is_set, if◌then◌else◌}
use lbm_rtp_proxy.Net.ByteOrder.{ByteOrder}
use lbm_rtp_proxy.Packet.{IpHeader, UdpHeader, Verdict, nf_accept, nf_drop}
use lbm_rtp_proxy.Table.{Table, TableEntry}
use lbm_rtp_proxy.Table.Routing.{Routing}
use lbm_rtp_proxy.Rewrite.Matching.{
  loopback_route, outgoing_route, incoming_route, ambiguous_route, no_route, match_routes,
  rewrite_udp_packet,
}
use lbm_rtp_proxy.Rewrite.Rtp.{rewrite_rtp}

-- What a hook function leaves: its verdict, the headers, the bytes behind them, and the table.
pub record Outcome : Type 0 where
  pub verdict : Verdict
  pub ip : IpHeader
  pub udp : UdpHeader
  pub body : List ℕ
  pub table : Table

-- `mangle_hook_fn`; the bytes behind the header and the table are what it reaches by pointers.
abbrev pub HookFn : Type 0
HookFn = IpHeader → UdpHeader → List ℕ → TableEntry → Routing → Table → Option Outcome

unfoldable pub handle_incoming_udp_packet :
    IpHeader → UdpHeader → Routing → Verdict × IpHeader × UdpHeader
unfolding rewrite_udp_packet
handle_incoming_udp_packet ip udp rt =
    let to_sbc = rewrite_udp_packet ip udp 0 0 rt.e_dst_addr 0 in
    let to_receiver = rewrite_udp_packet ip udp 0 0 rt.i_dst_addr 0 in
    elim (match_routes ip udp rt) [
      | loopback_route ↦ (nf_accept, to_sbc.0, to_sbc.1)
      | outgoing_route ↦ (nf_accept, to_sbc.0, to_sbc.1)
      | incoming_route ↦ (nf_accept, to_receiver.0, to_receiver.1)
      | ambiguous_route ↦ (nf_drop, ip, udp)
      | no_route ↦ (nf_drop, ip, udp)
    ]

-- The common end of an outgoing packet: the bytes and the table as `rewrite_rtp` left them.
abbrev pub accepted : IpHeader → UdpHeader → Option (List ℕ × Table) → Option Outcome
accepted ip udp none = none
accepted ip udp (some (body, table)) =
    some (record { verdict = nf_accept; ip = ip; udp = udp; body = body; table = table })

module _ ⦃o : ByteOrder⦄ where
  unfoldable pub handle_outgoing_udp_packet : HookFn
  unfolding rewrite_udp_packet
  handle_outgoing_udp_packet ip udp body ent rt table =
      let out = rewrite_udp_packet ip udp rt.e_prx_addr rt.e_prx_port 0 rt.e_dst_port in
      let back = rewrite_udp_packet ip udp rt.i_prx_addr rt.i_prx_port 0 rt.i_dst_port in
      let sent =
        if is_set rt.smoothing
        then rewrite_rtp out.1 body rt.e_prx_port table
        else some (body, table) in
      elim (match_routes ip udp rt) [
        | loopback_route ↦ accepted out.0 out.1 sent
        | outgoing_route ↦ accepted out.0 out.1 sent
        | incoming_route ↦ accepted back.0 back.1 (some (body, table))
        | _ ↦ some (record { verdict = nf_drop; ip = ip; udp = udp; body = body; table = table })
      ]

  unfoldable pub pre_route_udp_packet : HookFn
  unfolding handle_incoming_udp_packet
  pre_route_udp_packet ip udp body ent rt table =
      let (verdict, ip', udp') = handle_incoming_udp_packet ip udp rt in
      some (record { verdict = verdict; ip = ip'; udp = udp'; body = body; table = table })

  unfoldable pub local_in_udp_packet : HookFn
  unfolding handle_outgoing_udp_packet
  local_in_udp_packet = handle_outgoing_udp_packet

  unfoldable pub local_out_udp_packet : HookFn
  unfolding handle_incoming_udp_packet
  local_out_udp_packet ip udp body ent rt table =
      let (verdict, ip', udp') = handle_incoming_udp_packet ip udp rt in
      some (record { verdict = verdict; ip = ip'; udp = udp'; body = body; table = table })

  unfoldable pub post_route_udp_packet : HookFn
  unfolding handle_outgoing_udp_packet
  post_route_udp_packet = handle_outgoing_udp_packet

-- `NF_IP_PRE_ROUTING` and so on (src/module.h).
abbrev pub nf_ip_pre_routing : ℕ
nf_ip_pre_routing = 0

abbrev pub nf_ip_local_in : ℕ
nf_ip_local_in = 1

abbrev pub nf_ip_local_out : ℕ
nf_ip_local_out = 3

abbrev pub nf_ip_post_routing : ℕ
nf_ip_post_routing = 4

-- `NF_IP_PRI_FIRST` and `NF_IP_PRI_LAST`
pub data Priority : Type 0 where
  pri_first pri_last : Priority

-- `struct mangle_hook` (src/mangle.h); `none` is NULL.
pub record MangleHook : Type 0 where
  pub hooknum : ℕ
  pub name : Option String
  pub fn : Option HookFn
  pub priority : Priority

module _ ⦃o : ByteOrder⦄ where
  -- The rows of the table `mangle_hook`, which `get_mangle_hooks` hands out.
  unfoldable pub pre_routing_hook : MangleHook
  pre_routing_hook = record {
    hooknum = nf_ip_pre_routing;
    name = some "PRE_ROUTING ";
    fn = some pre_route_udp_packet;
    priority = pri_first;
  }

  unfoldable pub local_in_hook : MangleHook
  local_in_hook = record {
    hooknum = nf_ip_local_in;
    name = some "LOCAL_IN    ";
    fn = some local_in_udp_packet;
    priority = pri_last;
  }

  unfoldable pub local_out_hook : MangleHook
  local_out_hook = record {
    hooknum = nf_ip_local_out;
    name = some "LOCAL_OUT   ";
    fn = some local_out_udp_packet;
    priority = pri_first;
  }

  unfoldable pub post_routing_hook : MangleHook
  post_routing_hook = record {
    hooknum = nf_ip_post_routing;
    name = some "POST_ROUTING";
    fn = some post_route_udp_packet;
    priority = pri_last;
  }

  unfoldable pub get_mangle_hooks : List MangleHook
  unfolding pre_routing_hook local_in_hook local_out_hook post_routing_hook
  get_mangle_hooks = pre_routing_hook ∷ local_in_hook ∷ local_out_hook ∷ post_routing_hook ∷ []
