-- ===== src/Debug/Hooks.antt =====
-- The hook functions of src/rewrite.c in a DEBUG build: what they do and what they print. `none` is
-- the fault of `rewrite_rtp`.
use Prim.Native.String.{String}
use lbm_rtp_proxy.Base.{
  ℕ, ◌||◌, Option, none, some, List, [], ◌∷◌, ◌++◌, ltb, is_set, if◌then◌else◌,
}
use lbm_rtp_proxy.Debug.{Line, debug_print_tuple}
use lbm_rtp_proxy.Debug.Incoming.{Alert}
use lbm_rtp_proxy.Net.ByteOrder.{ByteOrder}
use lbm_rtp_proxy.Packet.{IpHeader, UdpHeader, Verdict, nf_accept, nf_drop}
use lbm_rtp_proxy.Rewrite.Hooks.{
  Outcome, Priority, pri_first, pri_last, nf_ip_pre_routing, nf_ip_local_in, nf_ip_local_out,
  nf_ip_post_routing,
}
use lbm_rtp_proxy.Rewrite.Matching.{
  Route, loopback_route, outgoing_route, incoming_route, ambiguous_route, no_route,
  match_udp_packet,
}
use lbm_rtp_proxy.Rewrite.Rtp.{rewrite_rtp}
use lbm_rtp_proxy.Table.{Table, TableEntry}
use lbm_rtp_proxy.Table.Routing.{Routing}

-- What is printed: the lines of src/debug.c, those about failed checks, a text alone, and a checksum
-- before and after it is computed.
pub data Print : Type 0 where
  line : Line → Print
  alert : Alert → Print
  text : String → Print
  csum_line : String → (before after : ℕ) → Print

-- `mangle_hook_fn`, with what is printed.
abbrev pub DebugFn : Type 0
DebugFn =
    IpHeader → UdpHeader → List ℕ → TableEntry → Routing → Table → Option (Outcome × List Print)

unfoldable pub match_routes_debug : IpHeader → UdpHeader → Routing → Route × List Print
unfolding match_udp_packet
match_routes_debug ip udp rt =
    if is_set rt.loopback
    then (loopback_route, text "LOOPBACK_ROUTE" ∷ [])
    else (let outgoing = match_udp_packet ip udp rt.i_src_addr rt.i_src_port 0 rt.i_prx_port in
        let incoming = match_udp_packet ip udp rt.e_src_addr rt.e_src_port 0 rt.e_prx_port in
        if ltb 0 outgoing || ltb 0 incoming
        then (if ltb incoming outgoing
            then (outgoing_route, text "OUTGOING_ROUTE" ∷ [])
            else (if ltb outgoing incoming
                then (incoming_route, text "INCOMING_ROUTE" ∷ [])
                else (ambiguous_route, text "AMBIGIUOS_ROUTE" ∷ [])))
        else (no_route, text "NO_ROUTE" ∷ []))

module _ ⦃o : ByteOrder⦄ where
  unfoldable pub rewrite_udp_packet_debug :
      IpHeader → UdpHeader → ℕ → ℕ → ℕ → ℕ → IpHeader × UdpHeader × List Print
  unfolding debug_print_tuple
  rewrite_udp_packet_debug ip udp src_addr src_port dst_addr dst_port =
      let before = debug_print_tuple " BEFORE REWRITE :" ip.saddr udp.source ip.daddr udp.dest in
      let saddr = if is_set src_addr then src_addr else ip.saddr in
      let source = if is_set src_port then src_port else udp.source in
      let daddr = if is_set dst_addr then dst_addr else ip.daddr in
      let dest = if is_set dst_port then dst_port else udp.dest in
      let after = debug_print_tuple " AFTER REWRITE  :" saddr source daddr dest in
      (
        record ip { saddr = saddr; daddr = daddr },
        record udp { source = source; dest = dest },
        line before ∷ line after ∷ [],
      )

  unfoldable pub handle_incoming_udp_packet_debug :
      IpHeader → UdpHeader → Routing → Verdict × IpHeader × UdpHeader × List Print
  unfolding match_routes_debug rewrite_udp_packet_debug
  handle_incoming_udp_packet_debug ip udp rt =
      let (ip_sbc, udp_sbc, to_sbc) = rewrite_udp_packet_debug ip udp 0 0 rt.e_dst_addr 0 in
      let (ip_rcv, udp_rcv, to_rcv) = rewrite_udp_packet_debug ip udp 0 0 rt.i_dst_addr 0 in
      let (route, named) = match_routes_debug ip udp rt in
      elim route [
        | loopback_route ↦ (nf_accept, ip_sbc, udp_sbc, named ++ to_sbc)
        | outgoing_route ↦ (nf_accept, ip_sbc, udp_sbc, named ++ to_sbc)
        | incoming_route ↦ (nf_accept, ip_rcv, udp_rcv, named ++ to_rcv)
        | ambiguous_route ↦ (nf_drop, ip, udp, named)
        | no_route ↦ (nf_drop, ip, udp, named)
      ]

  abbrev pub accepted_debug :
      IpHeader → UdpHeader → List Print → Option (List ℕ × Table) → Option (Outcome × List Print)
  accepted_debug ip udp printed none = none
  accepted_debug ip udp printed (some (body, table)) =
      some (record { verdict = nf_accept; ip = ip; udp = udp; body = body; table = table }, printed)

  unfoldable pub handle_outgoing_udp_packet_debug : DebugFn
  unfolding match_routes_debug rewrite_udp_packet_debug
  handle_outgoing_udp_packet_debug ip udp body ent rt table =
      let (ip_out, udp_out, out) =
        rewrite_udp_packet_debug ip udp rt.e_prx_addr rt.e_prx_port 0 rt.e_dst_port in
      let (ip_back, udp_back, back) =
        rewrite_udp_packet_debug ip udp rt.i_prx_addr rt.i_prx_port 0 rt.i_dst_port in
      let sent =
        if is_set rt.smoothing
        then rewrite_rtp udp_out body rt.e_prx_port table
        else some (body, table) in
      let (route, named) = match_routes_debug ip udp rt in
      elim route [
        | loopback_route ↦ accepted_debug ip_out udp_out (named ++ out) sent
        | outgoing_route ↦ accepted_debug ip_out udp_out (named ++ out) sent
        | incoming_route ↦ accepted_debug ip_back udp_back (named ++ back) (some (body, table))
        | _ ↦
            some
              (record { verdict = nf_drop; ip = ip; udp = udp; body = body; table = table }, named)
      ]

  unfoldable pub pre_route_udp_packet_debug : DebugFn
  unfolding handle_incoming_udp_packet_debug
  pre_route_udp_packet_debug ip udp body ent rt table =
      let (verdict, ip', udp', printed) = handle_incoming_udp_packet_debug ip udp rt in
      some (record { verdict = verdict; ip = ip'; udp = udp'; body = body; table = table }, printed)

  unfoldable pub local_in_udp_packet_debug : DebugFn
  unfolding handle_outgoing_udp_packet_debug
  local_in_udp_packet_debug = handle_outgoing_udp_packet_debug

  unfoldable pub local_out_udp_packet_debug : DebugFn
  unfolding handle_incoming_udp_packet_debug
  local_out_udp_packet_debug ip udp body ent rt table =
      let (verdict, ip', udp', printed) = handle_incoming_udp_packet_debug ip udp rt in
      some (record { verdict = verdict; ip = ip'; udp = udp'; body = body; table = table }, printed)

  unfoldable pub post_route_udp_packet_debug : DebugFn
  unfolding handle_outgoing_udp_packet_debug
  post_route_udp_packet_debug = handle_outgoing_udp_packet_debug

-- `struct mangle_hook` (src/mangle.h); `none` is NULL.
pub record DebugHook : Type 0 where
  pub hooknum : ℕ
  pub name : Option String
  pub fn : Option DebugFn
  pub priority : Priority

module _ ⦃o : ByteOrder⦄ where
  -- The table `mangle_hook`.
  unfoldable pub get_mangle_hooks_debug : List DebugHook
  get_mangle_hooks_debug =
      record {
        hooknum = nf_ip_pre_routing;
        name = some "PRE_ROUTING ";
        fn = some pre_route_udp_packet_debug;
        priority = pri_first;
      }
      ∷ record {
        hooknum = nf_ip_local_in;
        name = some "LOCAL_IN    ";
        fn = some local_in_udp_packet_debug;
        priority = pri_last;
      }
      ∷ record {
        hooknum = nf_ip_local_out;
        name = some "LOCAL_OUT   ";
        fn = some local_out_udp_packet_debug;
        priority = pri_first;
      }
      ∷ record {
        hooknum = nf_ip_post_routing;
        name = some "POST_ROUTING";
        fn = some post_route_udp_packet_debug;
        priority = pri_last;
      }
      ∷ []
