-- ===== src/Debug/Builds.antt =====
-- The hook functions and the checksums as they are built with DEBUG and without, side by side (src/rewrite.c,
-- src/checksum.c, src/mangle.c).
use lbm_rtp_proxy.Base.{ℕ, Option, some, List, ◌≡◌, ◌>>=◌, arith}
use lbm_rtp_proxy.Checksum.{
  Warning, calculate_ip_checksum, calculate_pseudo_header_udp_checksum, calculate_udp_checksum_full,
  handle_outgoing_checksums,
}
use lbm_rtp_proxy.Debug.{BufferInfo, debug_print_skb}
use lbm_rtp_proxy.Debug.Hooks.{
  Print, DebugFn, match_routes_debug, rewrite_udp_packet_debug, handle_incoming_udp_packet_debug,
  handle_outgoing_udp_packet_debug, pre_route_udp_packet_debug, local_in_udp_packet_debug,
  local_out_udp_packet_debug, post_route_udp_packet_debug,
}
use lbm_rtp_proxy.Debug.Outgoing.{
  DebugResult, calculate_ip_checksum_debug, calculate_pseudo_header_udp_checksum_debug,
  calculate_udp_checksum_full_debug, print_outgoing, handle_outgoing_checksums_debug,
  conclude_debug,
}
use lbm_rtp_proxy.Kernel.{Kernel}
use lbm_rtp_proxy.Mangle.{HookResult, conclude}
use lbm_rtp_proxy.Net.ByteOrder.{ByteOrder}
use lbm_rtp_proxy.Packet.{IpHeader, UdpHeader, SkBuff, store_headers, Verdict}
use lbm_rtp_proxy.Rewrite.Hooks.{
  HookFn, Outcome, handle_incoming_udp_packet, handle_outgoing_udp_packet, pre_route_udp_packet,
  local_in_udp_packet, local_out_udp_packet, post_route_udp_packet,
}
use lbm_rtp_proxy.Rewrite.Matching.{match_routes}
use lbm_rtp_proxy.Table.{Table, TableEntry}
use lbm_rtp_proxy.Table.Routing.{Routing}

-- What a hook leaves, but for what it prints.
abbrev pub Left : Type 0
Left = Verdict × Option SkBuff × Table

abbrev pub left : Option HookResult → Option Left
left r = r >>= λ x. some (x.verdict, x.skb, x.table)

abbrev pub left_debug : Option DebugResult → Option Left
left_debug r = r >>= λ x. some (x.verdict, x.skb, x.table)

match_routes_debug_route :
    (ip : IpHeader) (udp : UdpHeader) (rt : Routing)
    → (match_routes_debug ip udp rt).0 ≡ match_routes ip udp rt
unfolding match_routes_debug match_routes
match_routes_debug_route ip udp rt = ground arith

module _ ⦃o : ByteOrder⦄ where
  -- A hook function does the same in both builds.
  abbrev pub Agrees : DebugFn → HookFn → Type 0
  Agrees fnd fn =
      (ip : IpHeader) (udp : UdpHeader) (body : List ℕ) (ent : TableEntry) (rt : Routing)
      (t : Table)
      → (fnd ip udp body ent rt t >>= λ r. some r.0) ≡ fn ip udp body ent rt t

  pub pre_route-Agrees : Agrees pre_route_udp_packet_debug pre_route_udp_packet
  unfolding pre_route_udp_packet_debug pre_route_udp_packet handle_incoming_udp_packet_debug
      handle_incoming_udp_packet rewrite_udp_packet_debug
  pre_route-Agrees ip udp body ent rt t = ground (arith, match_routes_debug_route ip udp rt)

  pub local_out-Agrees : Agrees local_out_udp_packet_debug local_out_udp_packet
  unfolding local_out_udp_packet_debug local_out_udp_packet handle_incoming_udp_packet_debug
      handle_incoming_udp_packet rewrite_udp_packet_debug
  local_out-Agrees ip udp body ent rt t = ground (arith, match_routes_debug_route ip udp rt)

  outgoing-Agrees : Agrees handle_outgoing_udp_packet_debug handle_outgoing_udp_packet
  unfolding handle_outgoing_udp_packet_debug handle_outgoing_udp_packet rewrite_udp_packet_debug
  outgoing-Agrees ip udp body ent rt t = ground (arith, match_routes_debug_route ip udp rt)

  pub local_in-Agrees : Agrees local_in_udp_packet_debug local_in_udp_packet
  unfolding local_in_udp_packet_debug local_in_udp_packet
  local_in-Agrees = outgoing-Agrees

  pub post_route-Agrees : Agrees post_route_udp_packet_debug post_route_udp_packet
  unfolding post_route_udp_packet_debug post_route_udp_packet
  post_route-Agrees = outgoing-Agrees

module _ ⦃o : ByteOrder⦄ ⦃k : Kernel⦄ where
  pub outgoing_debug :
      (skb : SkBuff) (info : BufferInfo) (ip : IpHeader) (udp : UdpHeader)
      → (handle_outgoing_checksums_debug skb info ip udp).0 ≡ handle_outgoing_checksums skb ip udp
  unfolding handle_outgoing_checksums_debug handle_outgoing_checksums debug_print_skb print_outgoing
      calculate_ip_checksum_debug calculate_ip_checksum calculate_pseudo_header_udp_checksum_debug
      calculate_pseudo_header_udp_checksum calculate_udp_checksum_full_debug
      calculate_udp_checksum_full
  outgoing_debug skb info ip udp = ground arith

  pub conclude_debug-left :
      (hook : ℕ) (skb : SkBuff) (info : BufferInfo) (printed : List Print) (warned : List Warning)
      (out : Outcome)
      → left_debug (some (conclude_debug hook skb info printed out))
        ≡ left (some (conclude hook skb warned out))
  unfolding conclude_debug conclude
  conclude_debug-left hook skb info printed warned out =
      let written = store_headers out.ip out.udp (record skb { body = out.body }) in
      ground (arith, outgoing_debug written info out.ip out.udp)
