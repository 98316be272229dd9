-- ===== src/Rewrite/Matching.antt =====
-- The matching and rewriting of addresses and ports, and the choice of a route (src/rewrite.c).
pub mod Laws
use lbm_rtp_proxy.Base.{ℕ, ◌-◌, Bool, not, ◌&&◌, ◌||◌, ◌==◌, ltb, is_set, if◌then◌else◌}
use lbm_rtp_proxy.Packet.{IpHeader, UdpHeader}
use lbm_rtp_proxy.Table.Routing.{Routing}

-- 0 for no match, and more the fewer of the four are left open by a zero.
unfoldable pub match_udp_packet : IpHeader → UdpHeader → ℕ → ℕ → ℕ → ℕ → ℕ
match_udp_packet ip udp src_addr src_port dst_addr dst_port =
    if (not (is_set src_addr) || ip.saddr == src_addr)
      && (not (is_set src_port) || udp.source == src_port)
      && (not (is_set dst_addr) || ip.daddr == dst_addr)
      && (not (is_set dst_port) || udp.dest == dst_port)
    then (let m0 : ℕ = 5 in
        let m1 = if is_set src_addr then m0 else m0 - 1 in
        let m2 = if is_set src_port then m1 else m1 - 1 in
        let m3 = if is_set dst_addr then m2 else m2 - 1 in if is_set dst_port then m3 else m3 - 1)
    else 0

unfoldable pub rewrite_udp_packet : IpHeader → UdpHeader → ℕ → ℕ → ℕ → ℕ → IpHeader × UdpHeader
rewrite_udp_packet ip udp src_addr src_port dst_addr dst_port = (
  record ip {
    saddr = if is_set src_addr then src_addr else ip.saddr;
    daddr = if is_set dst_addr then dst_addr else ip.daddr;
  },
  record udp {
    source = if is_set src_port then src_port else udp.source;
    dest = if is_set dst_port then dst_port else udp.dest;
  },
)

pub data Route : Type 0 where
  loopback_route outgoing_route incoming_route ambiguous_route no_route : Route

unfoldable pub match_routes : IpHeader → UdpHeader → Routing → Route
unfolding match_udp_packet
match_routes ip udp rt =
    if is_set rt.loopback
    then loopback_route
    else (let outgoing = match_udp_packet ip udp rt.i_src_addr rt.i_src_port 0 rt.i_prx_port in
        let incoming = match_udp_packet ip udp rt.e_src_addr rt.e_src_port 0 rt.e_prx_port in
        if ltb 0 outgoing || ltb 0 incoming
        then (if ltb incoming outgoing
            then outgoing_route
            else (if ltb outgoing incoming then incoming_route else ambiguous_route))
        else no_route)
