-- ===== src/Rewrite/Matching/Laws.antt =====
-- Which route match_routes of src/rewrite.c chooses.
use lbm_rtp_proxy.Base.{ℕ, ◌≡◌, true, arith, ◌&&◌, ◌||◌, ◌==◌}
use lbm_rtp_proxy.Base.{if◌then◌else◌}
use lbm_rtp_proxy.Config.{Config}
use lbm_rtp_proxy.Packet.{IpHeader, UdpHeader}
use lbm_rtp_proxy.Table.{TableEntry, is_entry_valid}
use lbm_rtp_proxy.Table.Routing.{Routing}
use lbm_rtp_proxy.Table.Routing.Laws.{plain_routing}
use lbm_rtp_proxy.Rewrite.Matching.{
  Route, outgoing_route, incoming_route, ambiguous_route, no_route, match_routes,
}

-- The route by the source alone: the SBC's packets come in, the sender's go out, where a zero in the
-- sender's address or port leaves it open; the SBC goes before a sender that is left open, and a
-- sender that is the SBC cannot be told from it.
abbrev pub plain_route : TableEntry → ℕ → ℕ → Route
plain_route e addr port =
    if addr == e.sbc_addr && port == e.sbc_port
    then (if e.sender_addr == e.sbc_addr && e.sender_port == e.sbc_port
        then ambiguous_route
        else incoming_route)
    else (if (e.sender_addr == 0 || addr == e.sender_addr)
          && (e.sender_port == 0 || port == e.sender_port)
        then outgoing_route
        else no_route)

-- On the plain route of a valid entry the scores of the two matches choose as the source of the
-- packet says, for a packet to the proxy port: the SBC's packets come in, the sender's go out,
-- where a zero in the sender's address or port leaves it open; a sender that is the SBC is
-- ambiguous.
pub match_routes-plain :
    (index : ℕ) (cfg : Config) (e : TableEntry) (ip : IpHeader) (udp : UdpHeader)
    → is_entry_valid e ≡ true
    → udp.dest ≡ index
    → match_routes ip udp (plain_routing index cfg e) ≡ plain_route e ip.saddr udp.source
unfolding match_routes is_entry_valid
match_routes-plain index cfg e ip udp v d = ground arith

-- Two packets with the same source and the same destination port take the same route, whatever
-- their destination addresses are, so that the rewriting at the earlier hook does not change the
-- choice at the later one.
pub match_routes-daddr :
    (ip ip' : IpHeader) (udp udp' : UdpHeader) (rt : Routing)
    → ip.saddr ≡ ip'.saddr
    → udp.source ≡ udp'.source
    → udp.dest ≡ udp'.dest
    → match_routes ip udp rt ≡ match_routes ip' udp' rt
unfolding match_routes
match_routes-daddr ip ip' udp udp' rt a s d = simp (a, s, d)
