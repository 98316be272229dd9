-- ===== src/Rewrite/Hooks/Translation.antt =====
-- The translation that each hook function of src/rewrite.c makes, by the route of the packet.
use lbm_rtp_proxy.Base.{
  ℕ, length, ◌+◌, ◌≤◌, Option, some, none, List, is_set, if◌then◌else◌, ◌≡◌, ◌≢◌, ◌⊎◌, arith,
}
use lbm_rtp_proxy.Net.ByteOrder.{ByteOrder, ntohs}
use lbm_rtp_proxy.Packet.{IpHeader, UdpHeader, nf_accept, nf_drop}
use lbm_rtp_proxy.Table.{Table, TableEntry}
use lbm_rtp_proxy.Table.Routing.{Routing}
use lbm_rtp_proxy.Rewrite.Matching.{
  loopback_route, outgoing_route, incoming_route, ambiguous_route, no_route, match_routes,
}
use lbm_rtp_proxy.Rewrite.Rtp.{rewrite_rtp}
use lbm_rtp_proxy.Rewrite.Rtp.Laws.{rewrite_rtp-ne-none}
use lbm_rtp_proxy.Rewrite.Hooks.{accepted, pre_route_udp_packet, post_route_udp_packet}

abbrev pub GoesOut : IpHeader → UdpHeader → Routing → Type 0
GoesOut ip udp rt =
    (match_routes ip udp rt ≡ outgoing_route) ⊎ (match_routes ip udp rt ≡ loopback_route)

abbrev pub IsDropped : IpHeader → UdpHeader → Routing → Type 0
IsDropped ip udp rt =
    (match_routes ip udp rt ≡ ambiguous_route) ⊎ (match_routes ip udp rt ≡ no_route)

module _ ⦃o : ByteOrder⦄ (rt : Routing) (body : List ℕ) (t : Table) (udp : UdpHeader) where
  -- The bytes and the table after the smoothing, if that is on.
  abbrev pub smoothed : Option (List ℕ × Table)
  smoothed = if is_set rt.smoothing then rewrite_rtp udp body rt.e_prx_port t else some (body, t)

  pub smoothed-ne-none : ntohs udp.len ≤ 8 + length body → smoothed ≢ none
  smoothed-ne-none fits = ground (arith, rewrite_rtp-ne-none udp body rt.e_prx_port t)

module _ ⦃o : ByteOrder⦄ (ip : IpHeader) (udp : UdpHeader) (body : List ℕ) (ent : TableEntry)
    (rt : Routing) (t : Table) where
  pub pre_route-out :
      GoesOut ip udp rt
      → rt.e_dst_addr ≢ 0
      → pre_route_udp_packet ip udp body ent rt t
        ≡ some (record {
          verdict = nf_accept;
          ip = record ip { daddr = rt.e_dst_addr };
          udp = udp;
          body = body;
          table = t;
        })
  unfolding pre_route_udp_packet
  pre_route-out r d = ground arith

  pub pre_route-in :
      match_routes ip udp rt ≡ incoming_route
      → rt.i_dst_addr ≢ 0
      → pre_route_udp_packet ip udp body ent rt t
        ≡ some (record {
          verdict = nf_accept;
          ip = record ip { daddr = rt.i_dst_addr };
          udp = udp;
          body = body;
          table = t;
        })
  unfolding pre_route_udp_packet
  pre_route-in r d = ground arith

  pub pre_route-drop :
      IsDropped ip udp rt
      → pre_route_udp_packet ip udp body ent rt t
        ≡ some (record { verdict = nf_drop; ip = ip; udp = udp; body = body; table = t })
  unfolding pre_route_udp_packet
  pre_route-drop r = ground arith

  pub post_route-out :
      GoesOut ip udp rt
      → rt.e_prx_addr ≢ 0
      → rt.e_prx_port ≢ 0
      → rt.e_dst_port ≢ 0
      → let u = record udp { source = rt.e_prx_port; dest = rt.e_dst_port } in
        post_route_udp_packet ip udp body ent rt t
        ≡ accepted (record ip { saddr = rt.e_prx_addr }) u (smoothed rt body t u)
  unfolding post_route_udp_packet
  post_route-out r a p d = ground arith

  pub post_route-in :
      match_routes ip udp rt ≡ incoming_route
      → rt.i_prx_addr ≢ 0
      → rt.i_prx_port ≢ 0
      → rt.i_dst_port ≢ 0
      → post_route_udp_packet ip udp body ent rt t
        ≡ some (record {
          verdict = nf_accept;
          ip = record ip { saddr = rt.i_prx_addr };
          udp = record udp { source = rt.i_prx_port; dest = rt.i_dst_port };
          body = body;
          table = t;
        })
  unfolding post_route_udp_packet
  post_route-in r a p d = ground arith

  pub post_route-drop :
      IsDropped ip udp rt
      → post_route_udp_packet ip udp body ent rt t
        ≡ some (record { verdict = nf_drop; ip = ip; udp = udp; body = body; table = t })
  unfolding post_route_udp_packet
  post_route-drop r = ground arith
