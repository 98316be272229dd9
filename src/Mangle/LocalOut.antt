-- ===== src/Mangle/LocalOut.antt =====
-- The packets that the machine itself sends: the hook function at LOCAL_OUT (src/mangle.c,
-- src/rewrite.c).
use lbm_rtp_proxy.Base.{ℕ, true, Option, none, some, ◌≡◌, refl, ◌∙◌, ap, inl, inr, arith}
use lbm_rtp_proxy.Checksum.{handle_incoming_checksums}
use lbm_rtp_proxy.Checksum.Laws.{handle_incoming_checksums-body}
use lbm_rtp_proxy.Config.{Config}
use lbm_rtp_proxy.Kernel.{Kernel, skb_linearize, ip_route_me_harder}
use lbm_rtp_proxy.Mangle.{HookResult, generic_hook_func, receive, conclude}
use lbm_rtp_proxy.Mangle.Calls.{valid_ends}
use lbm_rtp_proxy.Mangle.Forward.{entered_skb, readdressed}
use lbm_rtp_proxy.Mangle.Laws.{IsUdp, generic_hook_func-mangle, mangle-run}
use lbm_rtp_proxy.Net.ByteOrder.{ByteOrder}
use lbm_rtp_proxy.Packet.{IpHeader, UdpHeader, SkBuff, Verdict, nf_accept, nf_drop, nf_drop_err}
use lbm_rtp_proxy.Rewrite.Hooks.{
  local_out_hook, local_out_udp_packet, pre_route_udp_packet, nf_ip_local_out,
}
use lbm_rtp_proxy.Rewrite.Hooks.Translation.{pre_route-out, pre_route-in, pre_route-drop}
use lbm_rtp_proxy.Rewrite.Matching.{
  Route, loopback_route, outgoing_route, incoming_route, ambiguous_route, no_route, match_routes,
}
use lbm_rtp_proxy.Rewrite.Matching.Laws.{plain_route, match_routes-plain}
use lbm_rtp_proxy.Table.{Table, TableEntry, is_entry_valid}
use lbm_rtp_proxy.Table.Routing.{Routing}
use lbm_rtp_proxy.Table.Routing.Laws.{plain_routing, IsPlain, get_routing-plain}

module _ ⦃o : ByteOrder⦄ ⦃k : Kernel⦄ (skb : SkBuff) (ip : IpHeader) (udp : UdpHeader)
    (cfg : Config) (t : Table) where
  -- The verdict on a buffer that `ip_route_me_harder` has looked for a route for.
  abbrev pub rerouted : SkBuff × Option ℕ → HookResult
  rerouted (s, none) = record {
    verdict = nf_accept;
    skb = some s;
    table = t;
    printed = (handle_incoming_checksums skb ip udp).1;
  }
  rerouted (s, some err) = record {
    verdict = nf_drop_err err;
    skb = some s;
    table = t;
    printed = (handle_incoming_checksums skb ip udp).1;
  }

  -- What LOCAL_OUT leaves of a packet to the proxy port of a row, by its route.
  abbrev pub locally_sent : TableEntry → Routing → Route → HookResult
  locally_sent e rt outgoing_route =
      rerouted
        (ip_route_me_harder (entered_skb skb ip udp cfg t e rt (record ip { daddr = e.sbc_addr })))
  locally_sent e rt incoming_route = rerouted (
      ip_route_me_harder
        (entered_skb skb ip udp cfg t e rt (record ip { daddr = e.receiver_addr })))
  locally_sent e rt _ = record {
    verdict = nf_drop;
    skb = some (entered_skb skb ip udp cfg t e rt ip);
    table = t;
    printed = (handle_incoming_checksums skb ip udp).1;
  }

  module _ (linear : skb_linearize skb ≡ true) (u : IsUdp skb ip udp)
      (valid : is_entry_valid (t udp.dest) ≡ true) (plain : IsPlain udp.dest cfg (t udp.dest)) where
    abbrev rt : Routing
    rt = plain_routing udp.dest cfg (t udp.dest)

    matched : match_routes ip udp rt ≡ plain_route (t udp.dest) ip.saddr udp.source
    matched = match_routes-plain udp.dest cfg (t udp.dest) ip udp valid refl

    local_out-step :
        (verdict : Verdict) (ip' : IpHeader)
        → pre_route_udp_packet ip udp skb.body (t udp.dest) rt t
          ≡ some (readdressed skb ip udp cfg t (t udp.dest) rt verdict ip')
        → generic_hook_func (some local_out_hook) (some skb) nf_ip_local_out cfg t
          ≡ some (
              conclude nf_ip_local_out
                (handle_incoming_checksums skb ip udp).0
                (handle_incoming_checksums skb ip udp).1
                (readdressed skb ip udp cfg t (t udp.dest) rt verdict ip'))
    unfolding receive local_out_hook local_out_udp_packet pre_route_udp_packet
    local_out-step verdict ip' step =
        generic_hook_func-mangle local_out_hook local_out_udp_packet skb ip udp nf_ip_local_out cfg
          t (λ e. cc) refl linear u
        ∙ mangle-run local_out_udp_packet skb ip udp nf_ip_local_out cfg t (t udp.dest) rt
            (readdressed skb ip udp cfg t (t udp.dest) rt verdict ip')
            (get_routing-plain udp.dest cfg t valid plain)
            (rw (handle_incoming_checksums-body skb ip udp) step)

    rerouted-conclude :
        (ip' : IpHeader)
        → conclude nf_ip_local_out
            (handle_incoming_checksums skb ip udp).0
            (handle_incoming_checksums skb ip udp).1
            (readdressed skb ip udp cfg t (t udp.dest) rt nf_accept ip')
          ≡ rerouted (ip_route_me_harder (entered_skb skb ip udp cfg t (t udp.dest) rt ip'))
    unfolding conclude
    rerouted-conclude ip' = ground arith

    local_out_by :
        (r : Route)
        → plain_route (t udp.dest) ip.saddr udp.source ≡ r
        → generic_hook_func (some local_out_hook) (some skb) nf_ip_local_out cfg t
          ≡ some (locally_sent (t udp.dest) rt r)
    unfolding conclude
    local_out_by outgoing_route e =
        let ends = valid_ends (t udp.dest) valid in
        local_out-step nf_accept _
          (pre_route-out ip udp skb.body (t udp.dest) rt t (inl (matched ∙ e)) ends.2)
        ∙ ap some (rerouted-conclude (record ip { daddr = (t udp.dest).sbc_addr }))
    local_out_by incoming_route e =
        let ends = valid_ends (t udp.dest) valid in
        local_out-step nf_accept _
          (pre_route-in ip udp skb.body (t udp.dest) rt t (matched ∙ e) ends.0)
        ∙ ap some (rerouted-conclude (record ip { daddr = (t udp.dest).receiver_addr }))
    local_out_by ambiguous_route e =
        local_out-step nf_drop ip
          (pre_route-drop ip udp skb.body (t udp.dest) rt t (inl (matched ∙ e)))
    local_out_by no_route e =
        local_out-step nf_drop ip
          (pre_route-drop ip udp skb.body (t udp.dest) rt t (inr (matched ∙ e)))
    local_out_by loopback_route e = absurd (ground arith)

    -- A UDP packet that the machine sends to the proxy port of a valid and plain row, in a buffer
    -- that can be made one piece, is given the address of the SBC or of the receiver as the route by
    -- its source says, and the kernel is asked for a route to it: with one it is accepted, without
    -- one it is dropped with the kernel's error. On the other routes it is dropped as it came. The
    -- table stays, and only arriving checksums that do not verify are printed.
    pub local_out-plain :
        generic_hook_func (some local_out_hook) (some skb) nf_ip_local_out cfg t
        ≡ some (locally_sent (t udp.dest) rt (plain_route (t udp.dest) ip.saddr udp.source))
    local_out-plain = local_out_by (plain_route (t udp.dest) ip.saddr udp.source) refl
