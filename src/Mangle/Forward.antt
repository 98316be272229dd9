-- ===== src/Mangle/Forward.antt =====
-- The way of a forwarded packet: PRE_ROUTING, then POST_ROUTING with what that left. Between the
-- two the kernel routes the packet by its new destination and leaves the headers alone that decide
-- the route; the configuration and the table stay.
use lbm_rtp_proxy.Base.{
  ℕ, length, ◌+◌, ◌≤◌, true, Option, some, List, ◌≡◌, ◌≢◌, refl, ◌∙◌, ap, ◌>>=◌, Option-cases, inl,
  inr,
}
use lbm_rtp_proxy.Checksum.{handle_incoming_checksums}
use lbm_rtp_proxy.Checksum.Laws.{handle_incoming_checksums-body, handle_outgoing_checksums-flow}
use lbm_rtp_proxy.Config.{Config}
use lbm_rtp_proxy.Kernel.{Kernel, skb_linearize}
use lbm_rtp_proxy.Mangle.{HookResult, generic_hook_func, receive, conclude}
use lbm_rtp_proxy.Mangle.Laws.{IsUdp, generic_hook_func-mangle, mangle-run}
use lbm_rtp_proxy.Net.ByteOrder.{ByteOrder, ntohs}
use lbm_rtp_proxy.Packet.{
  IpHeader, UdpHeader, SkBuff, store_headers, Flow, flow, flow_of, Verdict, nf_accept, nf_drop,
  nf_drop_err,
}
use lbm_rtp_proxy.Rewrite.Hooks.{
  Outcome, accepted, pre_routing_hook, post_routing_hook, pre_route_udp_packet,
  post_route_udp_packet, nf_ip_pre_routing, nf_ip_post_routing,
}
use lbm_rtp_proxy.Rewrite.Hooks.Translation.{
  GoesOut, IsDropped, smoothed, smoothed-ne-none, pre_route-out, pre_route-in, pre_route-drop,
  post_route-out, post_route-in,
}
use lbm_rtp_proxy.Rewrite.Matching.{match_routes, incoming_route}
use lbm_rtp_proxy.Rewrite.Matching.Laws.{match_routes-daddr}
use lbm_rtp_proxy.Table.{Table, TableEntry}
use lbm_rtp_proxy.Table.Routing.{Routing, get_routing}

-- The verdict and where the packet goes.
abbrev pub observed : Option HookResult → Option (Verdict × Option Flow)
observed result = result >>= λ r. some (r.verdict, flow r.skb)

module _ ⦃o : ByteOrder⦄ ⦃k : Kernel⦄ where
  unfoldable pub forward : SkBuff → Config → Table → Option HookResult
  forward skb cfg t =
      let first = generic_hook_func (some pre_routing_hook) (some skb) nf_ip_pre_routing cfg t in
      first >>= λ r. elim r.verdict [
        | nf_accept ↦
            generic_hook_func (some post_routing_hook) r.skb nf_ip_post_routing cfg r.table
        | nf_drop ↦ some r
        | nf_drop_err err ↦ some r
      ]

  module _ (skb : SkBuff) (ip : IpHeader) (udp : UdpHeader) (cfg : Config) (t : Table)
      (ent : TableEntry) (rt : Routing) where
    -- What PRE_ROUTING leaves of a packet that it accepts with a new IP header.
    abbrev pub entered_skb : IpHeader → SkBuff
    entered_skb ip' =
        store_headers ip' udp (record (handle_incoming_checksums skb ip udp).0 { body = skb.body })

    -- What a PRE_ROUTING function leaves: a verdict, and an IP header.
    abbrev pub readdressed : Verdict → IpHeader → Outcome
    readdressed verdict ip' = record {
      verdict = verdict;
      ip = ip';
      udp = udp;
      body = skb.body;
      table = t;
    }

    pub pre_routing-accepts :
        (ip' : IpHeader)
        → skb_linearize skb ≡ true
        → IsUdp skb ip udp
        → get_routing udp.dest cfg t ≡ (ent, some rt)
        → pre_route_udp_packet ip udp skb.body ent rt t ≡ some (readdressed nf_accept ip')
        → generic_hook_func (some pre_routing_hook) (some skb) nf_ip_pre_routing cfg t
          ≡ some (record {
            verdict = nf_accept;
            skb = some (entered_skb ip');
            table = t;
            printed = (handle_incoming_checksums skb ip udp).1;
          })
    unfolding conclude receive pre_routing_hook
    pre_routing-accepts ip' linear u found step =
        generic_hook_func-mangle pre_routing_hook pre_route_udp_packet skb ip udp nf_ip_pre_routing
          cfg t (λ e. cc) refl linear u
        ∙ mangle-run pre_route_udp_packet skb ip udp nf_ip_pre_routing cfg t ent rt
            (readdressed nf_accept ip') found (rw (handle_incoming_checksums-body skb ip udp) step)

    pre_routing-drops :
        skb_linearize skb ≡ true
        → IsUdp skb ip udp
        → get_routing udp.dest cfg t ≡ (ent, some rt)
        → pre_route_udp_packet ip udp skb.body ent rt t ≡ some (readdressed nf_drop ip)
        → generic_hook_func (some pre_routing_hook) (some skb) nf_ip_pre_routing cfg t
          ≡ some (record {
            verdict = nf_drop;
            skb = some (entered_skb ip);
            table = t;
            printed = (handle_incoming_checksums skb ip udp).1;
          })
    unfolding conclude receive pre_routing_hook
    pre_routing-drops linear u found step =
        generic_hook_func-mangle pre_routing_hook pre_route_udp_packet skb ip udp nf_ip_pre_routing
          cfg t (λ e. cc) refl linear u
        ∙ mangle-run pre_route_udp_packet skb ip udp nf_ip_pre_routing cfg t ent rt
            (readdressed nf_drop ip) found (rw (handle_incoming_checksums-body skb ip udp) step)

    post_routing-accepts :
        (ip' : IpHeader) (udp' : UdpHeader) (body' : List ℕ) (t' : Table)
        → skb_linearize skb ≡ true
        → IsUdp skb ip udp
        → get_routing udp.dest cfg t ≡ (ent, some rt)
        → post_route_udp_packet ip udp skb.body ent rt t
          ≡ some (record { verdict = nf_accept; ip = ip'; udp = udp'; body = body'; table = t' })
        → observed (generic_hook_func (some post_routing_hook) (some skb) nf_ip_post_routing cfg t)
          ≡ some (nf_accept, some (flow_of ip' udp'))
    unfolding conclude receive post_routing_hook
    post_routing-accepts ip' udp' body' t' linear u found step =
        ap observed (
          generic_hook_func-mangle post_routing_hook post_route_udp_packet skb ip udp
            nf_ip_post_routing cfg t (λ e. cc) refl linear u
          ∙ mangle-run post_route_udp_packet skb ip udp nf_ip_post_routing cfg t ent rt _ found
              step)
        ∙ (rw (
            handle_outgoing_checksums-flow (store_headers ip' udp' (record skb { body = body' }))
              ip' udp'))

  module _ (skb : SkBuff) (ip : IpHeader) (udp : UdpHeader) (cfg : Config) (t : Table)
      (ent : TableEntry) (rt : Routing) (linear : (s : SkBuff) → skb_linearize s ≡ true)
      (u : IsUdp skb ip udp) (found : get_routing udp.dest cfg t ≡ (ent, some rt)) where
    -- A packet of the outgoing side appears to come from the external proxy address and port, and
    -- goes to the external destination.
    pub forward-out :
        GoesOut ip udp rt
        → rt.e_prx_addr ≢ 0
        → rt.e_prx_port ≢ 0
        → rt.e_dst_addr ≢ 0
        → rt.e_dst_port ≢ 0
        → ntohs udp.len ≤ 8 + length skb.body
        → observed (forward skb cfg t)
          ≡ some (
            nf_accept,
            some (record {
              src_addr = rt.e_prx_addr;
              src_port = rt.e_prx_port;
              dst_addr = rt.e_dst_addr;
              dst_port = rt.e_dst_port;
            }),
          )
    unfolding forward
    forward-out out pa pp da dp fits =
        let ip' = record ip { daddr = rt.e_dst_addr } in
        let sent = record udp { source = rt.e_prx_port; dest = rt.e_dst_port } in
        let out' = rw (match_routes-daddr ip ip' udp udp rt refl refl refl) at out in
        let post = post_route-out ip' udp skb.body ent rt t out' pa pp dp in
        rw
          (pre_routing-accepts skb ip udp cfg t ent rt ip' (linear skb) u found
            (pre_route-out ip udp skb.body ent rt t out da))
          (elim (Option-cases (smoothed rt skb.body t sent)) [
            | inl fault ↦ absurd (smoothed-ne-none rt skb.body t sent fits fault)
            | inr ((body', t'), e) ↦
                post_routing-accepts (entered_skb skb ip udp cfg t ent rt ip') ip' udp cfg t ent rt
                  (record ip' { saddr = rt.e_prx_addr }) sent body' t' (linear _)
                  (record { has_ip = refl; has_udp = refl; protocol = u.protocol }) found
                  (post ∙ ap (accepted (record ip' { saddr = rt.e_prx_addr }) sent) e)
          ])

    -- A packet of the incoming side appears to come from the internal proxy address and port, and
    -- goes to the internal destination.
    pub forward-in :
        match_routes ip udp rt ≡ incoming_route
        → rt.i_prx_addr ≢ 0
        → rt.i_prx_port ≢ 0
        → rt.i_dst_addr ≢ 0
        → rt.i_dst_port ≢ 0
        → observed (forward skb cfg t)
          ≡ some (
            nf_accept,
            some (record {
              src_addr = rt.i_prx_addr;
              src_port = rt.i_prx_port;
              dst_addr = rt.i_dst_addr;
              dst_port = rt.i_dst_port;
            }),
          )
    unfolding forward
    forward-in back pa pp da dp =
        let ip' = record ip { daddr = rt.i_dst_addr } in
        let sent = record udp { source = rt.i_prx_port; dest = rt.i_dst_port } in
        let back' = rw (match_routes-daddr ip ip' udp udp rt refl refl refl) at back in
        rw
          (pre_routing-accepts skb ip udp cfg t ent rt ip' (linear skb) u found
            (pre_route-in ip udp skb.body ent rt t back da))
          (post_routing-accepts (entered_skb skb ip udp cfg t ent rt ip') ip' udp cfg t ent rt
            (record ip' { saddr = rt.i_prx_addr }) sent skb.body t (linear _)
            (record { has_ip = refl; has_udp = refl; protocol = u.protocol }) found
            (post_route-in ip' udp skb.body ent rt t back' pa pp dp))

    -- A packet of neither side, or of both alike, is dropped at the first hook with its addresses
    -- as they came.
    pub forward-drop :
        IsDropped ip udp rt → observed (forward skb cfg t) ≡ some (nf_drop, some (flow_of ip udp))
    unfolding forward
    forward-drop lost = rw (
        pre_routing-drops skb ip udp cfg t ent rt (linear skb) u found
          (pre_route-drop ip udp skb.body ent rt t lost))
