-- ===== src/Mangle/Media.antt =====
-- RTP packets through the generic hook function of src/mangle.c: what is in a packet that is sent on.
use lbm_rtp_proxy.Base.{
  ℕ, drop, ◌%◌, ◌≤◌, true, Option, some, List, ◌≡◌, ◌≢◌, ◌>>=◌, refl, ◌∙◌, ap, arith,
}
use lbm_rtp_proxy.Checksum.Laws.{handle_outgoing_checksums_lem}
use lbm_rtp_proxy.Config.{Config}
use lbm_rtp_proxy.Kernel.{Kernel, skb_linearize}
use lbm_rtp_proxy.Mangle.{HookResult, generic_hook_func, receive, conclude}
use lbm_rtp_proxy.Mangle.Forward.{forward, entered_skb, pre_routing-accepts}
use lbm_rtp_proxy.Mangle.Laws.{IsUdp, generic_hook_func-mangle, mangle-run}
use lbm_rtp_proxy.Net.ByteOrder.{ByteOrder, ntohs, htons}
use lbm_rtp_proxy.Packet.{IpHeader, UdpHeader, SkBuff, store_headers, nf_accept}
use lbm_rtp_proxy.Rewrite.Hooks.{
  accepted, post_routing_hook, post_route_udp_packet, nf_ip_post_routing,
}
use lbm_rtp_proxy.Rewrite.Hooks.Translation.{GoesOut, smoothed, pre_route-out, post_route-out}
use lbm_rtp_proxy.Rewrite.Matching.Laws.{match_routes-daddr}
use lbm_rtp_proxy.Rewrite.Rtp.{RtpPacket, rtp_packet}
use lbm_rtp_proxy.Rewrite.Rtp.Laws.{rewrite_rtp-renumbers}
use lbm_rtp_proxy.Rewrite.Smoothing.{sent, after}
use lbm_rtp_proxy.Table.{Table, TableEntry, set_row}
use lbm_rtp_proxy.Table.Routing.{Routing, get_routing}

-- The bytes that leave, and the table that is left.
abbrev pub carried : Option HookResult → Option (List ℕ × Table)
carried result = result >>= λ r. r.skb >>= λ s. some (s.body, r.table)

module _ ⦃o : ByteOrder⦄ ⦃k : Kernel⦄ where
  post_routing-carries :
      (skb : SkBuff) (ip : IpHeader) (udp : UdpHeader) (cfg : Config) (t : Table) (ent : TableEntry)
      (rt : Routing) (ip' : IpHeader) (udp' : UdpHeader) (body' : List ℕ) (t' : Table)
      → skb_linearize skb ≡ true
      → IsUdp skb ip udp
      → get_routing udp.dest cfg t ≡ (ent, some rt)
      → post_route_udp_packet ip udp skb.body ent rt t
        ≡ some (record { verdict = nf_accept; ip = ip'; udp = udp'; body = body'; table = t' })
      → carried (generic_hook_func (some post_routing_hook) (some skb) nf_ip_post_routing cfg t)
        ≡ some (body', t')
  unfolding conclude receive post_routing_hook
  post_routing-carries skb ip udp cfg t ent rt ip' udp' body' t' linear u found step =
      ap carried (
        generic_hook_func-mangle post_routing_hook post_route_udp_packet skb ip udp
          nf_ip_post_routing cfg t (λ e. cc) refl linear u
        ∙ mangle-run post_route_udp_packet skb ip udp nf_ip_post_routing cfg t ent rt _ found step)
      ∙ rw
          (handle_outgoing_checksums_lem (store_headers ip' udp' (record skb { body = body' })) ip'
            udp').3

  module _ (skb : SkBuff) (ip : IpHeader) (udp : UdpHeader) (cfg : Config) (t : Table)
      (ent : TableEntry) (rt : Routing) (linear : (s : SkBuff) → skb_linearize s ≡ true)
      (u : IsUdp skb ip udp) (found : get_routing udp.dest cfg t ≡ (ent, some rt)) where
    forward-carries :
        (body' : List ℕ) (t' : Table)
        → GoesOut ip udp rt
        → rt.e_prx_addr ≢ 0
        → rt.e_prx_port ≢ 0
        → rt.e_dst_addr ≢ 0
        → rt.e_dst_port ≢ 0
        → smoothed rt skb.body t (record udp { source = rt.e_prx_port; dest = rt.e_dst_port })
          ≡ some (body', t')
        → carried (forward skb cfg t) ≡ some (body', t')
    unfolding forward
    forward-carries body' t' out pa pp da dp e =
        let ip' = record ip { daddr = rt.e_dst_addr } in
        let leaving = record udp { source = rt.e_prx_port; dest = rt.e_dst_port } in
        let out' = rw (match_routes-daddr ip ip' udp udp rt refl refl refl) at out in
        let post = post_route-out ip' udp skb.body ent rt t out' pa pp dp in
        rw
          (pre_routing-accepts skb ip udp cfg t ent rt ip' (linear skb) u found
            (pre_route-out ip udp skb.body ent rt t out da))
          (post_routing-carries (entered_skb skb ip udp cfg t ent rt ip') ip' udp cfg t ent rt
            (record ip' { saddr = rt.e_prx_addr }) leaving body' t' (linear _)
            (record { has_ip = refl; has_udp = refl; protocol = u.protocol }) found
            (post ∙ ap (accepted (record ip' { saddr = rt.e_prx_addr }) leaving) e))

    -- On a route with smoothing whose external proxy port is even, a UDP packet of the outgoing side
    -- that holds an RTP packet of version 2 leaves POST_ROUTING with the sequence number that the row
    -- of that port sends, and otherwise with the same RTP header and the same bytes behind it; the
    -- row takes note of the number. The proxy and the destination have addresses and ports, the
    -- length field has room for an RTP header, and the buffer can be made one piece.
    pub forward-renumbers :
        (p : RtpPacket)
        → GoesOut ip udp rt
        → (rt.e_prx_addr ≢ 0) × (rt.e_prx_port ≢ 0) × (rt.e_dst_addr ≢ 0) × (rt.e_dst_port ≢ 0)
        → rt.smoothing ≢ 0
        → rtp_packet skb.body ≡ some p
        → p.version ≡ 2
        → ntohs rt.e_prx_port % 2 ≡ 0
        → 20 ≤ ntohs udp.len
        → (body' : List ℕ) × (carried (forward skb cfg t)
            ≡ some (body', set_row rt.e_prx_port (after (t rt.e_prx_port) (ntohs p.sn)) t))
          × (rtp_packet body'
              ≡ some (record p { sn = htons (sent (t rt.e_prx_port) (ntohs p.sn)) }))
          × (drop 12 body' ≡ drop 12 skb.body)
    forward-renumbers p out ends on e v even long =
        let leaving = record udp { source = rt.e_prx_port; dest = rt.e_dst_port } in
        let (body', rewritten, header, rest, _) =
          rewrite_rtp-renumbers leaving skb.body rt.e_prx_port t p e v even long in
        (
          body',
          forward-carries body' _ out ends.0 ends.1 ends.2 ends.3 (ground (arith, rewritten)),
          header,
          rest,
        )
