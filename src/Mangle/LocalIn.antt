-- ===== src/Mangle/LocalIn.antt =====
-- The packets that are for the machine itself: the hook function at LOCAL_IN (src/mangle.c,
-- src/rewrite.c).
use lbm_rtp_proxy.Base.{
  ℕ, length, ◌+◌, ◌≤◌, true, Option, some, List, [], ◌≡◌, ◌≢◌, refl, ◌∙◌, ap, ◌>>=◌, Option-cases,
  inl, inr, arith,
}
use lbm_rtp_proxy.Config.{Config}
use lbm_rtp_proxy.Kernel.{Kernel, skb_linearize}
use lbm_rtp_proxy.Mangle.{HookResult, generic_hook_func, receive, conclude}
use lbm_rtp_proxy.Mangle.Calls.{valid_ends}
use lbm_rtp_proxy.Mangle.Laws.{IsUdp, generic_hook_func-mangle, mangle-run}
use lbm_rtp_proxy.Net.ByteOrder.{ByteOrder, ntohs}
use lbm_rtp_proxy.Packet.{IpHeader, UdpHeader, SkBuff, Flow, flow_of, Verdict, nf_accept, nf_drop}
use lbm_rtp_proxy.Rewrite.Hooks.{
  local_in_hook, local_in_udp_packet, post_route_udp_packet, nf_ip_local_in, accepted,
}
use lbm_rtp_proxy.Rewrite.Hooks.Translation.{
  smoothed, smoothed-ne-none, post_route-out, post_route-in, post_route-drop,
}
use lbm_rtp_proxy.Rewrite.Matching.{
  Route, loopback_route, outgoing_route, incoming_route, ambiguous_route, no_route, match_routes,
}
use lbm_rtp_proxy.Rewrite.Matching.Laws.{plain_route, match_routes-plain}
use lbm_rtp_proxy.Table.{Table, TableEntry, is_entry_valid}
use lbm_rtp_proxy.Table.Routing.{Routing}
use lbm_rtp_proxy.Table.Routing.Laws.{plain_routing, IsPlain, get_routing-plain}

-- The verdict, where the packet goes, and its two checksums.
abbrev pub summed : Option HookResult → Option (Verdict × Flow × ℕ × ℕ)
summed result = result >>= λ r. r.skb >>= λ s.
    s.ip >>= λ ip. s.udp >>= λ udp. some (r.verdict, flow_of ip udp, ip.check, udp.check)

-- Where LOCAL_IN sends a packet to the proxy port of a row, by its route.
abbrev pub local_flow : Config → TableEntry → IpHeader → UdpHeader → Route → Verdict × Flow
local_flow cfg e ip udp outgoing_route = (
  nf_accept,
  record {
    src_addr = cfg.ext_proxy_addr;
    src_port = udp.dest;
    dst_addr = ip.daddr;
    dst_port = e.sbc_port;
  },
)
local_flow cfg e ip udp incoming_route = (
  nf_accept,
  record {
    src_addr = cfg.int_proxy_addr;
    src_port = udp.dest;
    dst_addr = ip.daddr;
    dst_port = e.receiver_port;
  },
)
local_flow cfg e ip udp _ = (nf_drop, flow_of ip udp)

module _ ⦃o : ByteOrder⦄ ⦃k : Kernel⦄ (skb : SkBuff) (ip : IpHeader) (udp : UdpHeader)
    (cfg : Config) (t : Table) (linear : skb_linearize skb ≡ true) (u : IsUdp skb ip udp)
    (valid : is_entry_valid (t udp.dest) ≡ true) (plain : IsPlain udp.dest cfg (t udp.dest)) where
  abbrev rt : Routing
  rt = plain_routing udp.dest cfg (t udp.dest)

  matched : match_routes ip udp rt ≡ plain_route (t udp.dest) ip.saddr udp.source
  matched = match_routes-plain udp.dest cfg (t udp.dest) ip udp valid refl

  local_in-step :
      (verdict : Verdict) (ip' : IpHeader) (udp' : UdpHeader) (body' : List ℕ) (t' : Table)
      → post_route_udp_packet ip udp skb.body (t udp.dest) rt t
        ≡ some (record { verdict = verdict; ip = ip'; udp = udp'; body = body'; table = t' })
      → generic_hook_func (some local_in_hook) (some skb) nf_ip_local_in cfg t
        ≡ some (
            conclude nf_ip_local_in skb []
              (record { verdict = verdict; ip = ip'; udp = udp'; body = body'; table = t' }))
  unfolding receive local_in_hook local_in_udp_packet post_route_udp_packet
  local_in-step verdict ip' udp' body' t' step =
      generic_hook_func-mangle local_in_hook local_in_udp_packet skb ip udp nf_ip_local_in cfg t
        (λ e. cc) refl linear u
      ∙ mangle-run local_in_udp_packet skb ip udp nf_ip_local_in cfg t (t udp.dest) rt _
          (get_routing-plain udp.dest cfg t valid plain) step

  module _ (port : udp.dest ≢ 0) (int : cfg.int_proxy_addr ≢ 0) (ext : cfg.ext_proxy_addr ≢ 0)
      (fits : ntohs udp.len ≤ 8 + length skb.body) where
    local_in_by :
        (r : Route)
        → plain_route (t udp.dest) ip.saddr udp.source ≡ r
        → let (verdict, flow) = local_flow cfg (t udp.dest) ip udp r in
          summed (generic_hook_func (some local_in_hook) (some skb) nf_ip_local_in cfg t)
          ≡ some (verdict, flow, ip.check, udp.check)
    unfolding conclude
    local_in_by outgoing_route e =
        let ends = valid_ends (t udp.dest) valid in
        let sent = record udp { source = udp.dest; dest = (t udp.dest).sbc_port } in
        let post =
          post_route-out ip udp skb.body (t udp.dest) rt t (inl (matched ∙ e)) ext port ends.3 in
        elim (Option-cases (smoothed rt skb.body t sent)) [
          | inl fault ↦ absurd (smoothed-ne-none rt skb.body t sent fits fault)
          | inr ((body', t'), e) ↦ ap summed (
              local_in-step nf_accept (record ip { saddr = cfg.ext_proxy_addr }) sent body' t'
                (post ∙ ap (accepted (record ip { saddr = cfg.ext_proxy_addr }) sent) e))
        ]
    local_in_by incoming_route e =
        let ends = valid_ends (t udp.dest) valid in
        ap summed (
          local_in-step nf_accept _ _ skb.body t
            (post_route-in ip udp skb.body (t udp.dest) rt t (matched ∙ e) int port ends.1))
    local_in_by ambiguous_route e = ap summed (
        local_in-step nf_drop ip udp skb.body t
          (post_route-drop ip udp skb.body (t udp.dest) rt t (inl (matched ∙ e))))
    local_in_by no_route e = ap summed (
        local_in-step nf_drop ip udp skb.body t
          (post_route-drop ip udp skb.body (t udp.dest) rt t (inr (matched ∙ e))))
    local_in_by loopback_route e = absurd (ground arith)

    -- A UDP packet for the machine that arrives at LOCAL_IN with the proxy port of a valid and
    -- plain row as its destination gets a new source, the proxy port at the external proxy address
    -- or at the internal one, and the port of the SBC or of the receiver as its destination, as
    -- the route by its source says, and is accepted; on the other routes it is dropped as it came.
    -- Both its checksums stay as they came. The port and the proxy's addresses are not zero, the
    -- buffer can be made one piece, and the length field says no more than what is there.
    pub local_in-plain :
        let (verdict, flow) =
          local_flow cfg (t udp.dest) ip udp (plain_route (t udp.dest) ip.saddr udp.source) in
        summed (generic_hook_func (some local_in_hook) (some skb) nf_ip_local_in cfg t)
        ≡ some (verdict, flow, ip.check, udp.check)
    local_in-plain = local_in_by (plain_route (t udp.dest) ip.saddr udp.source) refl
