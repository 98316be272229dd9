-- ===== src/System/Packets.antt =====
-- The ranges of packets through the checksums of src/checksum.c and the generic hook function of
-- src/mangle.c.
use lbm_rtp_proxy.Base.{
  ℕ, ◌^◌, ◌<◌, Option, none, some, List, ◌≡◌, ap, ◌⊎◌, inl, inr, arith, sym, ◌∙◌,
}
use lbm_rtp_proxy.Checksum.{
  Warning, handle_incoming_checksums, handle_outgoing_checksums, calculate_ip_checksum,
  calculate_pseudo_header_udp_checksum, calculate_udp_checksum_full, ipproto_udp,
}
use lbm_rtp_proxy.Config.{Config, IsConfig}
use lbm_rtp_proxy.Kernel.{Kernel, csum_partial, ip_route_me_harder}
use lbm_rtp_proxy.Mangle.{HookResult, generic_hook_func, mangle, receive, conclude}
use lbm_rtp_proxy.Net.ByteOrder.{ByteOrder, ntohs}
use lbm_rtp_proxy.Packet.{IpHeader, UdpHeader, SkBuff, store_headers}
use lbm_rtp_proxy.Rewrite.Hooks.{
  MangleHook, HookFn, Outcome, pre_routing_hook, local_in_hook, local_out_hook, post_routing_hook,
  pre_route_udp_packet, local_in_udp_packet, local_out_udp_packet, post_route_udp_packet,
}
use lbm_rtp_proxy.Rewrite.Hooks.Ranges.{
  IsIpHeader, IsUdpHeader, IsOutcome, KeepsRanges, pre_route-KeepsRanges, local_in-KeepsRanges,
  local_out-KeepsRanges, post_route-KeepsRanges,
}
use lbm_rtp_proxy.Rewrite.Rtp.Laws.{IsBytes}
use lbm_rtp_proxy.System.{IsHook}
use lbm_rtp_proxy.System.Calls.{mangle_cases, generic_hook_func_cases}
use lbm_rtp_proxy.Table.{Table}
use lbm_rtp_proxy.Table.Laws.{IsTable}
use lbm_rtp_proxy.Table.Routing.{get_routing}
use lbm_rtp_proxy.Table.Routing.Ranges.{get_routing-IsRouting}

-- A header that is there is in range.
abbrev pub IpInRange : Option IpHeader → Type 0
IpInRange none = Unit
IpInRange (some h) = IsIpHeader h

abbrev pub UdpInRange : Option UdpHeader → Type 0
UdpInRange none = Unit
UdpInRange (some h) = IsUdpHeader h

-- The headers of a buffer, the bytes behind them and its 16-bit offsets are in range.
pub record IsPacket (skb : SkBuff) : Type 0 where
  pub ip : IpInRange skb.ip
  pub udp : UdpInRange skb.udp
  pub body : IsBytes skb.body
  pub csum_start-lt : skb.csum_start < 2 ^ 16
  pub csum_offset-lt : skb.csum_offset < 2 ^ 16
  pub transport_offset-lt : skb.transport_offset < 2 ^ 16

module _ ⦃o : ByteOrder⦄ ⦃k : Kernel⦄ where
  calculate_ip-IsIpHeader : (ip : IpHeader) → IsIpHeader ip → IsIpHeader (calculate_ip_checksum ip)
  unfolding calculate_ip_checksum
  calculate_ip-IsIpHeader ip w = ground (arith, k.ip_fast_csum-lt (record ip { check = 0 }))

  calculate_pseudo-IsUdpHeader :
      (ip : IpHeader) (udp : UdpHeader)
      → IsUdpHeader udp
      → IsUdpHeader (calculate_pseudo_header_udp_checksum ip udp)
  unfolding calculate_pseudo_header_udp_checksum
  calculate_pseudo-IsUdpHeader ip udp w = ground arith

  calculate_full-IsUdpHeader :
      (ip : IpHeader) (udp : UdpHeader) (body : List ℕ)
      → IsUdpHeader udp
      → IsUdpHeader (calculate_udp_checksum_full ip udp body)
  unfolding calculate_udp_checksum_full
  calculate_full-IsUdpHeader ip udp body w =
      let sum = csum_partial (record udp { check = 0 }) body (ntohs udp.len) 0 in
      ground (arith, k.csum_tcpudp_magic-lt ip.saddr ip.daddr (ntohs udp.len) ipproto_udp sum)

  outgoing-IsPacket :
      (skb : SkBuff) (ip : IpHeader) (udp : UdpHeader)
      → IsPacket skb
      → IsIpHeader ip
      → IsUdpHeader udp
      → IsPacket (handle_outgoing_checksums skb ip udp)
  unfolding handle_outgoing_checksums
  outgoing-IsPacket skb ip udp w wi wu =
      let ip' = calculate_ip_checksum ip in
      let header = calculate_ip-IsIpHeader ip wi in
      let offloaded = calculate_pseudo-IsUdpHeader ip' udp wu in
      let full = calculate_full-IsUdpHeader ip' udp skb.body wu in ground arith

  pub receive-IsPacket :
      (hook : ℕ) (skb : SkBuff) (ip : IpHeader) (udp : UdpHeader)
      → IsPacket skb
      → IsPacket (receive hook skb ip udp).0
  unfolding receive handle_incoming_checksums
  receive-IsPacket hook skb ip udp w = ground arith

  conclude_cases :
      (hook : ℕ) (skb : SkBuff) (printed : List Warning) (out : Outcome)
      → let written = store_headers out.ip out.udp (record skb { body = out.body }) in
        let r = conclude hook skb printed out in
        (r.skb ≡ some written)
        ⊎ (r.skb ≡ some (ip_route_me_harder written).0)
        ⊎ (r.skb ≡ some (handle_outgoing_checksums written out.ip out.udp))
  unfolding conclude
  conclude_cases hook skb printed out = ground arith

  module _ (harder : (skb : SkBuff) → IsPacket skb → IsPacket (ip_route_me_harder skb).0) where
    pub conclude-IsPacket :
        (hook : ℕ) (skb : SkBuff) (printed : List Warning) (out : Outcome)
        → IsPacket skb
        → IsOutcome out
        → (s : SkBuff) × ((conclude hook skb printed out).skb ≡ some s) × IsPacket s
    conclude-IsPacket hook skb printed out w h =
        let written = store_headers out.ip out.udp (record skb { body = out.body }) in
        let keeps : IsPacket written = record {
          ip = h.ip;
          udp = h.udp;
          body = h.body;
          csum_start-lt = w.csum_start-lt;
          csum_offset-lt = w.csum_offset-lt;
          transport_offset-lt = w.transport_offset-lt;
        } in
        elim (conclude_cases hook skb printed out) [
          | inl e ↦ (_, e, keeps)
          | inr (inl e) ↦ (_, e, harder written keeps)
          | inr (inr e) ↦ (_, e, outgoing-IsPacket written out.ip out.udp keeps h.ip h.udp)
        ]

    mangle-IsPacket :
        (fn : HookFn) (hook : ℕ) (skb : SkBuff) (cfg : Config) (t : Table) (ip : IpHeader)
        (udp : UdpHeader) (r : HookResult)
        → KeepsRanges fn
        → IsPacket skb
        → IsIpHeader ip
        → IsUdpHeader udp
        → IsConfig cfg
        → IsTable t
        → mangle fn hook skb ip udp cfg t ≡ some r
        → (s : SkBuff) × (r.skb ≡ some s) × IsPacket s
    mangle-IsPacket fn hook skb cfg t ip udp r keeps w wi wu wc wt e =
        elim (mangle_cases fn hook skb cfg t ip udp r e) [
          | inl same ↦ (skb, ap (λ (x : HookResult). x.skb) same, w)
          | inr (rt, out, routed, ran, concluded) ↦
              let received = receive-IsPacket hook skb ip udp w in
              let route = get_routing-IsRouting cfg wc udp.dest t rt wu.dest-lt wt routed in
              rw concluded (
                conclude-IsPacket hook (receive hook skb ip udp).0 (receive hook skb ip udp).1 out
                  received
                  (keeps ip udp _ (get_routing udp.dest cfg t).0 rt t out wi wu received.body route
                    ran))
        ]

  -- The function of a hook of the module.
  pub hook-fn-KeepsRanges :
      (mh : MangleHook) → IsHook mh → (fn : HookFn) × (mh.fn ≡ some fn) × KeepsRanges fn
  unfolding pre_routing_hook local_in_hook local_out_hook post_routing_hook
  hook-fn-KeepsRanges mh (inl e) =
      (pre_route_udp_packet, ap (λ (m : MangleHook). m.fn) e, pre_route-KeepsRanges)
  hook-fn-KeepsRanges mh (inr (inl e)) =
      (local_in_udp_packet, ap (λ (m : MangleHook). m.fn) e, local_in-KeepsRanges)
  hook-fn-KeepsRanges mh (inr (inr (inl e))) =
      (local_out_udp_packet, ap (λ (m : MangleHook). m.fn) e, local_out-KeepsRanges)
  hook-fn-KeepsRanges mh (inr (inr (inr e))) =
      (post_route_udp_packet, ap (λ (m : MangleHook). m.fn) e, post_route-KeepsRanges)

  -- Whatever a hook of the module does to a packet in range, the packet stays in range: the fields of
  -- its headers, every byte behind them, and the offsets of its buffer. The configuration and the
  -- table are in range, and a packet in range that is routed again stays so.
  pub generic_hook_func-IsPacket :
      (mh : MangleHook) (skb : SkBuff) (hook : ℕ) (cfg : Config) (t : Table) (r : HookResult)
      → ((s : SkBuff) → IsPacket s → IsPacket (ip_route_me_harder s).0)
      → IsHook mh
      → IsPacket skb
      → IsConfig cfg
      → IsTable t
      → generic_hook_func (some mh) (some skb) hook cfg t ≡ some r
      → (s : SkBuff) × (r.skb ≡ some s) × IsPacket s
  generic_hook_func-IsPacket mh skb hook cfg t r harder h w wc wt e =
      let (fn, call, keeps) = hook-fn-KeepsRanges mh h in
      elim (generic_hook_func_cases fn hook skb cfg t mh call) [
        | inl passed ↦ (skb, ground arith, w)
        | inr (ip, udp, found, headed, mangled) ↦
            mangle-IsPacket harder fn hook skb cfg t ip udp r keeps w (rw found at w.ip)
              (rw headed at w.udp) wc wt (sym mangled ∙ e)
      ]
