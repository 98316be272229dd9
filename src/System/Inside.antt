-- ===== src/System/Inside.antt =====
-- What the hooks (src/rewrite.c, src/checksum.c, src/mangle.c) do with bytes behind the end of a packet.
use lbm_rtp_proxy.Base.{
  ℕ, length, ◌+◌, ◌≤◌, List, ◌∷◌, ◌++◌, none, some, ◌≡◌, ◌≢◌, inl, inr, refl, ap, arith,
  Option-cases,
}
use lbm_rtp_proxy.Checksum.{
  verify_checksums, handle_incoming_checksums, udp_csum_partial, calculate_udp_checksum_full,
  calculate_ip_checksum, calculate_pseudo_header_udp_checksum, handle_outgoing_checksums, Warning,
  udp_csum_pseudo_header, udp_csum_pseudo_header_partial,
}
use lbm_rtp_proxy.Config.{Config, config_get}
use lbm_rtp_proxy.Kernel.{Kernel}
use lbm_rtp_proxy.Mangle.{generic_hook_func, mangle, receive, conclude, get_ip_and_udp_headers}
use lbm_rtp_proxy.Net.ByteOrder.{ByteOrder, ntohs}
use lbm_rtp_proxy.Packet.{IpHeader, UdpHeader, SkBuff, store_headers}
use lbm_rtp_proxy.Rewrite.Hooks.{
  MangleHook, pre_routing_hook, local_in_hook, local_out_hook, post_routing_hook, HookFn, Outcome,
  handle_outgoing_udp_packet, pre_route_udp_packet, local_in_udp_packet, local_out_udp_packet,
  post_route_udp_packet,
}
use lbm_rtp_proxy.Rewrite.Matching.{rewrite_udp_packet}
use lbm_rtp_proxy.Rewrite.Rtp.{rewrite_rtp, renumber, store_sn}
use lbm_rtp_proxy.System.{IsHook}
use lbm_rtp_proxy.System.Calls.{receive-body}
use lbm_rtp_proxy.System.Invariant.{generic_hook_func-ne-none}
use lbm_rtp_proxy.Table.{Table, TableEntry}
use lbm_rtp_proxy.Table.Routing.{Routing, get_routing}

-- The kernel, where the bytes of `behind` lie behind each packet in memory and csum_partial can get at
-- them.
abbrev pub with_behind : List ℕ → Kernel → Kernel
with_behind behind k = record k {
  csum_partial = λ u body. k.csum_partial u (body ++ behind);
  csum_tcpudp_magic-filled = λ saddr daddr len proto c u body.
      k.csum_tcpudp_magic-filled saddr daddr len proto c u (body ++ behind);
}

-- csum_partial sums the bytes that it is told to, and no more: what lies behind them does not count.
abbrev pub SumsInside : Kernel → List ℕ → Type 0
SumsInside k behind =
    (u : UdpHeader) (body : List ℕ) (n c : ℕ)
    → n ≤ 8 + length body
    → k.csum_partial u (body ++ behind) n c ≡ k.csum_partial u body n c

module _ ⦃o : ByteOrder⦄ where
  -- The length field and the number of bytes stay.
  abbrev KeepsLength : HookFn → Type 0
  KeepsLength fn =
      (ip : IpHeader) (udp : UdpHeader) (body : List ℕ) (ent : TableEntry) (rt : Routing)
      (t : Table) (out : Outcome)
      → fn ip udp body ent rt t ≡ some out
      → (out.udp.len ≡ udp.len) × (length out.body ≡ length body)

  renumber-length :
      (index : ℕ) (body : List ℕ) (t : Table) (body' : List ℕ) (t' : Table)
      → renumber index body t ≡ some (body', t')
      → length body' ≡ length body
  unfolding renumber store_sn
  renumber-length index (b0 ∷ b1 ∷ b2 ∷ b3 ∷ rest) t body' t' e = ground arith
  renumber-length index _ t body' t' e = cc

  rewrite_rtp-length :
      (udp : UdpHeader) (body : List ℕ) (index : ℕ) (t : Table) (body' : List ℕ) (t' : Table)
      → rewrite_rtp udp body index t ≡ some (body', t')
      → length body' ≡ length body
  unfolding rewrite_rtp
  rewrite_rtp-length udp body index t body' t' e =
      ground (arith, renumber-length index body t body' t')

  handle_outgoing-KeepsLength : KeepsLength handle_outgoing_udp_packet
  unfolding handle_outgoing_udp_packet rewrite_udp_packet
  handle_outgoing-KeepsLength ip udp body ent rt t out e =
      let u = (rewrite_udp_packet ip udp rt.e_prx_addr rt.e_prx_port 0 rt.e_dst_port).1 in
      ground (arith, rewrite_rtp-length u body rt.e_prx_port t out.body out.table)

  pre_route-KeepsLength : KeepsLength pre_route_udp_packet
  unfolding pre_route_udp_packet rewrite_udp_packet
  pre_route-KeepsLength ip udp body ent rt t out e = ground arith

  local_out-KeepsLength : KeepsLength local_out_udp_packet
  unfolding local_out_udp_packet rewrite_udp_packet
  local_out-KeepsLength ip udp body ent rt t out e = ground arith

  -- The function of a hook of the module.
  hook_fn-KeepsLength :
      (mh : MangleHook) → IsHook mh → (fn : HookFn) × (mh.fn ≡ some fn) × KeepsLength fn
  unfolding pre_routing_hook local_in_hook local_out_hook post_routing_hook local_in_udp_packet
      post_route_udp_packet
  hook_fn-KeepsLength mh (inl e) =
      (pre_route_udp_packet, ap (λ (m : MangleHook). m.fn) e, pre_route-KeepsLength)
  hook_fn-KeepsLength mh (inr (inl e)) =
      (local_in_udp_packet, ap (λ (m : MangleHook). m.fn) e, handle_outgoing-KeepsLength)
  hook_fn-KeepsLength mh (inr (inr (inl e))) =
      (local_out_udp_packet, ap (λ (m : MangleHook). m.fn) e, local_out-KeepsLength)
  hook_fn-KeepsLength mh (inr (inr (inr e))) =
      (post_route_udp_packet, ap (λ (m : MangleHook). m.fn) e, handle_outgoing-KeepsLength)

module _ ⦃o : ByteOrder⦄ (k : Kernel) (behind : List ℕ) (inside : SumsInside k behind) where
  verify-inside :
      (ip : IpHeader) (udp : UdpHeader) (body : List ℕ)
      → ntohs udp.len ≤ 8 + length body
      → verify_checksums ⦃k = with_behind behind k⦄ ip udp body
        ≡ verify_checksums ⦃k = k⦄ ip udp body
  unfolding verify_checksums udp_csum_partial udp_csum_pseudo_header
  verify-inside ip udp body fits = rw (inside udp body (ntohs udp.len) 0 fits) refl

  calculate-inside :
      (ip : IpHeader) (udp : UdpHeader) (body : List ℕ)
      → ntohs udp.len ≤ 8 + length body
      → calculate_udp_checksum_full ⦃k = with_behind behind k⦄ ip udp body
        ≡ calculate_udp_checksum_full ⦃k = k⦄ ip udp body
  unfolding calculate_udp_checksum_full udp_csum_partial udp_csum_pseudo_header
  calculate-inside ip udp body fits =
      rw (inside (record udp { check = 0 }) body (ntohs udp.len) 0 fits) refl

  receive-inside :
      (hook : ℕ) (skb : SkBuff) (ip : IpHeader) (udp : UdpHeader)
      → ntohs udp.len ≤ 8 + length skb.body
      → receive ⦃k = with_behind behind k⦄ hook skb ip udp ≡ receive ⦃k = k⦄ hook skb ip udp
  unfolding receive handle_incoming_checksums
  receive-inside hook skb ip udp fits = ground (arith, verify-inside ip udp skb.body fits)

  outgoing-inside :
      (skb : SkBuff) (ip : IpHeader) (udp : UdpHeader)
      → ntohs udp.len ≤ 8 + length skb.body
      → handle_outgoing_checksums ⦃k = with_behind behind k⦄ skb ip udp
        ≡ handle_outgoing_checksums ⦃k = k⦄ skb ip udp
  unfolding handle_outgoing_checksums calculate_ip_checksum calculate_pseudo_header_udp_checksum
      udp_csum_pseudo_header_partial
  outgoing-inside skb ip udp fits =
      ground (arith, calculate-inside (calculate_ip_checksum ⦃k = k⦄ ip) udp skb.body fits)

  conclude-inside :
      (hook : ℕ) (skb : SkBuff) (printed : List Warning) (out : Outcome)
      → ntohs out.udp.len ≤ 8 + length out.body
      → conclude ⦃k = with_behind behind k⦄ hook skb printed out
        ≡ conclude ⦃k = k⦄ hook skb printed out
  unfolding conclude
  conclude-inside hook skb printed out fits =
      let written = store_headers out.ip out.udp (record skb { body = out.body }) in
      ground (arith, outgoing-inside written out.ip out.udp fits)

  module _ (fn : HookFn) (hook : ℕ) (skb : SkBuff) (cfg : Config) (t : Table)
      (keeps : KeepsLength fn) where
    mangle-inside :
        (ip : IpHeader) (udp : UdpHeader)
        → ntohs udp.len ≤ 8 + length skb.body
        → mangle ⦃k = with_behind behind k⦄ fn hook skb ip udp cfg t
          ≡ mangle ⦃k = k⦄ fn hook skb ip udp cfg t
    unfolding mangle config_get
    mangle-inside ip udp fits = elim (Option-cases (get_routing udp.dest cfg t).1) [
      | inl unrouted ↦ ground arith
      | inr (rt, routed) ↦
          let s = (receive ⦃k = k⦄ hook skb ip udp).0 in
          let same = receive-inside hook skb ip udp fits in
          elim (Option-cases (fn ip udp s.body (get_routing udp.dest cfg t).0 rt t)) [
            | inl fault ↦ ground arith
            | inr (out, ran) ↦
                let kept = keeps ip udp s.body (get_routing udp.dest cfg t).0 rt t out ran in
                let there = receive-body ⦃k = k⦄ hook skb ip udp in
                let after : ntohs out.udp.len ≤ 8 + length out.body =
                  rw (kept.0, kept.1, there) fits in
                ground (arith, conclude-inside hook s (receive ⦃k = k⦄ hook skb ip udp).1 out after)
          ]
    ]

    generic-inside :
        (mh : MangleHook)
        → mh.fn ≡ some fn
        → ((udp : UdpHeader) → skb.udp ≡ some udp → ntohs udp.len ≤ 8 + length skb.body)
        → generic_hook_func ⦃k = with_behind behind k⦄ (some mh) (some skb) hook cfg t
          ≡ generic_hook_func ⦃k = k⦄ (some mh) (some skb) hook cfg t
    unfolding generic_hook_func get_ip_and_udp_headers
    generic-inside mh call fits = elim (Option-cases (get_ip_and_udp_headers ⦃k = k⦄ (some skb))) [
      | inl other ↦ ground arith
      | inr ((ip, udp), found) ↦ ground (arith, mangle-inside ip udp (fits udp (ground arith)))
    ]

  -- For a packet with a complete UDP header whose length field says no more than what is there, at
  -- every hook of the module and whatever the configuration and the table: rewrite_rtp does not
  -- access bytes behind the packet's end, and the bytes that lie there have no influence on the
  -- result by way of the checksums, where csum_partial sums no more than the bytes it is told to.
  pub generic_hook_func-inside :
      (mh : MangleHook) (skb : SkBuff) (hook : ℕ) (cfg : Config) (t : Table)
      → IsHook mh
      → ((udp : UdpHeader) → skb.udp ≡ some udp → ntohs udp.len ≤ 8 + length skb.body)
      → (generic_hook_func ⦃k = k⦄ (some mh) (some skb) hook cfg t ≢ none)
        × (generic_hook_func ⦃k = with_behind behind k⦄ (some mh) (some skb) hook cfg t
            ≡ generic_hook_func ⦃k = k⦄ (some mh) (some skb) hook cfg t)
  generic_hook_func-inside mh skb hook cfg t h fits =
      let (fn, call, keeps) = hook_fn-KeepsLength mh h in
      (
        generic_hook_func-ne-none ⦃k = k⦄ mh skb hook cfg t h fits,
        generic-inside fn hook skb cfg t keeps mh call fits,
      )
