-- ===== src/System/Calls.antt =====
-- The generic hook function of src/mangle.c: what it does to the table, and whether it faults,
-- by the hook function that it calls.
use lbm_rtp_proxy.Base.{
  ℕ, length, ◌+◌, ◌≤◌, none, some, List, ◌≡◌, ◌≢◌, ap, sym, ◌⊎◌, inl, inr, arith, Option-cases,
}
use lbm_rtp_proxy.Checksum.{Warning}
use lbm_rtp_proxy.Checksum.Laws.{handle_incoming_checksums-body}
use lbm_rtp_proxy.Config.{Config, config_get}
use lbm_rtp_proxy.Kernel.{Kernel}
use lbm_rtp_proxy.Mangle.{
  HookResult, generic_hook_func, untouched, mangle, receive, conclude, get_ip_and_udp_headers,
}
use lbm_rtp_proxy.Net.ByteOrder.{ByteOrder, ntohs}
use lbm_rtp_proxy.Packet.{IpHeader, UdpHeader, SkBuff}
use lbm_rtp_proxy.Rewrite.Hooks.{MangleHook, HookFn, Outcome}
use lbm_rtp_proxy.Rewrite.Rtp.Laws.{IsBytes}
use lbm_rtp_proxy.System.Hooks.{RowStep, StepsRow, NeverFaults}
use lbm_rtp_proxy.Table.{Table}
use lbm_rtp_proxy.Table.Routing.{Routing, get_routing}

module _ ⦃o : ByteOrder⦄ ⦃k : Kernel⦄ where
  pub receive-body :
      (hook : ℕ) (skb : SkBuff) (ip : IpHeader) (udp : UdpHeader)
      → (receive hook skb ip udp).0.body ≡ skb.body
  unfolding receive
  receive-body hook skb ip udp = ground (arith, handle_incoming_checksums-body skb ip udp)

  pub conclude-table :
      (hook : ℕ) (skb : SkBuff) (printed : List Warning) (out : Outcome)
      → (conclude hook skb printed out).table ≡ out.table
  unfolding conclude
  conclude-table hook skb printed out = ground arith

  module _ (fn : HookFn) (hook : ℕ) (skb : SkBuff) (cfg : Config) (t : Table) where
    -- Where `mangle` comes to an end: without a route, or with what a hook function left.
    pub mangle_cases :
        (ip : IpHeader) (udp : UdpHeader) (r : HookResult)
        → mangle fn hook skb ip udp cfg t ≡ some r
        → (r ≡ untouched (some skb) t)
          ⊎ ((rt : Routing) × (out : Outcome) × ((get_routing udp.dest cfg t).1 ≡ some rt)
              × (fn ip udp (receive hook skb ip udp).0.body (get_routing udp.dest cfg t).0 rt t
                  ≡ some out)
              × (r ≡ conclude hook (receive hook skb ip udp).0 (receive hook skb ip udp).1 out))
    unfolding mangle config_get
    mangle_cases ip udp r e = elim (Option-cases (get_routing udp.dest cfg t).1) [
      | inl unrouted ↦ inl (ground arith)
      | inr (rt, routed) ↦
          elim (Option-cases
            (fn ip udp (receive hook skb ip udp).0.body (get_routing udp.dest cfg t).0 rt t)) [
              | inl fault ↦ absurd (ground arith)
              | inr (out, ran) ↦ inr (rt, out, routed, ran, ground arith)
            ]
    ]

    pub mangle-RowStep :
        (ip : IpHeader) (udp : UdpHeader) (r : HookResult)
        → StepsRow fn
        → IsBytes skb.body
        → mangle fn hook skb ip udp cfg t ≡ some r
        → RowStep t r.table
    mangle-RowStep ip udp r keeps bytes e = elim (mangle_cases ip udp r e) [
      | inl same ↦ inl (ap (λ (x : HookResult). x.table) (sym same))
      | inr (rt, out, routed, ran, concluded) ↦
          rw
            (
              concluded,
              conclude-table hook (receive hook skb ip udp).0 (receive hook skb ip udp).1 out,
            )
            (keeps ip udp _ (get_routing udp.dest cfg t).0 rt t out
              (rw (receive-body hook skb ip udp) bytes) ran)
    ]

    pub mangle-ne-none :
        (ip : IpHeader) (udp : UdpHeader)
        → NeverFaults fn
        → ntohs udp.len ≤ 8 + length skb.body
        → mangle fn hook skb ip udp cfg t ≢ none
    unfolding mangle config_get
    mangle-ne-none ip udp safe fits e = elim (Option-cases (get_routing udp.dest cfg t).1) [
      | inl unrouted ↦ ground arith
      | inr (rt, routed) ↦
          let body : List ℕ = (receive hook skb ip udp).0.body in
          let ran =
            safe ip udp body (get_routing udp.dest cfg t).0 rt t
              (rw (receive-body hook skb ip udp) fits) in
          ground arith
    ]

    pub generic_hook_func_cases :
        (mh : MangleHook)
        → mh.fn ≡ some fn
        → (generic_hook_func (some mh) (some skb) hook cfg t ≡ some (untouched (some skb) t))
          ⊎ ((ip : IpHeader) × (udp : UdpHeader) × (skb.ip ≡ some ip)
              × (skb.udp ≡ some udp)
              × (generic_hook_func (some mh) (some skb) hook cfg t
                  ≡ mangle fn hook skb ip udp cfg t))
    unfolding generic_hook_func
    generic_hook_func_cases mh call = elim (Option-cases mh.name) [
      | inl unnamed ↦ inl (ground arith)
      | inr (name, named) ↦ elim (Option-cases (get_ip_and_udp_headers (some skb))) [
        | inl other ↦ inl (ground arith)
        | inr ((ip, udp), found) ↦ inr (ip, udp, ground arith, ground arith, ground arith)
      ]
    ]
