-- ===== src/Mangle/Deleted.antt =====
-- A row that is deleted while a packet is between its two hooks (generic_hook_func of src/mangle.c and
-- table_del of src/table.c).
use lbm_rtp_proxy.Base.{true, Option, some, ◌≡◌, ◌>>=◌, refl, ◌∙◌, inl}
use lbm_rtp_proxy.Config.{Config}
use lbm_rtp_proxy.Kernel.{Kernel, skb_linearize}
use lbm_rtp_proxy.Mangle.{HookResult, generic_hook_func, untouched}
use lbm_rtp_proxy.Mangle.Calls.{valid_ends}
use lbm_rtp_proxy.Mangle.Forward.{entered_skb, pre_routing-accepts}
use lbm_rtp_proxy.Mangle.Laws.{IsUdp, generic_hook_func-unrouted}
use lbm_rtp_proxy.Net.ByteOrder.{ByteOrder}
use lbm_rtp_proxy.Packet.{IpHeader, UdpHeader, SkBuff, nf_accept, nf_drop, nf_drop_err}
use lbm_rtp_proxy.Rewrite.Hooks.{
  pre_routing_hook, post_routing_hook, nf_ip_pre_routing, nf_ip_post_routing,
}
use lbm_rtp_proxy.Rewrite.Hooks.Translation.{pre_route-out}
use lbm_rtp_proxy.Rewrite.Matching.{outgoing_route}
use lbm_rtp_proxy.Rewrite.Matching.Laws.{plain_route, match_routes-plain}
use lbm_rtp_proxy.Table.{Table, is_entry_valid, table_del}
use lbm_rtp_proxy.Table.Laws.{table_del_row}
use lbm_rtp_proxy.Table.Routing.Laws.{plain_routing, IsPlain, get_routing-plain, get_routing-empty}

module _ ⦃o : ByteOrder⦄ ⦃k : Kernel⦄ where
  -- A packet at PRE_ROUTING and, if that accepts it, at POST_ROUTING, with the configuration and the
  -- table as they are found at each.
  unfoldable pub forward_across : SkBuff → Config → Table → Config → Table → Option HookResult
  forward_across skb cfg t cfg' t' =
      let first = generic_hook_func (some pre_routing_hook) (some skb) nf_ip_pre_routing cfg t in
      first >>= λ r. elim r.verdict [
        | nf_accept ↦ generic_hook_func (some post_routing_hook) r.skb nf_ip_post_routing cfg' t'
        | nf_drop ↦ some r
        | nf_drop_err err ↦ some r
      ]

  -- Where the row of a port is deleted after PRE_ROUTING and before POST_ROUTING, a UDP packet from
  -- its sender is accepted half rewritten: it has the address of the SBC as its destination, and all
  -- else is as it came, its source, its ports, its checksums and the bytes behind its headers. The row
  -- was valid and plain, and the buffer can be made one piece.
  pub forward-deleted :
      (skb : SkBuff) (ip : IpHeader) (udp : UdpHeader) (cfg cfg' : Config) (t : Table)
      → skb_linearize skb ≡ true
      → IsUdp skb ip udp
      → is_entry_valid (t udp.dest) ≡ true
      → IsPlain udp.dest cfg (t udp.dest)
      → plain_route (t udp.dest) ip.saddr udp.source ≡ outgoing_route
      → (s : SkBuff) × (forward_across skb cfg t cfg' (table_del udp.dest t)
          ≡ some (untouched (some s) (table_del udp.dest t)))
        × (s.ip ≡ some (record ip { daddr = (t udp.dest).sbc_addr }))
        × (s.udp ≡ some udp)
        × (s.body ≡ skb.body)
  unfolding forward_across
  forward-deleted skb ip udp cfg cfg' t linear u valid plain route =
      let e = t udp.dest in
      let rt = plain_routing udp.dest cfg e in
      let ip' = record ip { daddr = e.sbc_addr } in
      let out = match_routes-plain udp.dest cfg e ip udp valid refl ∙ route in
      let s = entered_skb skb ip udp cfg t e rt ip' in
      let gone =
        get_routing-empty udp.dest cfg' (table_del udp.dest t) (table_del_row udp.dest t) in
      (
        s,
        rw
            (pre_routing-accepts skb ip udp cfg t e rt ip' linear u
              (get_routing-plain udp.dest cfg t valid plain)
              (pre_route-out ip udp skb.body e rt t (inl out) (valid_ends e valid).2))
            (generic_hook_func-unrouted post_routing_hook s udp nf_ip_post_routing cfg'
              (table_del udp.dest t) refl gone),
        refl,
        refl,
        refl,
      )
