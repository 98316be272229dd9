-- ===== src/Mangle.antt =====
-- The generic netfilter hook function (src/mangle.c), which finds the headers and the route, calls a
-- hook function, and does what its verdict asks for. `none` is a fault of the hook function, that is of
-- rewrite_rtp.
pub mod Laws
pub mod Forward
pub mod Calls
pub mod Loopback
pub mod Pair
pub mod Media
pub mod MediaStream
pub mod LocalOut
pub mod LocalIn
pub mod Placed
pub mod Deleted
use lbm_rtp_proxy.Base.{
  ◌>>=◌, ℕ, Bool, ◌&&◌, ◌||◌, Option, none, some, List, [], ◌==◌, if◌then◌else◌,
}
use lbm_rtp_proxy.Checksum.{
  Warning, ipproto_udp, handle_incoming_checksums, handle_outgoing_checksums,
}
use lbm_rtp_proxy.Config.{Config, config_get}
use lbm_rtp_proxy.Kernel.{Kernel, skb_linearize, ip_route_me_harder}
use lbm_rtp_proxy.Net.ByteOrder.{ByteOrder}
use lbm_rtp_proxy.Packet.{
  IpHeader, UdpHeader, SkBuff, store_headers, Verdict, nf_accept, nf_drop, nf_drop_err,
}
use lbm_rtp_proxy.Rewrite.Hooks.{
  HookFn, MangleHook, Outcome, nf_ip_pre_routing, nf_ip_local_out, nf_ip_post_routing,
}
use lbm_rtp_proxy.Table.{Table}
use lbm_rtp_proxy.Table.Routing.{get_routing}

-- What the hook returns and leaves, and what it prints.
pub record HookResult : Type 0 where
  pub verdict : Verdict
  pub skb : Option SkBuff
  pub table : Table
  pub printed : List Warning

-- `return NF_ACCEPT` with nothing done.
abbrev pub untouched : Option SkBuff → Table → HookResult
untouched skb table = record { verdict = nf_accept; skb = skb; table = table; printed = [] }

module _ ⦃o : ByteOrder⦄ ⦃k : Kernel⦄ where
  -- As in the code, no length is looked at.
  unfoldable pub get_ip_and_udp_headers : Option SkBuff → Option (IpHeader × UdpHeader)
  get_ip_and_udp_headers none = none
  get_ip_and_udp_headers (some skb) =
      if skb_linearize skb
      then (skb.ip >>= λ ip.
          if ip.protocol == ipproto_udp then (skb.udp >>= λ udp. some (ip, udp)) else none)
      else none

  -- The `switch` on the verdict of the hook function.
  unfoldable pub conclude : ℕ → SkBuff → List Warning → Outcome → HookResult
  conclude hook skb printed out =
      let written = store_headers out.ip out.udp (record skb { body = out.body }) in
      let result = λ (v : Verdict) (s : SkBuff).
        let r : HookResult = record {
          verdict = v;
          skb = some s;
          table = out.table;
          printed = printed;
        } in
        r in
      let rerouted = ip_route_me_harder written in
      let reroute : HookResult = elim rerouted.1 [
        | none ↦ result nf_accept rerouted.0
        | some err ↦ result (nf_drop_err err) rerouted.0
      ] in
      elim out.verdict [
        | nf_accept ↦
            if hook == nf_ip_local_out
            then reroute
            else (if hook == nf_ip_post_routing
                then result nf_accept (handle_outgoing_checksums written out.ip out.udp)
                else result nf_accept written)
        | nf_drop ↦ result nf_drop written
        | nf_drop_err err ↦ result nf_accept written
      ]

  -- The checksums of an arriving packet are looked at.
  unfoldable pub receive : ℕ → SkBuff → IpHeader → UdpHeader → SkBuff × List Warning
  receive hook skb ip udp =
      if hook == nf_ip_pre_routing || hook == nf_ip_local_out
      then handle_incoming_checksums skb ip udp
      else (skb, [])

  -- From the lookup of the configuration and the route on.
  unfoldable pub mangle :
      HookFn → ℕ → SkBuff → IpHeader → UdpHeader → Config → Table → Option HookResult
  mangle fn hook skb ip udp config table =
      let cfg = config_get config in
      let (ent, route) = get_routing udp.dest cfg table in
      let (skb', printed) = receive hook skb ip udp in
      elim route [
        | none ↦ some (untouched (some skb) table)
        | some rt ↦ elim (fn ip udp skb'.body ent rt table) [
          | none ↦ none
          | some out ↦ some (conclude hook skb' printed out)
        ]
      ]

  -- `priv`, `skb`, `state->hook`, then the two static variables of the module.
  unfoldable pub generic_hook_func :
      Option MangleHook → Option SkBuff → ℕ → Config → Table → Option HookResult
  unfolding get_ip_and_udp_headers
  generic_hook_func none skb hook config table = some (untouched skb table)
  generic_hook_func (some mangle_hook) none hook config table = some (untouched none table)
  generic_hook_func (some mangle_hook) (some skb) hook config table =
      let pass : Option HookResult = some (untouched (some skb) table) in
      elim mangle_hook.name [
        | none ↦ pass
        | some name ↦ elim (get_ip_and_udp_headers (some skb)) [
          | none ↦ pass
          | some (ip, udp) ↦ elim mangle_hook.fn [
            | none ↦ pass
            | some fn ↦ mangle fn hook skb ip udp config table
          ]
        ]
      ]
