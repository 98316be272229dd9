-- ===== src/Debug/Outgoing.antt =====
-- Leaving packets and the generic hook function in a DEBUG build (src/checksum.c, src/mangle.c).
-- `none` is a fault of a hook function.
use Prim.Native.String.{String}
use lbm_rtp_proxy.Base.{
  ℕ, ◌&&◌, not, Option, none, some, List, [], ◌∷◌, ◌++◌, ◌>>=◌, ◌==◌, if◌then◌else◌, map,
}
use lbm_rtp_proxy.Checksum.{
  udp_check_offset, can_hw_csum, is_local_out, udp_csum_partial, udp_csum_pseudo_header,
  udp_csum_pseudo_header_partial,
}
use lbm_rtp_proxy.Config.{Config, config_get}
use lbm_rtp_proxy.Debug.{BufferInfo, debug_print_skb}
use lbm_rtp_proxy.Debug.Hooks.{Print, line, alert, text, csum_line, DebugFn, DebugHook}
use lbm_rtp_proxy.Debug.Incoming.{receive_debug}
use lbm_rtp_proxy.Kernel.{Kernel, ip_fast_csum, ip_route_me_harder}
use lbm_rtp_proxy.Mangle.{get_ip_and_udp_headers}
use lbm_rtp_proxy.Net.ByteOrder.{ByteOrder, ntohs}
use lbm_rtp_proxy.Packet.{
  IpHeader, UdpHeader, SkBuff, store_headers, Verdict, nf_accept, nf_drop, nf_drop_err,
  checksum_partial,
}
use lbm_rtp_proxy.Rewrite.Hooks.{Outcome, nf_ip_local_out, nf_ip_post_routing}
use lbm_rtp_proxy.Table.{Table}
use lbm_rtp_proxy.Table.Routing.{get_routing}

-- What the hook returns and leaves, and what it prints.
pub record DebugResult : Type 0 where
  pub verdict : Verdict
  pub skb : Option SkBuff
  pub table : Table
  pub printed : List Print

abbrev pub untouched_debug : Option SkBuff → Table → DebugResult
untouched_debug skb table = record { verdict = nf_accept; skb = skb; table = table; printed = [] }

module _ ⦃o : ByteOrder⦄ ⦃k : Kernel⦄ where
  unfoldable pub calculate_ip_checksum_debug : IpHeader → IpHeader × Print
  calculate_ip_checksum_debug ip =
      let check = ip_fast_csum (record ip { check = 0 }) in
      (record ip { check = check }, csum_line " ip  csum: " (ntohs ip.check) (ntohs check))

  unfoldable pub calculate_pseudo_header_udp_checksum_debug :
      IpHeader → UdpHeader → UdpHeader × Print
  unfolding udp_csum_pseudo_header_partial
  calculate_pseudo_header_udp_checksum_debug ip udp =
      let check = udp_csum_pseudo_header_partial ip udp in
      (
        record udp { check = check },
        csum_line " udp pseudo header csum: " (ntohs udp.check) (ntohs check),
      )

  unfoldable pub calculate_udp_checksum_full_debug :
      IpHeader → UdpHeader → List ℕ → UdpHeader × Print
  unfolding udp_csum_partial udp_csum_pseudo_header
  calculate_udp_checksum_full_debug ip udp body =
      let cleared = record udp { check = 0 } in
      let csum = udp_csum_partial cleared body 0 in
      let check = udp_csum_pseudo_header ip cleared csum in
      (record udp { check = check }, csum_line " udp csum: " (ntohs udp.check) (ntohs check))

  -- The prints at the end of each branch.
  unfoldable pub print_outgoing :
      String
      → SkBuff
      → BufferInfo
      → IpHeader
      → UdpHeader
      → (ip_line udp_line : Print) → SkBuff × List Print
  unfolding debug_print_skb
  print_outgoing msg skb info ip udp ip_line udp_line = (
    store_headers ip udp skb,
    ip_line ∷ udp_line ∷ map line (debug_print_skb msg skb info ip udp),
  )

  unfoldable pub handle_outgoing_checksums_debug :
      SkBuff → BufferInfo → IpHeader → UdpHeader → SkBuff × List Print
  unfolding calculate_ip_checksum_debug calculate_pseudo_header_udp_checksum_debug
      calculate_udp_checksum_full_debug print_outgoing
  handle_outgoing_checksums_debug skb info ip udp =
      let (ip', ip_line) = calculate_ip_checksum_debug ip in
      let (offloaded, pseudo_line) = calculate_pseudo_header_udp_checksum_debug ip' udp in
      let (full, full_line) = calculate_udp_checksum_full_debug ip' udp skb.body in
      let rest =
        if not (is_local_out skb) && can_hw_csum skb
        then print_outgoing " going from CHECKSUM_UNNECESSARY to CHECKSUM_PARTIAL"
            (record skb {
              ip_summed = checksum_partial;
              csum_start = skb.transport_offset;
              csum_offset = udp_check_offset;
            })
            info ip' offloaded ip_line pseudo_line
        else print_outgoing " keeping CHECKSUM_UNNECESSARY" skb info ip' full ip_line full_line in
      elim skb.ip_summed [
        | checksum_partial ↦
            print_outgoing " keeping CHECKSUM_PARTIAL" skb info ip' offloaded ip_line pseudo_line
        | _ ↦ rest
      ]

  -- The `switch` on the verdict of the hook function.
  unfoldable pub conclude_debug : ℕ → SkBuff → BufferInfo → List Print → Outcome → DebugResult
  unfolding handle_outgoing_checksums_debug
  conclude_debug hook skb info printed out =
      let written = store_headers out.ip out.udp (record skb { body = out.body }) in
      let result = λ (v : Verdict) (s : SkBuff) (more : List Print).
        let r : DebugResult = record {
          verdict = v;
          skb = some s;
          table = out.table;
          printed = printed ++ more;
        } in
        r in
      let rerouted = ip_route_me_harder written in
      let reroute : DebugResult = elim rerouted.1 [
        | none ↦ result nf_accept rerouted.0 []
        | some err ↦
            result (nf_drop_err err) rerouted.0 (text " ip_route_me_harder FAILED -> DROP" ∷ [])
      ] in
      elim out.verdict [
        | nf_accept ↦
            if hook == nf_ip_local_out
            then reroute
            else (if hook == nf_ip_post_routing
                then (let (sent, more) =
                      handle_outgoing_checksums_debug written info out.ip out.udp in
                    result nf_accept sent more)
                else result nf_accept written [])
        | nf_drop ↦ result nf_drop written (text " packet could not be routed -> DROP" ∷ [])
        | nf_drop_err err ↦ result nf_accept written []
      ]

  -- From the lookup of the configuration and the route on.
  unfoldable pub mangle_debug :
      String
      → DebugFn
      → ℕ
      → SkBuff
      → BufferInfo
      → IpHeader
      → UdpHeader
      → Config
      → Table
      → Option DebugResult
  unfolding receive_debug conclude_debug
  mangle_debug name fn hook skb info ip udp config table =
      let cfg = config_get config in
      let (ent, route) = get_routing udp.dest cfg table in
      elim route [
        | none ↦ some (untouched_debug (some skb) table)
        | some rt ↦
            let (skb', lines, alerts) = receive_debug name hook skb info ip udp in
            fn ip udp skb'.body ent rt table >>= λ called.
            let printed = map line lines ++ map alert alerts ++ called.1 in
            some (conclude_debug hook skb' info printed called.0)
      ]

  unfoldable pub generic_hook_func_debug :
      Option DebugHook → Option SkBuff → BufferInfo → ℕ → Config → Table → Option DebugResult
  unfolding get_ip_and_udp_headers mangle_debug
  generic_hook_func_debug none skb info hook config table = some (untouched_debug skb table)
  generic_hook_func_debug (some mangle_hook) none info hook config table =
      some (untouched_debug none table)
  generic_hook_func_debug (some mangle_hook) (some skb) info hook config table =
      let pass : Option DebugResult = some (untouched_debug (some skb) table) in
      elim mangle_hook.name [
        | none ↦ pass
        | some name ↦ elim (get_ip_and_udp_headers (some skb)) [
          | none ↦ pass
          | some (ip, udp) ↦ elim mangle_hook.fn [
            | none ↦ pass
            | some fn ↦ mangle_debug name fn hook skb info ip udp config table
          ]
        ]
      ]
