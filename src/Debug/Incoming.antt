-- ===== src/Debug/Incoming.antt =====
-- Arriving packets in a DEBUG build: the checks of src/checksum.c that are added there, and the lines
-- of generic_hook_func in src/mangle.c that print the packet and look at its checksums.
use Prim.Native.String.{String}
use lbm_rtp_proxy.Base.{ℕ, ◌||◌, List, [], ◌∷◌, ◌++◌, ◌==◌, if◌then◌else◌}
use lbm_rtp_proxy.Checksum.{Warning, verify_checksums, udp_csum_pseudo_header_partial}
use lbm_rtp_proxy.Debug.{BufferInfo, Line, debug_print_skb}
use lbm_rtp_proxy.Kernel.{Kernel, ip_fast_csum}
use lbm_rtp_proxy.Net.ByteOrder.{ByteOrder}
use lbm_rtp_proxy.Packet.{
  IpHeader, UdpHeader, SkBuff, checksum_none, checksum_unnecessary, checksum_complete,
  checksum_partial,
}
use lbm_rtp_proxy.Rewrite.Hooks.{nf_ip_pre_routing, nf_ip_local_out}

-- A line about a failed check: of verify_checksums, or of verify_checksums_partial.
pub data Alert : Type 0 where
  warning : Warning → Alert
  partial_ip_failed : (actual : ℕ) → Alert
  partial_udp_failed : (expected actual : ℕ) → Alert
  unsupported_complete : Alert

abbrev pub warnings : List Warning → List Alert
warnings [] = []
warnings (w ∷ ws) = warning w ∷ warnings ws

module _ ⦃o : ByteOrder⦄ ⦃k : Kernel⦄ where
  unfoldable pub verify_checksums_partial : IpHeader → UdpHeader → List Alert
  unfolding udp_csum_pseudo_header_partial
  verify_checksums_partial ip udp =
      let ip_check = ip_fast_csum ip in
      let udp_check = udp_csum_pseudo_header_partial ip udp in
      (if ip_check == 0 then [] else partial_ip_failed ip_check ∷ [])
      ++ (if udp_check == udp.check then [] else partial_udp_failed udp.check udp_check ∷ [])

  unfoldable pub handle_incoming_checksums_debug :
      SkBuff → IpHeader → UdpHeader → SkBuff × List Alert
  unfolding verify_checksums verify_checksums_partial
  handle_incoming_checksums_debug skb ip udp =
      let verified = warnings (verify_checksums ip udp skb.body) in
      elim skb.ip_summed [
        | checksum_none ↦ (skb, verified)
        | checksum_unnecessary ↦ (skb, verified)
        | checksum_complete ↦
            (record skb { ip_summed = checksum_unnecessary }, unsupported_complete ∷ verified)
        | checksum_partial ↦ (skb, verify_checksums_partial ip udp)
      ]

  -- `debug_print_skb` and the look at the checksums.
  unfoldable pub receive_debug :
      String → ℕ → SkBuff → BufferInfo → IpHeader → UdpHeader → SkBuff × List Line × List Alert
  unfolding debug_print_skb handle_incoming_checksums_debug
  receive_debug name hook skb info ip udp =
      let lines = debug_print_skb name skb info ip udp in
      if hook == nf_ip_pre_routing || hook == nf_ip_local_out
      then (let (skb', alerts) = handle_incoming_checksums_debug skb ip udp in
          (skb', lines, alerts))
      else (skb, lines, [])
