-- ===== src/Checksum/Laws.antt =====
-- Theorems about the checksums that src/checksum.c fills in and verifies.
use lbm_rtp_proxy.Base.{ℕ, ◌≤◌, Bool, true, false, not, ◌&&◌, ◌||◌, some, List, [], ◌≡◌, ◌≢◌}
use lbm_rtp_proxy.Base.{arith, if◌then◌else◌, ◌==◌}
use lbm_rtp_proxy.Kernel.{Kernel, csum_partial, csum_tcpudp_magic}
use lbm_rtp_proxy.Net.ByteOrder.{ByteOrder, ntohs}
use lbm_rtp_proxy.Packet.{IpHeader, UdpHeader, SkBuff, flow, flow_of, Summed, checksum_partial}
use lbm_rtp_proxy.Checksum.{
  ipproto_udp, csum_mangled_0, can_hw_csum, is_local_out, verify_checksums, calculate_ip_checksum,
  calculate_pseudo_header_udp_checksum, calculate_udp_checksum_full, handle_incoming_checksums,
  handle_outgoing_checksums,
}

abbrev is_partial : Summed → Bool
is_partial checksum_partial = true
is_partial _ = false

-- The device finishes the sum of a buffer that asks for it already, or that leaves the machine by
-- a device that can.
pub is_offloaded : SkBuff → Bool
unfolding is_local_out can_hw_csum
is_offloaded skb = is_partial skb.ip_summed || (not (is_local_out skb) && can_hw_csum skb)

module _ ⦃o : ByteOrder⦄ ⦃k : Kernel⦄ where
  -- Every packet leaves with the IP checksum computed, and the UDP checksum left for the device to
  -- finish or computed in full: the former where the buffer asks for it already, or leaves the
  -- machine by a device that can; the mark for the device is set in the former case and left as it
  -- was in the latter, and the bytes stay.
  pub handle_outgoing_checksums_lem :
      (skb : SkBuff) (ip : IpHeader) (udp : UdpHeader)
      → let ip' = calculate_ip_checksum ip in
        let s = handle_outgoing_checksums skb ip udp in
        (s.ip ≡ some ip')
        × (s.udp
            ≡ some (
                if is_offloaded skb
                then calculate_pseudo_header_udp_checksum ip' udp
                else calculate_udp_checksum_full ip' udp skb.body))
        × (s.ip_summed ≡ (if is_offloaded skb then checksum_partial else skb.ip_summed))
        × (s.body ≡ skb.body)
  unfolding handle_outgoing_checksums is_offloaded
  handle_outgoing_checksums_lem skb ip udp = ground arith

  pub handle_incoming_checksums-body :
      (skb : SkBuff) (ip : IpHeader) (udp : UdpHeader)
      → (handle_incoming_checksums skb ip udp).0.body ≡ skb.body
  unfolding handle_incoming_checksums
  handle_incoming_checksums-body skb ip udp = ground arith

  -- Where the packet goes is left alone.
  pub handle_outgoing_checksums-flow :
      (skb : SkBuff) (ip : IpHeader) (udp : UdpHeader)
      → flow (some (handle_outgoing_checksums skb ip udp)) ≡ some (flow_of ip udp)
  unfolding handle_outgoing_checksums calculate_ip_checksum calculate_udp_checksum_full
      calculate_pseudo_header_udp_checksum
  handle_outgoing_checksums-flow skb ip udp = ground arith

  -- With a UDP length of at least the header's, both checksums are filled in such that they verify,
  -- and the UDP checksum is not zero, which would mean that there is none.
  pub verify-calculate :
      (ip : IpHeader) (udp : UdpHeader) (body : List ℕ)
      → 8 ≤ ntohs udp.len
      → let ip' = calculate_ip_checksum ip in
        let udp' = calculate_udp_checksum_full ip' udp body in
        (verify_checksums ip' udp' body ≡ []) × (udp'.check ≢ 0)
  unfolding verify_checksums calculate_ip_checksum calculate_udp_checksum_full
  verify-calculate ip udp body long =
      let cleared = record udp { check = 0 } in
      let sum =
        csum_tcpudp_magic ip.saddr ip.daddr (ntohs udp.len) ipproto_udp
          (csum_partial cleared body (ntohs udp.len) 0) in
      ground (
        arith,
        k.ip_fast_csum-filled ip,
        k.csum_tcpudp_magic-filled ip.saddr ip.daddr (ntohs udp.len) ipproto_udp
            (if sum == 0 then csum_mangled_0 else sum) udp body,
      )
