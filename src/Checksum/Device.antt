-- ===== src/Checksum/Device.antt =====
-- The checksums of a packet that src/checksum.c sends out, behind the device that it leaves through.
use lbm_rtp_proxy.Base.{
  ℕ, ◌+◌, ◌-◌, ◌^◌, some, List, [], length, ◌≡◌, ◌≢◌, ◌⊎◌, inl, inr, refl, arith, ◌==◌,
  if◌then◌else◌,
}
use lbm_rtp_proxy.Checksum.{
  verify_checksums, calculate_ip_checksum, calculate_pseudo_header_udp_checksum,
  calculate_udp_checksum_full, udp_csum_partial, udp_csum_pseudo_header,
  udp_csum_pseudo_header_partial, handle_outgoing_checksums,
}
use lbm_rtp_proxy.Checksum.Laws.{verify-calculate}
use lbm_rtp_proxy.Kernel.{Kernel, csum_partial, csum_tcpudp_magic}
use lbm_rtp_proxy.Net.ByteOrder.{ByteOrder, ntohs}
use lbm_rtp_proxy.Packet.{IpHeader, UdpHeader, SkBuff, flow_of, checksum_partial}

module _ ⦃o : ByteOrder⦄ ⦃k : Kernel⦄ where
  -- The UDP checksum of RFC 768: over the pseudo header and all bytes, a zero sent as all ones.
  abbrev pub rfc768 : IpHeader → UdpHeader → List ℕ → ℕ
  rfc768 ip udp body =
      let sum =
        csum_tcpudp_magic ip.saddr ip.daddr (8 + length body) 17
          (csum_partial (record udp { check = 0 }) body (8 + length body) 0) in
      if sum == 0 then 2 ^ 16 - 1 else sum

  -- A device that finishes checksums, as the kernel documents it: where a buffer is marked
  -- CHECKSUM_PARTIAL, the sum starts at the transport header, and the checksum field, six bytes
  -- further, holds the sum of the pseudo header, it puts the checksum there. Other buffers it leaves.
  pub record IsDevice (device : SkBuff → SkBuff) : Type 0 where
    pub finishes :
        (skb : SkBuff) (ip : IpHeader) (udp : UdpHeader)
        → skb.ip ≡ some ip
        → skb.udp ≡ some udp
        → skb.ip_summed ≡ checksum_partial
        → skb.csum_start ≡ skb.transport_offset
        → skb.csum_offset ≡ 6
        → udp.check ≡ 2 ^ 16 - 1 - csum_tcpudp_magic ip.saddr ip.daddr (8 + length skb.body) 17 0
        → device skb ≡ record skb { udp = some (record udp { check = rfc768 ip udp skb.body }) }
    pub leaves : (skb : SkBuff) → skb.ip_summed ≢ checksum_partial → device skb ≡ skb

  -- What leaves the device.
  pub record IsVerified (ip : IpHeader) (udp : UdpHeader) (body : List ℕ) (sent : SkBuff)
      : Type 0 where
    pub ip' : IpHeader
    pub udp' : UdpHeader
    pub has_ip : sent.ip ≡ some ip'
    pub has_udp : sent.udp ≡ some udp'
    pub verifies : verify_checksums ip' udp' sent.body ≡ []
    pub is_there : udp'.check ≢ 0
    pub same_flow : flow_of ip' udp' ≡ flow_of ip udp
    pub same_body : sent.body ≡ body

  calculate_full-rfc768 :
      (ip : IpHeader) (udp : UdpHeader) (body : List ℕ)
      → ntohs udp.len ≡ 8 + length body
      → calculate_udp_checksum_full ip udp body ≡ record udp { check = rfc768 ip udp body }
  unfolding calculate_udp_checksum_full udp_csum_partial udp_csum_pseudo_header
  calculate_full-rfc768 ip udp body honest = rw honest refl

  -- The two ways in which handle_outgoing_checksums leaves a buffer.
  outgoing_cases :
      (skb : SkBuff) (ip : IpHeader) (udp : UdpHeader)
      → let s = handle_outgoing_checksums skb ip udp in
        let ip' = calculate_ip_checksum ip in
        ((s.ip_summed ≢ checksum_partial)
          × (s ≡ record skb {
            ip = some ip';
            udp = some (calculate_udp_checksum_full ip' udp skb.body);
          }))
        ⊎ ((s.ip ≡ some ip')
            × (s.udp ≡ some (calculate_pseudo_header_udp_checksum ip' udp))
            × (s.body ≡ skb.body)
            × (s.ip_summed ≡ checksum_partial)
            × ((skb.ip_summed ≡ checksum_partial
                  → (skb.csum_start ≡ skb.transport_offset) × (skb.csum_offset ≡ 6))
                → (s.csum_start ≡ s.transport_offset) × (s.csum_offset ≡ 6)))
  unfolding handle_outgoing_checksums
  outgoing_cases skb ip udp = ground arith

  calculate_full-IsVerified :
      (ip : IpHeader) (udp : UdpHeader) (body : List ℕ) (sent : SkBuff)
      → ntohs udp.len ≡ 8 + length body
      → let ip' = calculate_ip_checksum ip in
        sent.ip ≡ some ip'
        → sent.udp ≡ some (calculate_udp_checksum_full ip' udp body)
        → sent.body ≡ body
        → IsVerified ip udp body sent
  unfolding calculate_ip_checksum calculate_udp_checksum_full
  calculate_full-IsVerified ip udp body sent honest hip hudp hbody =
      let checked = verify-calculate ip udp body (rw honest (omega arith)) in
      record {
        ip' = calculate_ip_checksum ip;
        udp' = calculate_udp_checksum_full (calculate_ip_checksum ip) udp body;
        has_ip = hip;
        has_udp = hudp;
        verifies = rw hbody checked.0;
        is_there = checked.1;
        same_flow = refl;
        same_body = hbody;
      }

  -- The device makes the full checksum of one that was left to it.
  finished_by :
      (device : SkBuff → SkBuff) (skb : SkBuff) (ip : IpHeader) (udp : UdpHeader)
      → IsDevice device
      → ntohs udp.len ≡ 8 + length skb.body
      → (s : SkBuff)
      → let ip' = calculate_ip_checksum ip in
        s.ip ≡ some ip'
        → s.udp ≡ some (calculate_pseudo_header_udp_checksum ip' udp)
        → s.body ≡ skb.body
        → s.ip_summed ≡ checksum_partial
        → (s.csum_start ≡ s.transport_offset) × (s.csum_offset ≡ 6)
        → device s ≡ record s { udp = some (calculate_udp_checksum_full ip' udp skb.body) }
  unfolding calculate_ip_checksum calculate_pseudo_header_udp_checksum
      udp_csum_pseudo_header_partial
  finished_by device skb ip udp d honest s hip hudp hbody summed (start, offset) =
      rw
        (
          d.finishes s (calculate_ip_checksum ip)
              (calculate_pseudo_header_udp_checksum (calculate_ip_checksum ip) udp) hip hudp summed
              start offset (rw (hbody, ← honest) refl),
          hbody,
          calculate_full-rfc768 (calculate_ip_checksum ip) udp skb.body honest,
        )
        refl

  -- Behind a device that finishes checksums as the kernel documents it, every packet that
  -- handle_outgoing_checksums lets go carries an IP and a UDP checksum that verify, the latter not
  -- zero, with its addresses, ports and bytes as they were; whether the sum was left to the device
  -- or not. The length field is that of the bytes, and a buffer that is marked CHECKSUM_PARTIAL
  -- before says where the sum starts and where it goes.
  pub handle_outgoing_checksums-IsVerified :
      (device : SkBuff → SkBuff) (skb : SkBuff) (ip : IpHeader) (udp : UdpHeader)
      → IsDevice device
      → ntohs udp.len ≡ 8 + length skb.body
      → (skb.ip_summed ≡ checksum_partial
          → (skb.csum_start ≡ skb.transport_offset) × (skb.csum_offset ≡ 6))
      → IsVerified ip udp skb.body (device (handle_outgoing_checksums skb ip udp))
  handle_outgoing_checksums-IsVerified device skb ip udp d honest marked =
      let ip' = calculate_ip_checksum ip in
      let s = handle_outgoing_checksums skb ip udp in
      elim (outgoing_cases skb ip udp) [
        | inl (other, left) ↦
            calculate_full-IsVerified ip udp skb.body (device s) honest
              (rw (d.leaves s other, left) refl) (rw (d.leaves s other, left) refl)
              (rw (d.leaves s other, left) refl)
        | inr (hip, hudp, hbody, summed, marks) ↦
            let finished =
              finished_by device skb ip udp d honest s hip hudp hbody summed (marks marked) in
            calculate_full-IsVerified ip udp skb.body (device s) honest (rw finished hip)
              (rw finished refl) (rw finished hbody)
      ]
