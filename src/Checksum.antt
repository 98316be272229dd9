-- ===== src/Checksum.antt =====
-- Checksums (src/checksum.c), as built without DEBUG. A failed verification only prints: the model
-- returns what is printed. The sums over UDP go by the length in the UDP header, as in the code; where
-- that is more than the packet holds, csum_partial reads behind its end, which is no fault here.
pub mod Laws
pub mod Device
use lbm_rtp_proxy.Base.{
  ℕ, ◌-◌, ◌^◌, Bool, true, false, not, ◌&&◌, Option, none, some, List, [], ◌∷◌, ◌++◌,
}
use lbm_rtp_proxy.Base.{◌==◌, is_set, if◌then◌else◌}
use lbm_rtp_proxy.Kernel.{Kernel, ip_fast_csum, csum_partial, csum_tcpudp_magic}
use lbm_rtp_proxy.Net.ByteOrder.{ByteOrder, ntohs}
use lbm_rtp_proxy.Packet.{
  IpHeader, UdpHeader, SkBuff, Summed, checksum_none, checksum_unnecessary, checksum_complete,
  checksum_partial,
}

abbrev pub ipproto_udp : ℕ
ipproto_udp = 17

-- `CSUM_MANGLED_0`, `~x` on a `__sum16`, and `offsetof(struct udphdr, check)`.
abbrev pub csum_mangled_0 : ℕ
csum_mangled_0 = 2 ^ 16 - 1

abbrev pub complement16 : ℕ → ℕ
complement16 x = 2 ^ 16 - 1 - x

abbrev pub udp_check_offset : ℕ
udp_check_offset = 6

-- A line that `verify_checksums` prints, with the checksum that was found.
pub data Warning : Type 0 where
  ip_check_failed udp_check_failed : ℕ → Warning

unfoldable pub can_hw_csum : SkBuff → Bool
can_hw_csum skb = elim skb.dev [ none ↦ true | some features ↦ features ]

unfoldable pub is_local_out : SkBuff → Bool
is_local_out skb = elim skb.route [ none ↦ false | some local ↦ local ]

module _ ⦃o : ByteOrder⦄ ⦃k : Kernel⦄ where
  unfoldable pub udp_csum_partial : UdpHeader → List ℕ → ℕ → ℕ
  udp_csum_partial udp body csum = csum_partial udp body (ntohs udp.len) csum

  unfoldable pub udp_csum_pseudo_header_partial : IpHeader → UdpHeader → ℕ
  udp_csum_pseudo_header_partial ip udp =
      complement16 (csum_tcpudp_magic ip.saddr ip.daddr (ntohs udp.len) ipproto_udp 0)

  unfoldable pub udp_csum_pseudo_header : IpHeader → UdpHeader → ℕ → ℕ
  udp_csum_pseudo_header ip udp csum =
      let sum = csum_tcpudp_magic ip.saddr ip.daddr (ntohs udp.len) ipproto_udp csum in
      if sum == 0 then csum_mangled_0 else sum

  unfoldable pub verify_checksums : IpHeader → UdpHeader → List ℕ → List Warning
  unfolding udp_csum_partial udp_csum_pseudo_header
  verify_checksums ip udp body =
      let ip_check = ip_fast_csum ip in
      let udp_check = complement16 (udp_csum_pseudo_header ip udp (udp_csum_partial udp body 0)) in
      (if ip_check == 0 then [] else ip_check_failed ip_check ∷ [])
      ++ (if is_set udp.check && not (udp_check == 0) then udp_check_failed udp_check ∷ [] else [])

  unfoldable pub handle_incoming_checksums : SkBuff → IpHeader → UdpHeader → SkBuff × List Warning
  unfolding verify_checksums
  handle_incoming_checksums skb ip udp = elim skb.ip_summed [
    | checksum_none ↦ (skb, verify_checksums ip udp skb.body)
    | checksum_unnecessary ↦ (skb, [])
    | checksum_complete ↦ (record skb { ip_summed = checksum_unnecessary }, [])
    | checksum_partial ↦ (skb, [])
  ]

  unfoldable pub calculate_ip_checksum : IpHeader → IpHeader
  calculate_ip_checksum ip =
      let cleared = record ip { check = 0 } in record cleared { check = ip_fast_csum cleared }

  unfoldable pub calculate_pseudo_header_udp_checksum : IpHeader → UdpHeader → UdpHeader
  unfolding udp_csum_pseudo_header_partial
  calculate_pseudo_header_udp_checksum ip udp = record udp {
    check = udp_csum_pseudo_header_partial ip udp;
  }

  unfoldable pub calculate_udp_checksum_full : IpHeader → UdpHeader → List ℕ → UdpHeader
  unfolding udp_csum_partial udp_csum_pseudo_header
  calculate_udp_checksum_full ip udp body =
      let cleared = record udp { check = 0 } in
      let csum = udp_csum_partial cleared body 0 in
      record cleared { check = udp_csum_pseudo_header ip cleared csum }

  -- The buffer, with the headers written back.
  unfoldable pub handle_outgoing_checksums : SkBuff → IpHeader → UdpHeader → SkBuff
  handle_outgoing_checksums skb ip udp =
      let ip' = calculate_ip_checksum ip in
      let offloaded = calculate_pseudo_header_udp_checksum ip' udp in
      let full = calculate_udp_checksum_full ip' udp skb.body in
      let rest =
        if not (is_local_out skb) && can_hw_csum skb
        then record skb {
          ip = some ip';
          udp = some offloaded;
          ip_summed = checksum_partial;
          csum_start = skb.transport_offset;
          csum_offset = udp_check_offset;
        }
        else record skb { ip = some ip'; udp = some full } in
      elim skb.ip_summed [
        | checksum_partial ↦ record skb { ip = some ip'; udp = some offloaded }
        | _ ↦ rest
      ]
