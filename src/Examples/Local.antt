-- ===== src/Examples/Local.antt =====
-- Packets of the machine itself, to the proxy port of the calls.
use lbm_rtp_proxy.Base.{◌≡◌, refl, some, [], ◌∷◌, take, arith}
use lbm_rtp_proxy.Checksum.{
  calculate_ip_checksum, calculate_udp_checksum_full, verify_checksums, ip_check_failed,
  udp_check_failed,
}
use lbm_rtp_proxy.Examples.Calls.{addr, proxy, row, calls, ip, udp, rtp, packet, row_valid}
use lbm_rtp_proxy.Examples.Machine.{swap16, little_endian, inet}
use lbm_rtp_proxy.Mangle.{generic_hook_func}
use lbm_rtp_proxy.Mangle.LocalIn.{summed, local_in-plain}
use lbm_rtp_proxy.Mangle.LocalOut.{locally_sent, local_out-plain}
use lbm_rtp_proxy.Packet.{IpHeader, UdpHeader, nf_accept}
use lbm_rtp_proxy.Rewrite.Hooks.{local_in_hook, local_out_hook, nf_ip_local_in, nf_ip_local_out}
use lbm_rtp_proxy.Rewrite.Matching.{outgoing_route}
use lbm_rtp_proxy.Table.Routing.Laws.{plain_routing}

local_out-plain_example :
    generic_hook_func (some local_out_hook) (some packet) nf_ip_local_out proxy calls
    ≡ some (
        locally_sent packet ip udp proxy calls row
          (plain_routing (swap16 5004) proxy row)
          outgoing_route)
local_out-plain_example =
    local_out-plain packet ip udp proxy calls refl
      (record { has_ip = refl; has_udp = refl; protocol = refl }) row_valid (ground arith)

local_in-plain_example :
    summed (generic_hook_func (some local_in_hook) (some packet) nf_ip_local_in proxy calls)
    ≡ some (
      nf_accept,
      record {
        src_addr = addr 192 0 2 1;
        src_port = swap16 5004;
        dst_addr = addr 10 0 0 1;
        dst_port = swap16 6000;
      },
      0,
      0,
    )
local_in-plain_example =
    local_in-plain packet ip udp proxy calls refl
      (record { has_ip = refl; has_udp = refl; protocol = refl }) row_valid (ground arith)
      (omega arith) (omega arith) (omega arith) (omega arith)

-- The headers with their checksums filled in, and as LOCAL_IN leaves them.
abbrev full_ip : IpHeader
full_ip = calculate_ip_checksum ip

abbrev full_udp : UdpHeader
full_udp = calculate_udp_checksum_full full_ip udp rtp

abbrev left_ip : IpHeader
left_ip = record full_ip { saddr = addr 192 0 2 1 }

abbrev left_udp : UdpHeader
left_udp = record full_udp { source = swap16 5004; dest = swap16 6000 }

arrived_verifies : verify_checksums full_ip full_udp rtp ≡ []
unfolding verify_checksums calculate_ip_checksum calculate_udp_checksum_full take
arrived_verifies = refl

delivered_fails :
    verify_checksums left_ip left_udp rtp ≡ ip_check_failed 1352 ∷ udp_check_failed 51903 ∷ []
unfolding verify_checksums calculate_ip_checksum calculate_udp_checksum_full take
delivered_fails = refl
