-- ===== src/Examples/Debug.antt =====
-- The packet of the calls in a DEBUG build.
use lbm_rtp_proxy.Base.{◌≡◌, some, [], arith}
use lbm_rtp_proxy.Debug.{BufferInfo}
use lbm_rtp_proxy.Debug.Incoming.{handle_incoming_checksums_debug}
use lbm_rtp_proxy.Debug.Laws.{incoming-outgoing}
use lbm_rtp_proxy.Debug.Outgoing.{handle_outgoing_checksums_debug}
use lbm_rtp_proxy.Examples.Calls.{ip, udp, packet}
use lbm_rtp_proxy.Examples.Machine.{little_endian, inet}
use lbm_rtp_proxy.Packet.{IpHeader, UdpHeader}

abbrev info : BufferInfo
info = record {
  id = 7;
  ttl = 64;
  dev_name = "(null)";
  dst = 0;
  data_offset = 0;
  tail_offset = 40;
  end_offset = 64;
  network_offset = 0;
}

incoming-outgoing_example :
    let sent = (handle_outgoing_checksums_debug packet info ip udp).0 in
    (ip' : IpHeader) × (udp' : UdpHeader) × (sent.ip ≡ some ip')
    × (sent.udp ≡ some udp')
    × ((handle_incoming_checksums_debug sent ip' udp').1 ≡ [])
incoming-outgoing_example = incoming-outgoing packet info ip udp (omega arith) (λ e. cc)
