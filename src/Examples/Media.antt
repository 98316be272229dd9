-- ===== src/Examples/Media.antt =====
-- An RTP packet of a call, from the sender to the SBC.
use lbm_rtp_proxy.Base.{◌+◌, ◌*◌, ◌^◌, ◌≡◌, refl, some, List, [], ◌∷◌, arith}
use lbm_rtp_proxy.Examples.Calls.{proxy, row, calls, ip, udp, rtp, packet, row_valid}
use lbm_rtp_proxy.Examples.Machine.{swap16, little_endian, inet}
use lbm_rtp_proxy.Mangle.MediaStream.{Departure, Arrival, forward_all, IsMedia, Relayed, sbc_flow}
use lbm_rtp_proxy.Mangle.MediaStream.Relay.{forward_all-media}
use lbm_rtp_proxy.Rewrite.Matching.{outgoing_route}
use lbm_rtp_proxy.Rewrite.Matching.Laws.{plain_route}
use lbm_rtp_proxy.Rewrite.Rtp.{RtpPacket, rtp_packet}
use lbm_rtp_proxy.Rewrite.Smoothing.Reference.{started}
use lbm_rtp_proxy.Table.{Table}

abbrev header : RtpPacket
header = record {
  version = 2;
  padding = 0;
  extension = 0;
  csrc_count = 0;
  marker = 0;
  payload_type = 0;
  sn = swap16 7;
  ts = 0;
  ssrc = 4 * 2 ^ 24 + 3 * 2 ^ 16 + 2 * 2 ^ 8 + 1;
}

header_of_rtp : rtp_packet rtp ≡ some header
unfolding rtp_packet
header_of_rtp = refl

abbrev arrival : Arrival
arrival = record { skb = packet; ip = ip; udp = udp; rtp = header }

from_receiver : plain_route row ip.saddr udp.source ≡ outgoing_route
from_receiver = ground arith

arrival-IsMedia : IsMedia (swap16 5004) row arrival
arrival-IsMedia = record {
  headers = record { has_ip = refl; has_udp = refl; protocol = refl };
  dest = refl;
  from_sender = from_receiver;
  header = header_of_rtp;
  bytes = ground arith;
  version = refl;
  room = omega arith;
  fits = omega arith;
}

-- The same packet twice, through a row that is not in use.
forward_all-media_example :
    (departures : List Departure) × (t' : Table) × (forward_all (packet ∷ packet ∷ []) proxy calls
      ≡ some (departures, t'))
    × Relayed
        (sbc_flow proxy (swap16 5004) row)
        (arrival ∷ arrival ∷ [])
        (started row (7 ∷ 7 ∷ []))
        departures
forward_all-media_example =
    forward_all-media proxy (swap16 5004) (λ s. refl) (omega arith) (omega arith) (omega arith)
      (omega arith) (omega arith) (arrival ∷ arrival ∷ []) calls row_valid (ground arith)
      (omega arith) (arrival-IsMedia, (arrival-IsMedia, tt))
