-- ===== src/Examples/Streams.antt =====
-- Sequence numbers and RTP packets of a call.
use lbm_rtp_proxy.Base.{
  ℕ, ◌+◌, ◌-◌, ◌*◌, ◌%◌, ◌^◌, ◌≡◌, refl, none, some, List, [], ◌∷◌, inl, inr, drop, length, arith,
}
use lbm_rtp_proxy.Examples.Machine.{swap16, little_endian}
use lbm_rtp_proxy.Packet.{UdpHeader}
use lbm_rtp_proxy.Rewrite.Rtp.{RtpPacket, rtp_packet, rewrite_rtp}
use lbm_rtp_proxy.Rewrite.Rtp.Laws.{rewrite_rtp-renumbers, rewrite_rtp-overruns}
use lbm_rtp_proxy.Rewrite.Smoothing.{sent, after, sent-hides_loss}
use lbm_rtp_proxy.Rewrite.Smoothing.Reference.{continued, started, sent_all-started}
use lbm_rtp_proxy.Rewrite.Smoothing.Stream.{sent_all, IsConsecutive, sent_all-IsConsecutive}
use lbm_rtp_proxy.Table.{Table, TableEntry, IsEntry, empty_entry, set_row}

-- A row that has sent number 1100 for number 1000, and one that is close to the wrap.
abbrev row : TableEntry
row = record empty_entry { last_sn = 1000; offset = 100; offset_set = 1; entry_used = 1 }

abbrev late_row : TableEntry
late_row = record row { last_sn = 65530 }

row-IsEntry : IsEntry row
row-IsEntry = omega arith

late_row-IsEntry : IsEntry late_row
late_row-IsEntry = omega arith

sent_all-IsConsecutive_example : IsConsecutive 1100 (sent_all row (1001 ∷ 7 ∷ 8 ∷ []))
sent_all-IsConsecutive_example =
    sent_all-IsConsecutive row (1001 ∷ 7 ∷ 8 ∷ []) row-IsEntry (omega arith) (
      omega arith,
      inl refl,
      (omega arith, inr (omega arith, omega arith), (omega arith, inl refl, tt)),
    )

-- A row that was just added, with a random offset.
abbrev fresh_row : TableEntry
fresh_row = record empty_entry { offset = 100; offset_set = 1 }

fresh_row-IsEntry : IsEntry fresh_row
fresh_row-IsEntry = omega arith

started_on : started fresh_row (1001 ∷ 7 ∷ 9 ∷ []) ≡ 1101 ∷ 1102 ∷ 1104 ∷ []
unfolding continued
started_on = refl

sent_all-started_example :
    sent_all fresh_row (1001 ∷ 7 ∷ 9 ∷ []) ≡ started fresh_row (1001 ∷ 7 ∷ 9 ∷ [])
sent_all-started_example =
    sent_all-started fresh_row (1001 ∷ 7 ∷ 9 ∷ []) fresh_row-IsEntry
      (omega arith, (omega arith, (omega arith, tt)))

sent-hides_loss_example :
    (sent late_row ((65530 + 10) % 2 ^ 16) ≡ ((65530 + 100) % 2 ^ 16 + 1) % 2 ^ 16)
    × ((after late_row ((65530 + 10) % 2 ^ 16)).offset ≡ (100 + 2 ^ 16 + 1 - 10) % 2 ^ 16)
sent-hides_loss_example =
    sent-hides_loss late_row 10 late_row-IsEntry (omega arith) (omega arith) (omega arith)
      (omega arith)

abbrev rows : Table
rows = λ i. row

abbrev udp : UdpHeader
udp = record { source = swap16 4000; dest = swap16 5004; len = swap16 22; check = 0 }

-- Number 7 in network order, read by this machine, and two bytes of payload.
abbrev rtp : List ℕ
rtp = 128 ∷ 0 ∷ 0 ∷ 7 ∷ 0 ∷ 0 ∷ 0 ∷ 0 ∷ 1 ∷ 2 ∷ 3 ∷ 4 ∷ 9 ∷ 9 ∷ []

abbrev header : RtpPacket
header = record {
  version = 2;
  padding = 0;
  extension = 0;
  csrc_count = 0;
  marker = 0;
  payload_type = 0;
  sn = swap16 7;
  ts = 0;
  ssrc = 4 * 2 ^ 24 + 3 * 2 ^ 16 + 2 * 2 ^ 8 + 1;
}

header_of_rtp : rtp_packet rtp ≡ some header
unfolding rtp_packet
header_of_rtp = refl

rewrite_rtp-renumbers_example :
    (body' : List ℕ) × (rewrite_rtp udp rtp (swap16 5004) rows
      ≡ some (body', set_row (swap16 5004) (after row 7) rows))
    × (rtp_packet body' ≡ some (record header { sn = swap16 (sent row 7) }))
    × (drop 12 body' ≡ 9 ∷ 9 ∷ [])
    × (length body' ≡ 14)
rewrite_rtp-renumbers_example =
    rewrite_rtp-renumbers udp rtp (swap16 5004) rows header header_of_rtp refl (omega arith)
      (omega arith)

rewrite_rtp-overruns_example : rewrite_rtp udp (128 ∷ 0 ∷ []) (swap16 5004) rows ≡ none
rewrite_rtp-overruns_example =
    rewrite_rtp-overruns udp 128 (0 ∷ []) (swap16 5004) rows refl (omega arith) refl (omega arith)
