-- ===== src/Rewrite/Rtp/Control.antt =====
-- `struct rtcp_packet` of src/rtcp_packet.h in memory, and what rewrite_rtp of src/rewrite.c does to
-- such a packet.
use lbm_rtp_proxy.Base.{
  ℕ, ◌/◌, ◌%◌, ◌^◌, ◌≤◌, Option, none, some, List, ◌∷◌, ◌≡◌, refl, drop, arith,
}
use lbm_rtp_proxy.Net.ByteOrder.{ByteOrder, htons, ntohs, load16, load32, byte0, byte1}
use lbm_rtp_proxy.Packet.{UdpHeader}
use lbm_rtp_proxy.Rewrite.Rtp.{rewrite_rtp}
use lbm_rtp_proxy.Rewrite.Rtp.Laws.{load16-bytes}
use lbm_rtp_proxy.Rewrite.Smoothing.{sent, after, sent-lt}
use lbm_rtp_proxy.Table.{Table, set_row}

abbrev pub sr_packet_type : ℕ
sr_packet_type = 200

abbrev pub rr_packet_type : ℕ
rr_packet_type = 201

abbrev pub sdes_packet_type : ℕ
sdes_packet_type = 202

abbrev pub bye_packet_type : ℕ
bye_packet_type = 203

abbrev pub app_packet_type : ℕ
app_packet_type = 204

-- Under both bit field layouts `V` is the top of the first byte.
pub record RtcpPacket : Type 0 where
  pub version : ℕ
  pub padding : ℕ
  pub report_count : ℕ
  pub packet_type : ℕ
  pub words : ℕ
  pub ssrc : ℕ

module _ ⦃o : ByteOrder⦄ where
  -- The header, where eight bytes are there; `words` is the field `length`.
  unfoldable pub rtcp_packet : List ℕ → Option RtcpPacket
  rtcp_packet (b0 ∷ b1 ∷ b2 ∷ b3 ∷ b4 ∷ b5 ∷ b6 ∷ b7 ∷ rest) = some (record {
    version = b0 / 2 ^ 6;
    padding = b0 / 2 ^ 5 % 2;
    report_count = b0 % 2 ^ 5;
    packet_type = b1;
    words = load16 b2 b3;
    ssrc = load32 b4 b5 b6 b7;
  })
  rtcp_packet _ = none

  -- Only the port tells RTCP from RTP: on an even port, in a datagram with room for an RTP header,
  -- the length of an RTCP packet of version 2, of any packet type, is taken for a sequence number
  -- and replaced by the one that the row sends, and the row takes note of it; the other fields and
  -- the bytes behind the header stay.
  pub rewrite_rtp-renumbers_rtcp :
      (udp : UdpHeader) (body : List ℕ) (index : ℕ) (t : Table) (p : RtcpPacket)
      → rtcp_packet body ≡ some p
      → p.version ≡ 2
      → ntohs index % 2 ≡ 0
      → 20 ≤ ntohs udp.len
      → (body' : List ℕ) × (rewrite_rtp udp body index t
          ≡ some (body', set_row index (after (t index) (ntohs p.words)) t))
        × (rtcp_packet body' ≡ some (record p { words = htons (sent (t index) (ntohs p.words)) }))
        × (drop 8 body' ≡ drop 8 body)
  unfolding rewrite_rtp rtcp_packet
  rewrite_rtp-renumbers_rtcp udp (b0 ∷ b1 ∷ b2 ∷ b3 ∷ b4 ∷ b5 ∷ b6 ∷ b7 ∷ rest) index t p e v even
        long =
      let s : ℕ = sent (t index) (ntohs p.words) in
      (
        b0 ∷ b1 ∷ byte0 (htons s) ∷ byte1 (htons s) ∷ b4 ∷ b5 ∷ b6 ∷ b7 ∷ rest,
        ground arith,
        ground (arith, load16-bytes s (sent-lt (t index) (ntohs p.words))),
        refl,
      )
  rewrite_rtp-renumbers_rtcp udp _ index t p e v even long = cc
