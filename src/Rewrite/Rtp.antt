-- ===== src/Rewrite/Rtp.antt =====
-- `struct rtp_packet` of src/rtp_packet.h in memory, and `rewrite_rtp` of src/rewrite.c. The bytes
-- behind the UDP header are a list; `none` is a read or a write behind its end, which the code does
-- not exclude by itself, since it goes by the length in the UDP header.
pub mod Laws
pub mod Control
use lbm_rtp_proxy.Base.{ℕ, ◌-◌, ◌/◌, ◌%◌, ◌^◌, Option, none, some, List, [], ◌∷◌}
use lbm_rtp_proxy.Base.{◌>>=◌, leb, ◌==◌, is_set, if◌then◌else◌}
use lbm_rtp_proxy.Net.ByteOrder.{ByteOrder, htons, ntohs, load16, load32, byte0, byte1}
use lbm_rtp_proxy.Packet.{UdpHeader}
use lbm_rtp_proxy.Table.{Table, table_atomically}
use lbm_rtp_proxy.Rewrite.Smoothing.{set_sn_function, SetSnArg}

-- `struct rtp_packet`. Under both bit field layouts `V` is the top of the first byte and `M` that
-- of the second.
pub record RtpPacket : Type 0 where
  pub version : ℕ
  pub padding : ℕ
  pub extension : ℕ
  pub csrc_count : ℕ
  pub marker : ℕ
  pub payload_type : ℕ
  pub sn : ℕ
  pub ts : ℕ
  pub ssrc : ℕ

abbrev pub udphdr_size : ℕ
udphdr_size = 8

abbrev pub rtp_packet_size : ℕ
rtp_packet_size = 12

-- `packet->V`
unfoldable pub packet_version : List ℕ → Option ℕ
packet_version [] = none
packet_version (b0 ∷ rest) = some (b0 / 2 ^ 6)

module _ ⦃o : ByteOrder⦄ where
  -- `packet->SN`, as it lies in memory.
  unfoldable pub packet_sn : List ℕ → Option ℕ
  packet_sn (b0 ∷ b1 ∷ b2 ∷ b3 ∷ rest) = some (load16 b2 b3)
  packet_sn _ = none

  -- `packet->SN = sn`
  unfoldable pub store_sn : ℕ → List ℕ → Option (List ℕ)
  store_sn sn (b0 ∷ b1 ∷ b2 ∷ b3 ∷ rest) = some (b0 ∷ b1 ∷ byte0 sn ∷ byte1 sn ∷ rest)
  store_sn sn _ = none

  -- The whole header, where twelve bytes are there.
  unfoldable pub rtp_packet : List ℕ → Option RtpPacket
  rtp_packet (b0 ∷ b1 ∷ b2 ∷ b3 ∷ b4 ∷ b5 ∷ b6 ∷ b7 ∷ b8 ∷ b9 ∷ b10 ∷ b11 ∷ rest) = some (record {
    version = b0 / 2 ^ 6;
    padding = b0 / 2 ^ 5 % 2;
    extension = b0 / 2 ^ 4 % 2;
    csrc_count = b0 % 2 ^ 4;
    marker = b1 / 2 ^ 7;
    payload_type = b1 % 2 ^ 7;
    sn = load16 b2 b3;
    ts = load32 b4 b5 b6 b7;
    ssrc = load32 b8 b9 b10 b11;
  })
  rtp_packet _ = none

  -- The innermost branch: an RTP packet of the version that is known.
  unfoldable pub renumber : ℕ → List ℕ → Table → Option (List ℕ × Table)
  unfolding packet_sn store_sn table_atomically
  renumber index body table = do
    raw ← packet_sn body
    let (result, table') =
        table_atomically index (some set_sn_function) (record { sn = ntohs raw }) table
    a ← result
    body' ← store_sn (htons a.sn) body
    some (body', table')

  -- `index & 1` tells RTCP from RTP.
  unfoldable pub rewrite_rtp : UdpHeader → List ℕ → ℕ → Table → Option (List ℕ × Table)
  unfolding packet_version renumber
  rewrite_rtp udp body index table =
      let remaining = ntohs udp.len in
      if leb udphdr_size remaining
      then (if is_set (ntohs index % 2)
          then some (body, table)
          else (if leb rtp_packet_size (remaining - udphdr_size)
              then (packet_version body >>= λ v.
                  if v == 2 then renumber index body table else some (body, table))
              else some (body, table)))
      else some (body, table)
