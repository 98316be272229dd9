-- ===== src/Rewrite/Rtp/Laws.antt =====
-- What rewrite_rtp of src/rewrite.c reads and writes.
use lbm_rtp_proxy.Base.{ℕ, ◌+◌, ◌/◌, ◌%◌, ◌^◌, ◌≤◌, ◌<◌, ◌≡◌, ◌≢◌, ◌⊎◌, refl, ap, ◌∙◌, sym, arith}
use lbm_rtp_proxy.Base.{none, some, List, [], ◌∷◌, length, drop, All}
use lbm_rtp_proxy.Net.ByteOrder.{ByteOrder, htons, ntohs, load16, byte0, byte1}
use lbm_rtp_proxy.Packet.{UdpHeader}
use lbm_rtp_proxy.Table.{Table, set_row}
use lbm_rtp_proxy.Rewrite.Smoothing.{sent, after, sent-lt}
use lbm_rtp_proxy.Rewrite.Rtp.{RtpPacket, rtp_packet, rewrite_rtp}

abbrev pub IsBytes : List ℕ → Type 0
IsBytes = All (λ b. b < 256)

module _ ⦃o : ByteOrder⦄ where
  -- Where the length in the UDP header is no more than what is there, nothing is read or written
  -- behind the packet's end.
  pub rewrite_rtp-ne-none :
      (udp : UdpHeader) (body : List ℕ) (index : ℕ) (t : Table)
      → ntohs udp.len ≤ 8 + length body
      → rewrite_rtp udp body index t ≢ none
  unfolding rewrite_rtp
  rewrite_rtp-ne-none udp [] index t h = ground arith
  rewrite_rtp-ne-none udp (b0 ∷ []) index t h = ground arith
  rewrite_rtp-ne-none udp (b0 ∷ b1 ∷ []) index t h = ground arith
  rewrite_rtp-ne-none udp (b0 ∷ b1 ∷ b2 ∷ []) index t h = ground arith
  rewrite_rtp-ne-none udp (b0 ∷ b1 ∷ b2 ∷ b3 ∷ rest) index t h = ground arith

  pub load16-bytes : (v : ℕ) → v < 2 ^ 16 → load16 (byte0 (htons v)) (byte1 (htons v)) ≡ htons v
  load16-bytes v h =
      rw (o.byte0-htons v h, o.byte1-htons v h)
        (sym (
            o.htons-ntohs (load16 (v / 256) (v % 256))
              (o.load16-lt _ _ (omega arith) (omega arith)))
          ∙ ap htons (o.ntohs-load16 (v / 256) (v % 256) (omega arith) (omega arith) ∙ omega arith))

  -- In a datagram for an even port whose length field has room for an RTP header, and whose bytes
  -- are an RTP packet of version 2, exactly the sequence number is replaced, by the one that the
  -- row sends; all other fields, what follows the header and its length stay, and the row takes
  -- note of the number. In particular the SSRC stays.
  pub rewrite_rtp-renumbers :
      (udp : UdpHeader) (body : List ℕ) (index : ℕ) (t : Table) (p : RtpPacket)
      → rtp_packet body ≡ some p
      → p.version ≡ 2
      → ntohs index % 2 ≡ 0
      → 20 ≤ ntohs udp.len
      → (body' : List ℕ) × (rewrite_rtp udp body index t
          ≡ some (body', set_row index (after (t index) (ntohs p.sn)) t))
        × (rtp_packet body' ≡ some (record p { sn = htons (sent (t index) (ntohs p.sn)) }))
        × (drop 12 body' ≡ drop 12 body)
        × (length body' ≡ length body)
  unfolding rewrite_rtp rtp_packet
  rewrite_rtp-renumbers udp (b0 ∷ b1 ∷ b2 ∷ b3 ∷ b4 ∷ b5 ∷ b6 ∷ b7 ∷ b8 ∷ b9 ∷ b10 ∷ b11 ∷ rest)
        index t p e v even long =
      let s : ℕ = sent (t index) (ntohs p.sn) in
      (
        b0
            ∷ b1
            ∷ byte0 (htons s)
            ∷ byte1 (htons s)
            ∷ b4
            ∷ b5
            ∷ b6
            ∷ b7
            ∷ b8
            ∷ b9
            ∷ b10
            ∷ b11
            ∷ rest,
        ground arith,
        ground (arith, load16-bytes s (sent-lt (t index) (ntohs p.sn))),
        refl,
        refl,
      )
  rewrite_rtp-renumbers udp _ index t p e v even long = cc

  -- A datagram with a byte behind its UDP header passes unchanged, and leaves the table alone, on
  -- an odd port, where the length field leaves no room for an RTP header, and in another version.
  pub rewrite_rtp-passes :
      (udp : UdpHeader) (b0 : ℕ) (rest : List ℕ) (index : ℕ) (t : Table)
      → (ntohs index % 2 ≡ 1) ⊎ (ntohs udp.len < 20) ⊎ (b0 / 64 ≢ 2)
      → rewrite_rtp udp (b0 ∷ rest) index t ≡ some (b0 ∷ rest, t)
  unfolding rewrite_rtp
  rewrite_rtp-passes udp b0 rest index t h = ground arith

  -- The length in the UDP header is trusted: where it promises an RTP header on an even port and the
  -- packet ends within the first four bytes, of which the first is there and says version 2, the
  -- code reads behind the packet's end.
  pub rewrite_rtp-overruns :
      (udp : UdpHeader) (b0 : ℕ) (rest : List ℕ) (index : ℕ) (t : Table)
      → ntohs index % 2 ≡ 0
      → 20 ≤ ntohs udp.len
      → b0 / 64 ≡ 2
      → length rest < 3
      → rewrite_rtp udp (b0 ∷ rest) index t ≡ none
  unfolding rewrite_rtp
  rewrite_rtp-overruns udp b0 [] index t even long v short = ground arith
  rewrite_rtp-overruns udp b0 (b1 ∷ []) index t even long v short = ground arith
  rewrite_rtp-overruns udp b0 (b1 ∷ b2 ∷ []) index t even long v short = ground arith
  rewrite_rtp-overruns udp b0 (b1 ∷ b2 ∷ b3 ∷ rest) index t even long v short = absurd (omega arith)
