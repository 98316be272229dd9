-- ===== src/Mangle/MediaStream/Relay.antt =====
-- A stream of RTP packets of one call through the hooks of src/mangle.c: where they go, and which
-- sequence numbers they get.
use lbm_rtp_proxy.Base.{
  ℕ, ◌%◌, ◌^◌, ◌<◌, true, some, List, [], ◌∷◌, map, ◌≡◌, ◌≢◌, refl, ◌∙◌, ap, inl, arith, All,
}
use lbm_rtp_proxy.Config.{Config}
use lbm_rtp_proxy.Kernel.{Kernel, skb_linearize}
use lbm_rtp_proxy.Mangle.Calls.{forward-plain, valid_ends}
use lbm_rtp_proxy.Mangle.Forward.{forward}
use lbm_rtp_proxy.Mangle.Media.{forward-renumbers}
use lbm_rtp_proxy.Mangle.MediaStream.{
  Departure, departed, sbc_flow, Arrival, forward_all, IsMedia, Relayed, number,
}
use lbm_rtp_proxy.Net.ByteOrder.{ByteOrder, ntohs}
use lbm_rtp_proxy.Packet.{SkBuff, Flow, nf_accept}
use lbm_rtp_proxy.Rewrite.Matching.Laws.{plain_route, match_routes-plain}
use lbm_rtp_proxy.Rewrite.Rtp.{RtpPacket, rtp_packet}
use lbm_rtp_proxy.Rewrite.Rtp.Laws.{IsBytes}
use lbm_rtp_proxy.Spec.{ends}
use lbm_rtp_proxy.Spec.Refinement.{ends-after}
use lbm_rtp_proxy.Rewrite.Smoothing.{sent, after}
use lbm_rtp_proxy.Rewrite.Smoothing.Stream.{sent_all}
use lbm_rtp_proxy.Rewrite.Smoothing.Reference.{started, sent_all-started}
use lbm_rtp_proxy.Table.{Table, TableEntry, IsEntry, is_entry_valid, set_row}
use lbm_rtp_proxy.Table.Routing.{get_routing}
use lbm_rtp_proxy.Table.Routing.Laws.{plain_routing, IsPlain, get_routing-plain}

module _ (cfg : Config) (port : ℕ) (e e' : TableEntry) (same : ends e ≡ ends e') where
  ends-valid : is_entry_valid e ≡ is_entry_valid e'
  unfolding is_entry_valid
  ends-valid = ground arith

  ends-IsPlain : IsPlain port cfg e' → IsPlain port cfg e
  ends-IsPlain plain = ground arith

  ends-route : (addr source : ℕ) → plain_route e addr source ≡ plain_route e' addr source
  ends-route addr source = ground arith

  ends-flow : sbc_flow cfg port e ≡ sbc_flow cfg port e'
  ends-flow = ground arith

module _ ⦃o : ByteOrder⦄ ⦃k : Kernel⦄ where
  sn-lt : (body : List ℕ) (p : RtpPacket) → IsBytes body → rtp_packet body ≡ some p → p.sn < 2 ^ 16
  unfolding rtp_packet
  sn-lt (b0 ∷ b1 ∷ b2 ∷ b3 ∷ b4 ∷ b5 ∷ b6 ∷ b7 ∷ b8 ∷ b9 ∷ b10 ∷ b11 ∷ rest) p w e =
      ground (arith, o.load16-lt b2 b3 w.1.1.0 w.1.1.1.0)
  sn-lt _ p w e = cc

  numbers-lt :
      (port : ℕ) (e : TableEntry) (arrivals : List Arrival)
      → All (IsMedia port e) arrivals
      → All (λ sn. sn < 2 ^ 16) (map number arrivals)
  numbers-lt port e [] media = tt
  numbers-lt port e (a ∷ arrivals) media = (
    o.ntohs-lt a.rtp.sn (sn-lt a.skb.body a.rtp media.0.bytes media.0.header),
    numbers-lt port e arrivals media.1,
  )

  module _ (cfg : Config) (port : ℕ) (linear : (s : SkBuff) → skb_linearize s ≡ true)
      (own : port ≢ 0) (even : ntohs port % 2 ≡ 0) (on : cfg.smoothing ≢ 0)
      (int : cfg.int_proxy_addr ≢ 0) (ext : cfg.ext_proxy_addr ≢ 0) where
    -- One packet.
    forward-media :
        (t : Table) (a : Arrival)
        → is_entry_valid (t port) ≡ true
        → IsPlain port cfg (t port)
        → IsMedia port (t port) a
        → (departure : Departure) × (departed (forward a.skb cfg t)
            ≡ some (departure, set_row port (after (t port) (number a)) t))
          × Relayed
              (sbc_flow cfg port (t port))
              (a ∷ [])
              (sent (t port) (number a) ∷ [])
              (departure ∷ [])
    forward-media t a valid plain m =
        let e = t port in
        let rt = plain_routing port cfg e in
        let ends = valid_ends e valid in
        let found : get_routing a.udp.dest cfg t ≡ (e, some rt) =
          rw m.dest (get_routing-plain port cfg t valid plain) in
        let out = match_routes-plain port cfg e a.ip a.udp valid m.dest ∙ m.from_sender in
        let seen =
          rw (m.dest, m.from_sender) at
            (forward-plain a.skb a.ip a.udp cfg t linear m.headers m.fits (rw m.dest valid)
              (rw m.dest plain) (rw m.dest own) int ext) in
        let (body, kept, header, rest) =
          forward-renumbers a.skb a.ip a.udp cfg t e rt linear m.headers found a.rtp (inl out)
            (ext, own, ends.2, ends.3) on m.header m.version even m.room in
        (_, rw (seen, kept) refl, (refl, header, rest, tt))

    relay :
        (e : TableEntry) (arrivals : List Arrival) (t : Table)
        → is_entry_valid e ≡ true
        → IsPlain port cfg e
        → All (IsMedia port e) arrivals
        → ends (t port) ≡ ends e
        → (departures : List Departure) × (t' : Table) × (forward_all
              (map (λ (a : Arrival). a.skb) arrivals)
              cfg
              t
            ≡ some (departures, t'))
          × Relayed
              (sbc_flow cfg port e)
              arrivals
              (sent_all (t port) (map number arrivals))
              departures
    unfolding forward_all
    relay e [] t valid plain media same = ([], t, refl, tt)
    relay e (a ∷ arrivals) t valid plain media same =
        let m = media.0 in
        let here : IsMedia port (t port) a = record {
          headers = m.headers;
          dest = m.dest;
          from_sender = ends-route cfg port (t port) e same a.ip.saddr a.udp.source ∙ m.from_sender;
          header = m.header;
          bytes = m.bytes;
          version = m.version;
          room = m.room;
          fits = m.fits;
        } in
        let valid' = ends-valid cfg port (t port) e same ∙ valid in
        let (first, departs, kept) =
          forward-media t a valid' (ends-IsPlain cfg port (t port) e same plain) here in
        let t1 = set_row port (after (t port) (number a)) t in
        let row : t1 port ≡ after (t port) (number a) = ground arith in
        let (departures, t', relayed, numbered) =
          relay e arrivals t1 valid plain media.1
            (ap ends row ∙ ends-after (t port) (number a) ∙ same) in
        (
          first ∷ departures,
          t',
          rw (departs, relayed) refl,
          (
            kept.0 ∙ ap (λ (f : Flow). (nf_accept, some f)) (ends-flow cfg port (t port) e same),
            kept.1,
            kept.2,
            rw row at numbered,
          ),
        )

    -- A stream of RTP packets from the sender of a plain row in range to its even proxy port, each
    -- taken through PRE_ROUTING and POST_ROUTING with the table that the one before it left, with
    -- smoothing on: every packet is accepted and goes from the external proxy address and the proxy
    -- port to the SBC, with the bytes that it came with but for the sequence number. The first number
    -- of a row that is not in use is sent with the offset of the row added; from then on, where the
    -- number falls by 3 or more below the last one, which is not 65535, the successor of the number
    -- sent last is sent, and else the number as far from it as the source went. The row is valid, the
    -- proxy has both its addresses and the buffers can be made one piece; each packet has version 2,
    -- and its length field has room for an RTP header and says no more than what is there.
    pub forward_all-media :
        (arrivals : List Arrival) (t : Table)
        → is_entry_valid (t port) ≡ true
        → IsPlain port cfg (t port)
        → IsEntry (t port)
        → All (IsMedia port (t port)) arrivals
        → (departures : List Departure) × (t' : Table) × (forward_all
              (map (λ (a : Arrival). a.skb) arrivals)
              cfg
              t
            ≡ some (departures, t'))
          × Relayed
              (sbc_flow cfg port (t port))
              arrivals
              (started (t port) (map number arrivals))
              departures
    forward_all-media arrivals t valid plain w media =
        rw
          (← sent_all-started (t port) (map number arrivals) w
            (numbers-lt port (t port) arrivals media))
          (relay (t port) arrivals t valid plain media refl)
