-- ===== src/Mangle/MediaStream.antt =====
-- A stream of RTP packets of one call, one after another through the hooks of src/mangle.c with the
-- table that each of them leaves.
pub mod Relay
use lbm_rtp_proxy.Base.{
  ℕ, drop, length, ◌+◌, ◌%◌, ◌^◌, ◌≤◌, ◌<◌, true, Option, some, List, [], ◌∷◌, map, ◌≡◌, ◌≢◌, ◌>>=◌,
  refl, ◌∙◌, ap, sym, inl, arith, All, ◌==◌,
}
use lbm_rtp_proxy.Config.{Config}
use lbm_rtp_proxy.Kernel.{Kernel, skb_linearize}
use lbm_rtp_proxy.Mangle.{HookResult}
use lbm_rtp_proxy.Mangle.Calls.{forward-plain, valid_ends}
use lbm_rtp_proxy.Mangle.Forward.{forward, observed}
use lbm_rtp_proxy.Mangle.Laws.{IsUdp}
use lbm_rtp_proxy.Mangle.Media.{carried, forward-renumbers}
use lbm_rtp_proxy.Net.ByteOrder.{ByteOrder, ntohs, htons}
use lbm_rtp_proxy.Packet.{IpHeader, UdpHeader, SkBuff, Verdict, Flow, nf_accept}
use lbm_rtp_proxy.Rewrite.Matching.{outgoing_route}
use lbm_rtp_proxy.Rewrite.Matching.Laws.{plain_route, match_routes-plain}
use lbm_rtp_proxy.Rewrite.Rtp.{RtpPacket, rtp_packet}
use lbm_rtp_proxy.Rewrite.Rtp.Laws.{IsBytes}
use lbm_rtp_proxy.Spec.{ends}
use lbm_rtp_proxy.Spec.Refinement.{ends-after}
use lbm_rtp_proxy.Rewrite.Smoothing.{set_sn_function, sent, after}
use lbm_rtp_proxy.Rewrite.Smoothing.Stream.{sent_all}
use lbm_rtp_proxy.Rewrite.Smoothing.Reference.{started, sent_all-started}
use lbm_rtp_proxy.Table.{Table, TableEntry, IsEntry, is_entry_valid, set_row}
use lbm_rtp_proxy.Table.Routing.{get_routing}
use lbm_rtp_proxy.Table.Routing.Laws.{plain_routing, IsPlain, get_routing-plain}

-- What comes of a packet: its verdict, where it goes, and its bytes.
abbrev pub Departure : Type 0
Departure = (Verdict × Option Flow) × List ℕ

abbrev pub departed : Option HookResult → Option (Departure × Table)
departed result = observed result >>= λ seen. carried result >>= λ c. some ((seen, c.0), c.1)

-- Where the packets of the sender of a row go: from the external proxy address and the proxy port to
-- the SBC.
abbrev pub sbc_flow : Config → ℕ → TableEntry → Flow
sbc_flow cfg port e = record {
  src_addr = cfg.ext_proxy_addr;
  src_port = port;
  dst_addr = e.sbc_addr;
  dst_port = e.sbc_port;
}

-- A packet that arrives, with its headers.
pub record Arrival : Type 0 where
  pub skb : SkBuff
  pub ip : IpHeader
  pub udp : UdpHeader
  pub rtp : RtpPacket

module _ ⦃o : ByteOrder⦄ ⦃k : Kernel⦄ where
  -- The packets one after another.
  unfoldable pub forward_all : List SkBuff → Config → Table → Option (List Departure × Table)
  forward_all [] cfg t = some ([], t)
  forward_all (skb ∷ skbs) cfg t = departed (forward skb cfg t) >>= λ first.
      forward_all skbs cfg first.1 >>= λ rest. some (first.0 ∷ rest.0, rest.1)

  -- An RTP packet of version 2 from the sender of a row to its port, whose length field has room for
  -- an RTP header and says no more than what is there.
  pub record IsMedia (port : ℕ) (e : TableEntry) (a : Arrival) : Type 0 where
    pub headers : IsUdp a.skb a.ip a.udp
    pub dest : a.udp.dest ≡ port
    pub from_sender : plain_route e a.ip.saddr a.udp.source ≡ outgoing_route
    pub header : rtp_packet a.skb.body ≡ some a.rtp
    pub bytes : IsBytes a.skb.body
    pub version : a.rtp.version ≡ 2
    pub room : 20 ≤ ntohs a.udp.len
    pub fits : ntohs a.udp.len ≤ 8 + length a.skb.body

  -- The packets that depart with the numbers: each is accepted and goes where `flow` says, with the
  -- RTP header and the bytes that it came with but for the number.
  abbrev pub Relayed : Flow → List Arrival → List ℕ → List Departure → Type 0
  Relayed flow [] [] [] = Unit
  Relayed flow (a ∷ arrivals) (sn ∷ sns) ((seen, body) ∷ departures) =
      (seen ≡ (nf_accept, some flow))
      × (rtp_packet body ≡ some (record a.rtp { sn = htons sn }))
      × (drop 12 body ≡ drop 12 a.skb.body)
      × Relayed flow arrivals sns departures
  Relayed flow _ _ _ = ⊥

  abbrev pub number : Arrival → ℕ
  number a = ntohs a.rtp.sn
