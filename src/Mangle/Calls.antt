-- ===== src/Mangle/Calls.antt =====
-- Calls through the generic hook function of src/mangle.c: forwarded packets by the rows of the table.
use lbm_rtp_proxy.Base.{ℕ, length, ◌+◌, ◌≤◌, true, some, ◌≡◌, ◌≢◌, ◌⊎◌, inl, inr, refl, ◌∙◌, arith}
use lbm_rtp_proxy.Config.{Config}
use lbm_rtp_proxy.Kernel.{Kernel, skb_linearize}
use lbm_rtp_proxy.Mangle.Forward.{observed, forward, forward-out, forward-in, forward-drop}
use lbm_rtp_proxy.Mangle.Laws.{IsUdp}
use lbm_rtp_proxy.Net.ByteOrder.{ByteOrder, ntohs}
use lbm_rtp_proxy.Packet.{IpHeader, UdpHeader, SkBuff, Flow, flow_of, Verdict, nf_accept, nf_drop}
use lbm_rtp_proxy.Rewrite.Matching.{
  Route, loopback_route, outgoing_route, incoming_route, ambiguous_route, no_route, match_routes,
}
use lbm_rtp_proxy.Rewrite.Matching.Laws.{plain_route, match_routes-plain}
use lbm_rtp_proxy.Table.{Table, TableEntry, is_entry_valid}
use lbm_rtp_proxy.Table.Routing.{Routing}
use lbm_rtp_proxy.Table.Routing.Laws.{
  plain_routing, joined_routing, IsPlain, IsPair, get_routing-plain, get_routing-joined,
}

-- Where a packet to the proxy port of a row ends up, by its route.
abbrev pub plain_flow : Config → TableEntry → IpHeader → UdpHeader → Route → Verdict × Flow
plain_flow cfg e ip udp outgoing_route = (
  nf_accept,
  record {
    src_addr = cfg.ext_proxy_addr;
    src_port = udp.dest;
    dst_addr = e.sbc_addr;
    dst_port = e.sbc_port;
  },
)
plain_flow cfg e ip udp incoming_route = (
  nf_accept,
  record {
    src_addr = cfg.int_proxy_addr;
    src_port = udp.dest;
    dst_addr = e.receiver_addr;
    dst_port = e.receiver_port;
  },
)
plain_flow cfg e ip udp _ = (nf_drop, flow_of ip udp)

-- The packet comes from the sender of the row, where a zero leaves the sender open.
abbrev pub FromSender : TableEntry → IpHeader → UdpHeader → Type 0
FromSender e ip udp =
    ((e.sender_addr ≡ 0) ⊎ (e.sender_addr ≡ ip.saddr))
    × ((e.sender_port ≡ 0) ⊎ (e.sender_port ≡ udp.source))

pub valid_ends :
    (e : TableEntry)
    → is_entry_valid e ≡ true
    → (e.receiver_addr ≢ 0) × (e.receiver_port ≢ 0) × (e.sbc_addr ≢ 0) × (e.sbc_port ≢ 0)
unfolding is_entry_valid
valid_ends e v = ground arith

match_routes-joined :
    (b : ℕ) (cfg : Config) (ea eb : TableEntry) (ip : IpHeader) (udp : UdpHeader)
    → udp.dest ≢ b
    → b ≢ 0
    → FromSender ea ip udp
    → match_routes ip udp (joined_routing udp.dest b cfg ea eb) ≡ outgoing_route
unfolding match_routes
match_routes-joined b cfg ea eb ip udp ne port from = ground arith

module _ ⦃o : ByteOrder⦄ ⦃k : Kernel⦄ (skb : SkBuff) (ip : IpHeader) (udp : UdpHeader)
    (cfg : Config) (t : Table) (linear : (s : SkBuff) → skb_linearize s ≡ true)
    (u : IsUdp skb ip udp) (fits : ntohs udp.len ≤ 8 + length skb.body) where
  module _ (valid : is_entry_valid (t udp.dest) ≡ true) (plain : IsPlain udp.dest cfg (t udp.dest))
      (port : udp.dest ≢ 0) (int : cfg.int_proxy_addr ≢ 0) (ext : cfg.ext_proxy_addr ≢ 0) where
    abbrev rt : Routing
    rt = plain_routing udp.dest cfg (t udp.dest)

    matched : match_routes ip udp rt ≡ plain_route (t udp.dest) ip.saddr udp.source
    matched = match_routes-plain udp.dest cfg (t udp.dest) ip udp valid refl

    forward_by :
        (r : Route)
        → plain_route (t udp.dest) ip.saddr udp.source ≡ r
        → let (verdict, flow) = plain_flow cfg (t udp.dest) ip udp r in
          observed (forward skb cfg t) ≡ some (verdict, some flow)
    forward_by outgoing_route e =
        let ends = valid_ends (t udp.dest) valid in
        forward-out skb ip udp cfg t (t udp.dest) rt linear u
          (get_routing-plain udp.dest cfg t valid plain) (inl (matched ∙ e)) ext port ends.2 ends.3
          fits
    forward_by incoming_route e =
        let ends = valid_ends (t udp.dest) valid in
        forward-in skb ip udp cfg t (t udp.dest) rt linear u
          (get_routing-plain udp.dest cfg t valid plain) (matched ∙ e) int port ends.0 ends.1
    forward_by ambiguous_route e =
        forward-drop skb ip udp cfg t (t udp.dest) rt linear u
          (get_routing-plain udp.dest cfg t valid plain) (inl (matched ∙ e))
    forward_by no_route e =
        forward-drop skb ip udp cfg t (t udp.dest) rt linear u
          (get_routing-plain udp.dest cfg t valid plain) (inr (matched ∙ e))
    forward_by loopback_route e = absurd (ground arith)

    -- A UDP packet to a proxy port above 0, of which the buffer can be made one piece and whose
    -- length field says no more than what is there, goes through PRE_ROUTING and POST_ROUTING as
    -- the route by its source says, where the row of the port is valid and plain and the proxy has
    -- both its addresses: what the sender sends goes from the external proxy address to the SBC,
    -- what the SBC sends goes from the internal proxy address to the receiver, both with the proxy
    -- port as the source port; the rest is dropped with its addresses and ports as they were.
    pub forward-plain :
        let (verdict, flow) =
          plain_flow cfg (t udp.dest) ip udp (plain_route (t udp.dest) ip.saddr udp.source) in
        observed (forward skb cfg t) ≡ some (verdict, some flow)
    forward-plain = forward_by (plain_route (t udp.dest) ip.saddr udp.source) refl

  -- Where two rows at different ports lead to one another and loopback is on, a UDP packet from the
  -- sender of the one to its port goes through PRE_ROUTING and POST_ROUTING straight to the
  -- receiver of the other, from the internal proxy address and the port of the other. The other
  -- port and the internal address are not zero, the buffer can be made one piece, and the length
  -- field of the packet says no more than what is there.
  pub forward-joined :
      (b : ℕ)
      → IsPair udp.dest b cfg t
      → udp.dest ≢ b
      → b ≢ 0
      → cfg.int_proxy_addr ≢ 0
      → FromSender (t udp.dest) ip udp
      → observed (forward skb cfg t)
        ≡ some (
          nf_accept,
          some (record {
            src_addr = cfg.int_proxy_addr;
            src_port = b;
            dst_addr = (t b).receiver_addr;
            dst_port = (t b).receiver_port;
          }),
        )
  forward-joined b pair ne port int from =
      let ends = valid_ends (t b) pair.b_valid in
      forward-out skb ip udp cfg t (t udp.dest) (joined_routing udp.dest b cfg (t udp.dest) (t b))
        linear u (get_routing-joined udp.dest b cfg t pair)
        (inl (match_routes-joined b cfg (t udp.dest) (t b) ip udp ne port from)) int port ends.0
        ends.1 fits
