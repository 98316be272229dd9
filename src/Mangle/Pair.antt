-- ===== src/Mangle/Pair.antt =====
-- Two calls that meet at the proxy (get_routing and match_routes of src/table.c and src/rewrite.c):
-- every packet to the proxy port of the one, from whatever source.
use lbm_rtp_proxy.Base.{
  ℕ, length, ◌+◌, ◌≤◌, Bool, true, false, some, ◌&&◌, ◌||◌, ◌==◌, if◌then◌else◌, ◌≡◌, ◌≢◌, inl, inr,
  arith, Bool-cases,
}
use lbm_rtp_proxy.Config.{Config}
use lbm_rtp_proxy.Kernel.{Kernel, skb_linearize}
use lbm_rtp_proxy.Mangle.Calls.{valid_ends}
use lbm_rtp_proxy.Mangle.Forward.{observed, forward, forward-out, forward-drop}
use lbm_rtp_proxy.Mangle.Laws.{IsUdp}
use lbm_rtp_proxy.Net.ByteOrder.{ByteOrder, ntohs}
use lbm_rtp_proxy.Packet.{IpHeader, UdpHeader, SkBuff, flow_of, Flow, Verdict, nf_accept, nf_drop}
use lbm_rtp_proxy.Rewrite.Matching.{outgoing_route, no_route, match_routes}
use lbm_rtp_proxy.Table.{Table, TableEntry}
use lbm_rtp_proxy.Table.Routing.Laws.{joined_routing, IsPair, get_routing-joined}

-- The source is the sender of the row, where a zero leaves the sender open.
abbrev pub is_sender : TableEntry → ℕ → ℕ → Bool
is_sender e addr port =
    (e.sender_addr == 0 || addr == e.sender_addr) && (e.sender_port == 0 || port == e.sender_port)

module _ (b : ℕ) (cfg : Config) (ea eb : TableEntry) (ip : IpHeader) (udp : UdpHeader)
    (ne : udp.dest ≢ b) (port : b ≢ 0) (own : udp.dest ≢ 0) where
  match_routes-sender :
      is_sender ea ip.saddr udp.source ≡ true
      → match_routes ip udp (joined_routing udp.dest b cfg ea eb) ≡ outgoing_route
  unfolding match_routes
  match_routes-sender from = ground arith

  match_routes-stranger :
      is_sender ea ip.saddr udp.source ≡ false
      → match_routes ip udp (joined_routing udp.dest b cfg ea eb) ≡ no_route
  unfolding match_routes
  match_routes-stranger from = ground arith

-- Where a packet to the port of the one row ends up.
abbrev pub pair_flow : ℕ → Config → TableEntry → TableEntry → IpHeader → UdpHeader → Verdict × Flow
pair_flow b cfg ea eb ip udp =
    if is_sender ea ip.saddr udp.source
    then (
      nf_accept,
      record {
        src_addr = cfg.int_proxy_addr;
        src_port = b;
        dst_addr = eb.receiver_addr;
        dst_port = eb.receiver_port;
      },
    )
    else (nf_drop, flow_of ip udp)

-- Where two rows at different ports above 0 lead to one another and loopback is on, a UDP packet to
-- the port of the one goes through PRE_ROUTING and POST_ROUTING by its source alone: what the sender
-- of the row sends goes straight to the receiver of the other, from the internal proxy address and
-- the port of the other, and all else is dropped with its addresses and ports as they were. The
-- internal address is not zero, the buffer can be made one piece, and the length field of the packet
-- says no more than what is there.
pub forward-pair :
    ⦃o : ByteOrder⦄ ⦃k : Kernel⦄ (skb : SkBuff) (ip : IpHeader) (udp : UdpHeader) (cfg : Config)
    (t : Table) (b : ℕ)
    → ((s : SkBuff) → skb_linearize s ≡ true)
    → IsUdp skb ip udp
    → ntohs udp.len ≤ 8 + length skb.body
    → IsPair udp.dest b cfg t
    → udp.dest ≢ b
    → b ≢ 0
    → udp.dest ≢ 0
    → cfg.int_proxy_addr ≢ 0
    → let (verdict, flow) = pair_flow b cfg (t udp.dest) (t b) ip udp in
      observed (forward skb cfg t) ≡ some (verdict, some flow)
forward-pair skb ip udp cfg t b linear u fits pair ne port own int =
    let ends = valid_ends (t b) pair.b_valid in
    let rt = joined_routing udp.dest b cfg (t udp.dest) (t b) in
    elim (Bool-cases (is_sender (t udp.dest) ip.saddr udp.source)) [
      | inl from ↦ rw from (
          forward-out skb ip udp cfg t (t udp.dest) rt linear u
            (get_routing-joined udp.dest b cfg t pair)
            (inl (match_routes-sender b cfg (t udp.dest) (t b) ip udp ne port own from)) int port
            ends.0 ends.1 fits)
      | inr other ↦ rw other (
          forward-drop skb ip udp cfg t (t udp.dest) rt linear u
            (get_routing-joined udp.dest b cfg t pair)
            (inr (match_routes-stranger b cfg (t udp.dest) (t b) ip udp ne port own other)))
    ]
