-- ===== src/Rewrite/Hooks/Ranges.antt =====
-- The ranges of headers and bytes through the hook functions of src/rewrite.c.
use lbm_rtp_proxy.Base.{ℕ, ◌^◌, ◌<◌, some, List, ◌∷◌, ◌≡◌, arith}
use lbm_rtp_proxy.Net.ByteOrder.{ByteOrder, htons, ntohs, load16, byte0, byte1}
use lbm_rtp_proxy.Packet.{IpHeader, UdpHeader}
use lbm_rtp_proxy.Rewrite.Hooks.{
  HookFn, Outcome, handle_incoming_udp_packet, handle_outgoing_udp_packet, pre_route_udp_packet,
  local_in_udp_packet, local_out_udp_packet, post_route_udp_packet,
}
use lbm_rtp_proxy.Rewrite.Matching.{rewrite_udp_packet}
use lbm_rtp_proxy.Rewrite.Rtp.{rewrite_rtp, renumber}
use lbm_rtp_proxy.Rewrite.Rtp.Laws.{IsBytes}
use lbm_rtp_proxy.Rewrite.Smoothing.{sent, sent-lt}
use lbm_rtp_proxy.Table.{Table, TableEntry}
use lbm_rtp_proxy.Table.Routing.{Routing}
use lbm_rtp_proxy.Table.Routing.Ranges.{IsRouting}

-- The fields are in the range of their types.
pub record IsIpHeader (h : IpHeader) : Type 0 where
  pub ihl-lt : h.ihl < 2 ^ 4
  pub protocol-lt : h.protocol < 2 ^ 8
  pub check-lt : h.check < 2 ^ 16
  pub saddr-lt : h.saddr < 2 ^ 32
  pub daddr-lt : h.daddr < 2 ^ 32

pub record IsUdpHeader (h : UdpHeader) : Type 0 where
  pub source-lt : h.source < 2 ^ 16
  pub dest-lt : h.dest < 2 ^ 16
  pub len-lt : h.len < 2 ^ 16
  pub check-lt : h.check < 2 ^ 16

pub record IsOutcome (out : Outcome) : Type 0 where
  pub ip : IsIpHeader out.ip
  pub udp : IsUdpHeader out.udp
  pub body : IsBytes out.body

rewrite_udp_packet-ip :
    (ip : IpHeader) (udp : UdpHeader) (src_addr src_port dst_addr dst_port : ℕ)
    → IsIpHeader ip
    → src_addr < 2 ^ 32
    → dst_addr < 2 ^ 32
    → IsIpHeader (rewrite_udp_packet ip udp src_addr src_port dst_addr dst_port).0
unfolding rewrite_udp_packet
rewrite_udp_packet-ip ip udp src_addr src_port dst_addr dst_port w s d = ground arith

rewrite_udp_packet-udp :
    (ip : IpHeader) (udp : UdpHeader) (src_addr src_port dst_addr dst_port : ℕ)
    → IsUdpHeader udp
    → src_port < 2 ^ 16
    → dst_port < 2 ^ 16
    → IsUdpHeader (rewrite_udp_packet ip udp src_addr src_port dst_addr dst_port).1
unfolding rewrite_udp_packet
rewrite_udp_packet-udp ip udp src_addr src_port dst_addr dst_port w s d = ground arith

module _ ⦃o : ByteOrder⦄ where
  htons-IsBytes : (v : ℕ) → v < 2 ^ 16 → (byte0 (htons v) < 256) × (byte1 (htons v) < 256)
  htons-IsBytes v lt = rw (o.byte0-htons v lt, o.byte1-htons v lt) (omega arith)

  renumber-IsBytes :
      (index : ℕ) (body : List ℕ) (t : Table) (body' : List ℕ) (t' : Table)
      → IsBytes body
      → renumber index body t ≡ some (body', t')
      → IsBytes body'
  unfolding renumber
  renumber-IsBytes index (b0 ∷ b1 ∷ b2 ∷ b3 ∷ rest) t body' t' w e =
      let sn : ℕ = sent (t index) (ntohs (load16 b2 b3)) in
      let fresh = htons-IsBytes sn (sent-lt (t index) (ntohs (load16 b2 b3))) in
      let same : body' ≡ b0 ∷ b1 ∷ byte0 (htons sn) ∷ byte1 (htons sn) ∷ rest = ground arith in
      rw same (w.0, (w.1.0, (fresh.0, (fresh.1, w.1.1.1.1))))
  renumber-IsBytes index _ t body' t' w e = cc

  rewrite_rtp-IsBytes :
      (udp : UdpHeader) (body : List ℕ) (index : ℕ) (t : Table) (body' : List ℕ) (t' : Table)
      → IsBytes body
      → rewrite_rtp udp body index t ≡ some (body', t')
      → IsBytes body'
  unfolding rewrite_rtp
  rewrite_rtp-IsBytes udp body index t body' t' w e =
      ground (arith, renumber-IsBytes index body t body' t' w)

  -- A hook function that keeps the headers and the bytes in range.
  abbrev pub KeepsRanges : HookFn → Type 0
  KeepsRanges fn =
      (ip : IpHeader) (udp : UdpHeader) (body : List ℕ) (ent : TableEntry) (rt : Routing)
      (t : Table) (out : Outcome)
      → IsIpHeader ip
      → IsUdpHeader udp
      → IsBytes body
      → IsRouting rt
      → fn ip udp body ent rt t ≡ some out
      → IsOutcome out

  incoming-ip :
      (ip : IpHeader) (udp : UdpHeader) (rt : Routing)
      → IsIpHeader ip
      → IsRouting rt
      → IsIpHeader (handle_incoming_udp_packet ip udp rt).1
  unfolding handle_incoming_udp_packet
  incoming-ip ip udp rt w r = ground (
    arith,
    rewrite_udp_packet-ip ip udp 0 0 rt.e_dst_addr 0 w,
    rewrite_udp_packet-ip ip udp 0 0 rt.i_dst_addr 0 w,
  )

  incoming-udp :
      (ip : IpHeader) (udp : UdpHeader) (rt : Routing)
      → IsUdpHeader udp
      → IsUdpHeader (handle_incoming_udp_packet ip udp rt).2
  unfolding handle_incoming_udp_packet
  incoming-udp ip udp rt w = ground (
    arith,
    rewrite_udp_packet-udp ip udp 0 0 rt.e_dst_addr 0 w,
    rewrite_udp_packet-udp ip udp 0 0 rt.i_dst_addr 0 w,
  )

  pub pre_route-KeepsRanges : KeepsRanges pre_route_udp_packet
  unfolding pre_route_udp_packet
  pre_route-KeepsRanges ip udp body ent rt t out wi wu wb r e =
      ground (arith, incoming-ip ip udp rt wi r, incoming-udp ip udp rt wu)

  pub local_out-KeepsRanges : KeepsRanges local_out_udp_packet
  unfolding local_out_udp_packet
  local_out-KeepsRanges ip udp body ent rt t out wi wu wb r e =
      ground (arith, incoming-ip ip udp rt wi r, incoming-udp ip udp rt wu)

  handle_outgoing-KeepsRanges : KeepsRanges handle_outgoing_udp_packet
  unfolding handle_outgoing_udp_packet
  handle_outgoing-KeepsRanges ip udp body ent rt t out wi wu wb r e =
      let u = (rewrite_udp_packet ip udp rt.e_prx_addr rt.e_prx_port 0 rt.e_dst_port).1 in
      ground (
        arith,
        rewrite_udp_packet-ip ip udp rt.e_prx_addr rt.e_prx_port 0 rt.e_dst_port wi,
        rewrite_udp_packet-ip ip udp rt.i_prx_addr rt.i_prx_port 0 rt.i_dst_port wi,
        rewrite_udp_packet-udp ip udp rt.e_prx_addr rt.e_prx_port 0 rt.e_dst_port wu,
        rewrite_udp_packet-udp ip udp rt.i_prx_addr rt.i_prx_port 0 rt.i_dst_port wu,
        rewrite_rtp-IsBytes u body rt.e_prx_port t out.body out.table wb,
      )

  pub local_in-KeepsRanges : KeepsRanges local_in_udp_packet
  unfolding local_in_udp_packet
  local_in-KeepsRanges = handle_outgoing-KeepsRanges

  pub post_route-KeepsRanges : KeepsRanges post_route_udp_packet
  unfolding post_route_udp_packet
  post_route-KeepsRanges = handle_outgoing-KeepsRanges
