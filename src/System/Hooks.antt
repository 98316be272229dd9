-- ===== src/System/Hooks.antt =====
-- The hook functions of src/rewrite.c: what they do to the table, and whether they fault.
use lbm_rtp_proxy.Base.{
  ℕ, length, ◌+◌, ◌≤◌, ◌<◌, ◌^◌, ◌==◌, none, some, List, ◌∷◌, ◌≡◌, ◌≢◌, ◌⊎◌, inl, inr, arith,
  Bool-cases,
}
use lbm_rtp_proxy.Net.ByteOrder.{ByteOrder, ntohs, load16}
use lbm_rtp_proxy.Packet.{IpHeader, UdpHeader}
use lbm_rtp_proxy.Rewrite.Hooks.{
  HookFn, Outcome, pre_route_udp_packet, local_in_udp_packet, local_out_udp_packet,
  post_route_udp_packet, handle_outgoing_udp_packet,
}
use lbm_rtp_proxy.Rewrite.Matching.{rewrite_udp_packet}
use lbm_rtp_proxy.Rewrite.Rtp.{rewrite_rtp, renumber}
use lbm_rtp_proxy.Rewrite.Rtp.Laws.{IsBytes, rewrite_rtp-ne-none}
use lbm_rtp_proxy.Rewrite.Smoothing.{after, set_sn_function-IsEntry}
use lbm_rtp_proxy.Table.{Table, TableEntry, IsEntry, table_size, set_row}
use lbm_rtp_proxy.Table.Laws.{IsTable}
use lbm_rtp_proxy.Table.Routing.{Routing}

-- What a packet does to the table: nothing, or one row takes note of a sequence number.
abbrev pub RowStep : Table → Table → Type 0
RowStep t t' = (t ≡ t') ⊎ ((i : ℕ) × (sn : ℕ) × (sn < 2 ^ 16) × (set_row i (after (t i) sn) t ≡ t'))

set_row-IsTable :
    (i : ℕ) (e : TableEntry) (t : Table)
    → (i < table_size → IsEntry e)
    → IsTable t
    → IsTable (set_row i e t)
set_row-IsTable i e t h w = record {
  rows = λ j lt. elim (Bool-cases (j == i)) [
    | inl same ↦ rw same (h (ground arith))
    | inr other ↦ rw other (w.rows j lt)
  ];
}

pub RowStep-IsTable : (t t' : Table) → RowStep t t' → IsTable t → IsTable t'
RowStep-IsTable t t' (inl same) w = rw (← same) w
RowStep-IsTable t t' (inr (i, sn, lt, q)) w = rw (← q) (
    set_row-IsTable i (after (t i) sn) t
      (λ below. set_sn_function-IsEntry (t i) sn (w.rows i below) lt) w)

-- A hook function that does no more to the table.
abbrev pub StepsRow : HookFn → Type 0
StepsRow fn =
    (ip : IpHeader) (udp : UdpHeader) (body : List ℕ) (ent : TableEntry) (rt : Routing) (t : Table)
    (out : Outcome)
    → IsBytes body
    → fn ip udp body ent rt t ≡ some out
    → RowStep t out.table

module _ ⦃o : ByteOrder⦄ where
  renumber-RowStep :
      (index : ℕ) (body : List ℕ) (t : Table) (body' : List ℕ) (t' : Table)
      → IsBytes body
      → renumber index body t ≡ some (body', t')
      → RowStep t t'
  unfolding renumber
  renumber-RowStep index (b0 ∷ b1 ∷ b2 ∷ b3 ∷ rest) t body' t' bytes e = inr (
    index,
    ntohs (load16 b2 b3),
    o.ntohs-lt (load16 b2 b3) (o.load16-lt b2 b3 bytes.1.1.0 bytes.1.1.1.0),
    cc,
  )
  renumber-RowStep index _ t body' t' bytes e = cc

  rewrite_rtp_table :
      (udp : UdpHeader) (body : List ℕ) (index : ℕ) (t : Table) (body' : List ℕ) (t' : Table)
      → rewrite_rtp udp body index t ≡ some (body', t')
      → (t ≡ t') ⊎ (renumber index body t ≡ some (body', t'))
  unfolding rewrite_rtp
  rewrite_rtp_table udp body index t body' t' e = ground arith

  rewrite_rtp-RowStep :
      (udp : UdpHeader) (body : List ℕ) (index : ℕ) (t : Table) (body' : List ℕ) (t' : Table)
      → IsBytes body
      → rewrite_rtp udp body index t ≡ some (body', t')
      → RowStep t t'
  rewrite_rtp-RowStep udp body index t body' t' bytes e =
      elim (rewrite_rtp_table udp body index t body' t' e) [
        | inl same ↦ inl same
        | inr renumbered ↦ renumber-RowStep index body t body' t' bytes renumbered
      ]

  handle_outgoing_table :
      (ip : IpHeader) (udp : UdpHeader) (body : List ℕ) (ent : TableEntry) (rt : Routing)
      (t : Table) (out : Outcome)
      → handle_outgoing_udp_packet ip udp body ent rt t ≡ some out
      → (t ≡ out.table)
        ⊎ (rewrite_rtp
              (rewrite_udp_packet ip udp rt.e_prx_addr rt.e_prx_port 0 rt.e_dst_port).1
              body
              rt.e_prx_port
              t
            ≡ some (out.body, out.table))
  unfolding handle_outgoing_udp_packet
  handle_outgoing_table ip udp body ent rt t out e = ground arith

  handle_outgoing-StepsRow : StepsRow handle_outgoing_udp_packet
  handle_outgoing-StepsRow ip udp body ent rt t out bytes e =
      elim (handle_outgoing_table ip udp body ent rt t out e) [
        | inl same ↦ inl same
        | inr rewritten ↦
            rewrite_rtp-RowStep _ body rt.e_prx_port t out.body out.table bytes rewritten
      ]

  pub pre_route-StepsRow : StepsRow pre_route_udp_packet
  unfolding pre_route_udp_packet
  pre_route-StepsRow ip udp body ent rt t out bytes e = inl (cc)

  pub local_out-StepsRow : StepsRow local_out_udp_packet
  unfolding local_out_udp_packet
  local_out-StepsRow ip udp body ent rt t out bytes e = inl (cc)

  pub local_in-StepsRow : StepsRow local_in_udp_packet
  unfolding local_in_udp_packet
  local_in-StepsRow = handle_outgoing-StepsRow

  pub post_route-StepsRow : StepsRow post_route_udp_packet
  unfolding post_route_udp_packet
  post_route-StepsRow = handle_outgoing-StepsRow

  -- No fault where the length field of the packet says no more than what is there.
  abbrev pub NeverFaults : HookFn → Type 0
  NeverFaults fn =
      (ip : IpHeader) (udp : UdpHeader) (body : List ℕ) (ent : TableEntry) (rt : Routing)
      (t : Table)
      → ntohs udp.len ≤ 8 + length body
      → fn ip udp body ent rt t ≢ none

  handle_outgoing-NeverFaults : NeverFaults handle_outgoing_udp_packet
  unfolding handle_outgoing_udp_packet
  handle_outgoing-NeverFaults ip udp body ent rt t fits =
      let u = (rewrite_udp_packet ip udp rt.e_prx_addr rt.e_prx_port 0 rt.e_dst_port).1 in
      ground (arith, rewrite_rtp-ne-none u body rt.e_prx_port t)

  pub pre_route-NeverFaults : NeverFaults pre_route_udp_packet
  unfolding pre_route_udp_packet
  pre_route-NeverFaults ip udp body ent rt t fits e = cc

  pub local_out-NeverFaults : NeverFaults local_out_udp_packet
  unfolding local_out_udp_packet
  local_out-NeverFaults ip udp body ent rt t fits e = cc

  pub local_in-NeverFaults : NeverFaults local_in_udp_packet
  unfolding local_in_udp_packet
  local_in-NeverFaults = handle_outgoing-NeverFaults

  pub post_route-NeverFaults : NeverFaults post_route_udp_packet
  unfolding post_route_udp_packet
  post_route-NeverFaults = handle_outgoing-NeverFaults
