-- ===== src/Threads/Hooks/Lookups.antt =====
-- What the lookups of a call (get_routing of src/table.c) and the hook functions of src/rewrite.c depend
-- on in the table.
use lbm_rtp_proxy.Base.{ℕ, none, some, ◌≡◌, ◌⊎◌, inl, inr, refl, arith, Option, List}
use lbm_rtp_proxy.Config.{Config, config_get}
use lbm_rtp_proxy.Kernel.{Kernel}
use lbm_rtp_proxy.Mangle.{untouched, mangle, receive}
use lbm_rtp_proxy.Net.ByteOrder.{ByteOrder}
use lbm_rtp_proxy.Packet.{IpHeader, UdpHeader}
use lbm_rtp_proxy.Rewrite.Hooks.{
  HookFn, MangleHook, pre_routing_hook, local_in_hook, local_out_hook, post_routing_hook,
  pre_route_udp_packet, local_in_udp_packet, local_out_udp_packet, post_route_udp_packet,
  handle_outgoing_udp_packet,
}
use lbm_rtp_proxy.Spec.{Ends, ends, entry_of}
use lbm_rtp_proxy.System.{IsHook}
use lbm_rtp_proxy.Table.{Table, TableEntry, table_get, is_entry_valid, set_row}
use lbm_rtp_proxy.Table.Routing.{Routing, init_routing, join_routing, get_routing}
use lbm_rtp_proxy.Threads.Hooks.{Passing, joining, routed, returned, look_up}
use lbm_rtp_proxy.Threads.Hooks.Whole.{applied}

-- A route by what is seen of the two rows.
abbrev pub route_of : ℕ → Config → Ends → Ends → Option Routing
route_of i cfg x y = (get_routing i cfg (set_row i (entry_of x) (λ j. entry_of y))).1

pub get_routing-route_of :
    (i : ℕ) (cfg : Config) (t : Table)
    → (get_routing i cfg t).1 ≡ route_of i cfg (ends (t i)) (ends (t (t i).sbc_port))
unfolding get_routing join_routing init_routing table_get is_entry_valid
get_routing-route_of i cfg t = ground arith

pub join_routing-ends :
    (ind : ℕ) (cfg : Config) (t : Table) (rt : Routing)
    → join_routing ind cfg t rt ≡ join_routing ind cfg (λ j. entry_of (ends (t ind))) rt
unfolding join_routing init_routing table_get is_entry_valid
join_routing-ends ind cfg t rt = refl

module _ ⦃o : ByteOrder⦄ ⦃k : Kernel⦄ where
  -- The first lookup, and what get_routing finds in the same table.
  pub look_up_route :
      (p : Passing) (cfg : Config) (t : Table)
      → let entry = t p.udp.dest in
        let rt = init_routing p.udp.dest cfg entry in
        let found = (get_routing p.udp.dest cfg t).1 in
        ((look_up p cfg t ≡ returned (untouched (some p.skb) t)) × (found ≡ none))
        ⊎ ((look_up p cfg t ≡ joining p cfg entry rt)
            × (found ≡ some (join_routing entry.sbc_port cfg t rt)))
        ⊎ ((look_up p cfg t ≡ routed p entry rt) × (found ≡ some rt))
  unfolding look_up get_routing table_get
  look_up_route p cfg t = ground arith

  pub mangle-none :
      (p : Passing) (cfg : Config) (t : Table)
      → (get_routing p.udp.dest cfg t).1 ≡ none
      → mangle p.fn p.mangle_hook.hooknum p.skb p.ip p.udp cfg t ≡ some (untouched (some p.skb) t)
  unfolding mangle config_get
  mangle-none p cfg t e = ground arith

  pub mangle-some :
      (p : Passing) (cfg : Config) (t : Table) (rt : Routing)
      → (get_routing p.udp.dest cfg t).1 ≡ some rt
      → mangle p.fn p.mangle_hook.hooknum p.skb p.ip p.udp cfg t ≡ applied p (t p.udp.dest) rt t
  unfolding mangle config_get applied get_routing table_get
  mangle-some p cfg t rt e = ground arith

  -- The hook functions of the module do not look at the row that they are given.
  abbrev pub IgnoresRow : HookFn → Type 0
  IgnoresRow fn =
      (ip : IpHeader) (udp : UdpHeader) (body : List ℕ) (ent ent' : TableEntry) (rt : Routing)
      (t : Table)
      → fn ip udp body ent rt t ≡ fn ip udp body ent' rt t

  pub hook-IgnoresRow :
      (mh : MangleHook) (fn : HookFn) → IsHook mh → mh.fn ≡ some fn → IgnoresRow fn
  unfolding pre_routing_hook local_in_hook local_out_hook post_routing_hook pre_route_udp_packet
      local_in_udp_packet local_out_udp_packet post_route_udp_packet handle_outgoing_udp_packet
  hook-IgnoresRow mh fn (inl e) call ip udp body ent ent' rt t =
      let same : fn ≡ pre_route_udp_packet = cc (e, call) in rw same refl
  hook-IgnoresRow mh fn (inr (inl e)) call ip udp body ent ent' rt t =
      let same : fn ≡ local_in_udp_packet = cc (e, call) in rw same refl
  hook-IgnoresRow mh fn (inr (inr (inl e))) call ip udp body ent ent' rt t =
      let same : fn ≡ local_out_udp_packet = cc (e, call) in rw same refl
  hook-IgnoresRow mh fn (inr (inr (inr e))) call ip udp body ent ent' rt t =
      let same : fn ≡ post_route_udp_packet = cc (e, call) in rw same refl

  pub applied-IgnoresRow :
      (p : Passing) (ent ent' : TableEntry) (rt : Routing) (t : Table)
      → IgnoresRow p.fn
      → applied p ent rt t ≡ applied p ent' rt t
  unfolding applied
  applied-IgnoresRow p ent ent' rt t same =
      let body = (receive p.mangle_hook.hooknum p.skb p.ip p.udp).0.body in
      ground (arith, same p.ip p.udp body ent ent' rt t)
