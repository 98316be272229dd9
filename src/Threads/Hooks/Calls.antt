-- ===== src/Threads/Hooks/Calls.antt =====
-- What a call of the generic hook function does to the shared state at each of its accesses, and when
-- it faults.
use lbm_rtp_proxy.Base.{length, ◌+◌, ◌≤◌, none, some, Option-cases, ◌≡◌, ◌⊎◌, inl, inr, refl, arith}
use lbm_rtp_proxy.Command.{Globals}
use lbm_rtp_proxy.Kernel.{Kernel}
use lbm_rtp_proxy.Config.{Config}
use lbm_rtp_proxy.Mangle.{untouched, get_ip_and_udp_headers, receive, conclude}
use lbm_rtp_proxy.Net.ByteOrder.{ByteOrder, ntohs}
use lbm_rtp_proxy.Packet.{SkBuff}
use lbm_rtp_proxy.Rewrite.Hooks.{MangleHook, Outcome}
use lbm_rtp_proxy.System.{IsHook}
use lbm_rtp_proxy.System.Calls.{receive-body, conclude-table}
use lbm_rtp_proxy.System.Hooks.{RowStep, StepsRow, NeverFaults}
use lbm_rtp_proxy.System.Invariant.{hook-fn}
use lbm_rtp_proxy.System.Packets.{IsPacket}
use lbm_rtp_proxy.Table.{Table, TableEntry, table_get}
use lbm_rtp_proxy.Table.Routing.{Routing, init_routing}
use lbm_rtp_proxy.Threads.Hooks.{
  Passing, Call, entered, looking_up, configured, joining, routed, returned, faulted, enter,
  look_up, apply_fn, leave_table, next,
}

module _ ⦃o : ByteOrder⦄ ⦃k : Kernel⦄ where
  -- The length field says no more than what is there.
  abbrev pub IsHonest : Passing → Type 0
  IsHonest p = ntohs p.udp.len ≤ 8 + length p.skb.body

  -- The local variables of a call at a hook of the module, with a packet in range.
  pub record IsPassing (p : Passing) : Type 0 where
    pub hook : IsHook p.mangle_hook
    pub fn : p.mangle_hook.fn ≡ some p.fn
    pub skb : IsPacket p.skb
    pub ip : p.skb.ip ≡ some p.ip
    pub udp : p.skb.udp ≡ some p.udp

  abbrev pub IsCall : Call → Type 0
  IsCall (entered mh skb) = IsHook mh × IsPacket skb
  IsCall (looking_up p) = IsPassing p
  IsCall (configured p cfg) = IsPassing p
  IsCall (joining p cfg ent rt) = IsPassing p
  IsCall (routed p ent rt) = IsPassing p
  IsCall (returned r) = Unit
  IsCall (faulted p) = IsPassing p × (IsHonest p → ⊥)

  passing-fn : (p : Passing) → IsPassing p → StepsRow p.fn × NeverFaults p.fn
  passing-fn p w =
      let (fn, call, keeps, safe) = hook-fn p.mangle_hook w.hook in
      let same : p.fn ≡ fn = cc (call, w.fn) in rw same (keeps, safe)

  -- Where each access leads to.
  pub enter_cases :
      (mh : MangleHook) (skb : SkBuff) (t : Table)
      → (enter mh skb t ≡ returned (untouched (some skb) t))
        ⊎ ((p : Passing) × (enter mh skb t ≡ looking_up p)
            × (p.mangle_hook ≡ mh)
            × (mh.fn ≡ some p.fn)
            × (p.skb ≡ skb)
            × (skb.ip ≡ some p.ip)
            × (skb.udp ≡ some p.udp))
  unfolding enter get_ip_and_udp_headers
  enter_cases mh skb t = elim (Option-cases mh.name) [
    | inl unnamed ↦ inl (ground arith)
    | inr (name, named) ↦ elim (Option-cases (get_ip_and_udp_headers (some skb))) [
      | inl other ↦ inl (ground arith)
      | inr ((ip, udp), found) ↦ elim (Option-cases mh.fn) [
        | inl empty ↦ inl (ground arith)
        | inr (fn, call) ↦
            let p : Passing = record { mangle_hook = mh; fn = fn; skb = skb; ip = ip; udp = udp } in
            inr (p, ground arith, refl, call, refl, ground arith, ground arith)
      ]
    ]
  ]

  pub look_up_cases :
      (p : Passing) (cfg : Config) (t : Table)
      → let entry = t p.udp.dest in
        let rt = init_routing p.udp.dest cfg entry in
        (look_up p cfg t ≡ returned (untouched (some p.skb) t))
        ⊎ (look_up p cfg t ≡ joining p cfg entry rt)
        ⊎ (look_up p cfg t ≡ routed p entry rt)
  unfolding look_up table_get
  look_up_cases p cfg t = ground arith

  pub apply_fn_cases :
      (p : Passing) (ent : TableEntry) (rt : Routing) (t : Table)
      → let received = receive p.mangle_hook.hooknum p.skb p.ip p.udp in
        ((p.fn p.ip p.udp received.0.body ent rt t ≡ none) × (apply_fn p ent rt t ≡ faulted p))
        ⊎ ((out : Outcome) × (p.fn p.ip p.udp received.0.body ent rt t ≡ some out)
            × (apply_fn p ent rt t
                ≡ returned (conclude p.mangle_hook.hooknum received.0 received.1 out)))
  unfolding apply_fn
  apply_fn_cases p ent rt t =
      let received = receive p.mangle_hook.hooknum p.skb p.ip p.udp in
      elim (Option-cases (p.fn p.ip p.udp received.0.body ent rt t)) [
        | inl fault ↦ inl (fault, ground arith)
        | inr (out, ran) ↦ inr (out, ran, ground arith)
      ]

  -- A call stays one of the module with a packet in range.
  pub next-IsCall : (g : Globals) (c : Call) → IsCall c → IsCall (next g c).1
  unfolding next
  next-IsCall g (entered mh skb) w = elim (enter_cases mh skb g.table) [
    | inl e ↦ rw e tt
    | inr (p, e, hook, fn, same, ip, udp) ↦ rw e (record {
      hook = rw hook w.0;
      fn = rw hook fn;
      skb = rw same w.1;
      ip = rw same ip;
      udp = rw same udp;
    })
  ]
  next-IsCall g (looking_up p) w = w
  next-IsCall g (configured p cfg) w = elim (look_up_cases p cfg g.table) [
    | inl e ↦ rw e tt
    | inr (inl e) ↦ rw e w
    | inr (inr e) ↦ rw e w
  ]
  next-IsCall g (joining p cfg ent rt) w = w
  next-IsCall g (routed p ent rt) w = elim (apply_fn_cases p ent rt g.table) [
    | inl (fault, e) ↦ rw e (
      w,
      λ fits.
          (passing-fn p w).1 p.ip p.udp _ ent rt g.table
            (rw (receive-body p.mangle_hook.hooknum p.skb p.ip p.udp) fits) fault,
    )
    | inr (out, ran, e) ↦ rw e tt
  ]
  next-IsCall g (returned r) w = tt
  next-IsCall g (faulted p) w = w

  -- An access of a call leaves the configuration, and changes no more than one row.
  pub next-config : (g : Globals) (c : Call) → (next g c).0.config ≡ g.config
  unfolding next
  next-config g c = ground arith

  pub next-RowStep : (g : Globals) (c : Call) → IsCall c → RowStep g.table (next g c).0.table
  unfolding next leave_table
  next-RowStep g (routed p ent rt) w = elim (apply_fn_cases p ent rt g.table) [
    | inl (fault, e) ↦ rw e (inl refl)
    | inr (out, ran, e) ↦
        let received = receive p.mangle_hook.hooknum p.skb p.ip p.udp in
        rw (e, conclude-table p.mangle_hook.hooknum received.0 received.1 out)
          ((passing-fn p w).0 p.ip p.udp _ ent rt g.table out
            (rw (receive-body p.mangle_hook.hooknum p.skb p.ip p.udp) w.skb.body) ran)
  ]
  next-RowStep g (entered mh skb) w = inl refl
  next-RowStep g (looking_up p) w = inl refl
  next-RowStep g (configured p cfg) w = inl refl
  next-RowStep g (joining p cfg ent rt) w = inl refl
  next-RowStep g (returned r) w = inl refl
  next-RowStep g (faulted p) w = inl refl
