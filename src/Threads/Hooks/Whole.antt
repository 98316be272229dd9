-- ===== src/Threads/Hooks/Whole.antt =====
-- A call of a hook that nobody interrupts, access by access, and `generic_hook_func` of src/mangle.c as
-- one step.
use lbm_rtp_proxy.Base.{
  ℕ, zero, suc, Option, none, some, Option-cases, ◌≡◌, ◌⊎◌, inl, inr, refl, ◌-◌, ◌≤◌, arith,
}
use lbm_rtp_proxy.Command.{Globals}
use lbm_rtp_proxy.Config.{Config, config_get}
use lbm_rtp_proxy.Kernel.{Kernel}
use lbm_rtp_proxy.Mangle.{
  HookResult, untouched, generic_hook_func, mangle, receive, conclude, get_ip_and_udp_headers,
}
use lbm_rtp_proxy.Net.ByteOrder.{ByteOrder}
use lbm_rtp_proxy.Packet.{SkBuff}
use lbm_rtp_proxy.Rewrite.Hooks.{MangleHook}
use lbm_rtp_proxy.Table.{Table, TableEntry, table_get}
use lbm_rtp_proxy.Table.Routing.{Routing, init_routing, join_routing, get_routing}
use lbm_rtp_proxy.Threads.Hooks.{
  Passing, Call, entered, looking_up, joining, routed, returned, faulted, enter, look_up, apply_fn,
  leave_table, next,
}
use lbm_rtp_proxy.Threads.Hooks.Calls.{apply_fn_cases}

-- What a call returned, if it did.
abbrev pub answered : Call → Option HookResult
answered (returned r) = some r
answered _ = none

abbrev pub IsOver : Call → Type 0
IsOver (returned r) = Unit
IsOver (faulted p) = Unit
IsOver _ = ⊥

-- The configuration stays, and so does the table unless a call returns one.
abbrev pub left_by : Globals → Option HookResult → Globals
left_by g none = g
left_by g (some r) = record g { table = r.table }

module _ ⦃o : ByteOrder⦄ ⦃k : Kernel⦄ where
  -- Some accesses of a call with no other in between.
  unfoldable pub run : ℕ → Globals → Call → Globals × Call
  run zero g c = (g, c)
  run (suc n) g c = run n (next g c).0 (next g c).1

  -- The end of a call, and the state that it leaves, from what is returned.
  record Ends (r : Globals × Call) (g : Globals) (result : Option HookResult) : Type 0 where
    over : IsOver r.1
    answer : answered r.1 ≡ result
    mem : r.0 ≡ left_by g result

  returned-Ends :
      (n : ℕ) (g : Globals) (r : HookResult)
      → Ends (run n (record g { table = r.table }) (returned r)) g (some r)
  unfolding run next
  returned-Ends zero g r = record { over = tt; answer = refl; mem = refl }
  returned-Ends (suc n) g r = returned-Ends n g r

  faulted-Ends : (n : ℕ) (g : Globals) (p : Passing) → Ends (run n g (faulted p)) g none
  unfolding run next
  faulted-Ends zero g p = record { over = tt; answer = refl; mem = refl }
  faulted-Ends (suc n) g p = faulted-Ends n g p

  -- From the hook function on.
  unfoldable pub applied : Passing → TableEntry → Routing → Table → Option HookResult
  applied p ent rt table =
      let received = receive p.mangle_hook.hooknum p.skb p.ip p.udp in
      elim (p.fn p.ip p.udp received.0.body ent rt table) [
        | none ↦ none
        | some out ↦ some (conclude p.mangle_hook.hooknum received.0 received.1 out)
      ]

  pub applied_cases :
      (p : Passing) (ent : TableEntry) (rt : Routing) (t : Table)
      → ((apply_fn p ent rt t ≡ faulted p) × (applied p ent rt t ≡ none))
        ⊎ ((r : HookResult) × (apply_fn p ent rt t ≡ returned r) × (applied p ent rt t ≡ some r))
  unfolding applied
  applied_cases p ent rt t = elim (apply_fn_cases p ent rt t) [
    | inl (fault, e) ↦ inl (e, ground arith)
    | inr (out, ran, e) ↦ inr (_, e, ground arith)
  ]

  routed-Ends :
      (n : ℕ) (g : Globals) (p : Passing) (ent : TableEntry) (rt : Routing)
      → Ends (run (suc n) g (routed p ent rt)) g (applied p ent rt g.table)
  unfolding run next leave_table
  routed-Ends n g p ent rt = elim (applied_cases p ent rt g.table) [
    | inl (e, result) ↦ rw (e, result) (faulted-Ends n g p)
    | inr (r, e, result) ↦ rw (e, result) (returned-Ends n g r)
  ]

  mangle-look_up :
      (g : Globals) (p : Passing)
      → let cfg = config_get g.config in
        let entry = g.table p.udp.dest in
        let rt = init_routing p.udp.dest cfg entry in
        let result = mangle p.fn p.mangle_hook.hooknum p.skb p.ip p.udp g.config g.table in
        let pass = untouched (some p.skb) g.table in
        ((look_up p cfg g.table ≡ returned pass) × (result ≡ some pass))
        ⊎ ((look_up p cfg g.table ≡ joining p cfg entry rt)
            × (result ≡ applied p entry (join_routing entry.sbc_port cfg g.table rt) g.table))
        ⊎ ((look_up p cfg g.table ≡ routed p entry rt) × (result ≡ applied p entry rt g.table))
  unfolding look_up mangle get_routing table_get applied
  mangle-look_up g p = ground arith

  mangle-Ends :
      (n : ℕ) (g : Globals) (p : Passing)
      → Ends
          (run (suc (suc (suc (suc n)))) g (looking_up p))
          g
          (mangle p.fn p.mangle_hook.hooknum p.skb p.ip p.udp g.config g.table)
  unfolding run next
  mangle-Ends n g p = elim (mangle-look_up g p) [
    | inl (e, result) ↦
        rw (e, result) (returned-Ends (suc (suc n)) g (untouched (some p.skb) g.table))
    | inr (inl (e, result)) ↦ rw (e, result) (routed-Ends n g p (g.table p.udp.dest) _)
    | inr (inr (e, result)) ↦ rw (e, result) (routed-Ends (suc n) g p (g.table p.udp.dest) _)
  ]

  -- The beginning of a call, and what generic_hook_func returns then.
  pub enter-generic_hook_func :
      (mh : MangleHook) (skb : SkBuff) (t : Table)
      → let pass = untouched (some skb) t in
        ((enter mh skb t ≡ returned pass)
          × ((cfg : Config) → generic_hook_func (some mh) (some skb) mh.hooknum cfg t ≡ some pass))
        ⊎ ((p : Passing) × (enter mh skb t ≡ looking_up p)
            × (mh.fn ≡ some p.fn)
            × (skb.udp ≡ some p.udp)
            × ((cfg : Config) (t' : Table)
                → generic_hook_func (some mh) (some skb) mh.hooknum cfg t'
                  ≡ mangle p.fn p.mangle_hook.hooknum p.skb p.ip p.udp cfg t'))
  unfolding enter generic_hook_func get_ip_and_udp_headers
  enter-generic_hook_func mh skb t = elim (Option-cases mh.name) [
    | inl unnamed ↦ inl (ground arith, λ cfg. ground arith)
    | inr (name, named) ↦ elim (Option-cases (get_ip_and_udp_headers (some skb))) [
      | inl other ↦ inl (ground arith, λ cfg. ground arith)
      | inr ((ip, udp), found) ↦ elim (Option-cases mh.fn) [
        | inl empty ↦ inl (ground arith, λ cfg. ground arith)
        | inr (fn, own) ↦ inr (
          record { mangle_hook = mh; fn = fn; skb = skb; ip = ip; udp = udp },
          ground arith,
          own,
          ground arith,
          λ cfg t'. ground arith,
        )
      ]
    ]
  ]

  entered-Ends :
      (n : ℕ) (g : Globals) (mh : MangleHook) (skb : SkBuff)
      → Ends
          (run (suc (suc (suc (suc (suc n))))) g (entered mh skb))
          g
          (generic_hook_func (some mh) (some skb) mh.hooknum g.config g.table)
  unfolding run next
  entered-Ends n g mh skb = elim (enter-generic_hook_func mh skb g.table) [
    | inl (e, result) ↦
        rw (e, result g.config)
          (returned-Ends (suc (suc (suc (suc n)))) g (untouched (some skb) g.table))
    | inr (p, e, fn, udp, result) ↦ rw (e, result g.config g.table) (mangle-Ends n g p)
  ]

  -- A call of a hook that nobody interrupts is over after five steps and stays so. It has answered what
  -- generic_hook_func returns, or nothing where that faults, and the shared state is the one that
  -- generic_hook_func leaves.
  pub run-generic_hook_func :
      (n : ℕ) (g : Globals) (mh : MangleHook) (skb : SkBuff)
      → 5 ≤ n
      → let result = generic_hook_func (some mh) (some skb) mh.hooknum g.config g.table in
        let (mem, c) = run n g (entered mh skb) in
        IsOver c × (answered c ≡ result) × (mem ≡ left_by g result)
  run-generic_hook_func n g mh skb enough =
      let e = entered-Ends (n - 5) g mh skb in
      let steps : n ≡ suc (suc (suc (suc (suc (n - 5))))) = omega arith in
      rw steps (e.over, e.answer, e.mem)
