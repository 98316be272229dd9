-- ===== src/Threads/Hooks/Routes.antt =====
-- The route that a call of a hook finds (get_routing of src/table.c) while writers change the
-- configuration and the table between its lookups.
use lbm_rtp_proxy.Base.{ℕ, some, ◌≡◌, ◌≢◌, ◌⊎◌, inl, inr, refl, subst, arith, ◌==◌, Bool-cases}
use lbm_rtp_proxy.Command.{Globals}
use lbm_rtp_proxy.Config.{Config, config_get}
use lbm_rtp_proxy.Kernel.{Kernel}
use lbm_rtp_proxy.Net.ByteOrder.{ByteOrder}
use lbm_rtp_proxy.Table.{Table, TableEntry, table_get, set_row}
use lbm_rtp_proxy.Table.Routing.{Routing, join_routing, get_routing}
use lbm_rtp_proxy.Threads.{idle, put-all}
use lbm_rtp_proxy.Threads.Hooks.{
  Passing, Call, entered, looking_up, configured, joining, routed, returned, faulted, look_up, next,
  Local, writing, calling, Machine, Step, command, arrival, call, leave, Reach, here, later,
}
use lbm_rtp_proxy.Threads.Hooks.Calls.{enter_cases, look_up_cases, apply_fn_cases}

module _ ⦃o : ByteOrder⦄ ⦃k : Kernel⦄ where
  -- The shared states of a run, from its beginning to now.
  pub data Past {g : Globals} : (d : Machine) → Reach g d → Globals → Type 0 where
    now : {d : Machine} {r : Reach g d} → Past d r d.mem
    before :
        {d e : Machine} {r : Reach g d} {st : Step d e} {h : Globals}
        → Past d r h
        → Past e (later r st) h

  -- The row of a port at one time, and the others at another.
  abbrev pub mixed : ℕ → Table → Table → Table
  mixed port own others = set_row port (own port) others

  look_up-routed :
      (p : Passing) (cfg : Config) (t t' : Table) (ent : TableEntry) (rt : Routing)
      → look_up p cfg t ≡ routed p ent rt
      → get_routing p.udp.dest cfg (mixed p.udp.dest t t') ≡ (ent, some rt)
  unfolding look_up get_routing table_get
  look_up-routed p cfg t t' ent rt e = ground arith

  look_up-joining :
      (p : Passing) (cfg : Config) (t t' : Table) (ent : TableEntry) (rt : Routing)
      → ent.sbc_port ≢ p.udp.dest
      → look_up p cfg t ≡ joining p cfg ent rt
      → get_routing p.udp.dest cfg (mixed p.udp.dest t t')
        ≡ (ent, some (join_routing ent.sbc_port cfg t' rt))
  unfolding look_up get_routing join_routing table_get
  look_up-joining p cfg t t' ent rt other e = ground arith

  -- Where a call has its local variables from, by the shared states that it can have seen.
  abbrev FoundIn : (Globals → Type 0) → Call → Type 0
  FoundIn Seen (configured p cfg) = (m : Globals) × Seen m × (cfg ≡ m.config)
  FoundIn Seen (joining p cfg ent rt) =
      (m : Globals) × (m' : Globals) × Seen m
      × Seen m'
      × (cfg ≡ m.config)
      × (look_up p cfg m'.table ≡ joining p cfg ent rt)
  FoundIn Seen (routed p ent rt) =
      (ent.sbc_port ≡ p.udp.dest)
      ⊎ ((m : Globals) × (m' : Globals) × (m'' : Globals) × Seen m
          × Seen m'
          × Seen m''
          × (get_routing p.udp.dest m.config (mixed p.udp.dest m'.table m''.table)
              ≡ (ent, some rt)))
  FoundIn Seen _ = Unit

  next-FoundIn :
      (Seen : Globals → Type 0) (g : Globals) (c : Call)
      → Seen g
      → FoundIn Seen c
      → FoundIn Seen (next g c).1
  unfolding next config_get
  next-FoundIn Seen g (entered mh skb) s f = elim (enter_cases mh skb g.table) [
    | inl e ↦ rw e tt
    | inr (p, e, hook, fn, same, ip, udp) ↦ rw e tt
  ]
  next-FoundIn Seen g (looking_up p) s f = (g, s, refl)
  next-FoundIn Seen g (configured p cfg) s (m, seen, same) = elim (look_up_cases p cfg g.table) [
    | inl e ↦ rw e tt
    | inr (inl e) ↦ rw e (m, g, seen, s, same, e)
    | inr (inr e) ↦
        rw e (inr (m, g, g, seen, s, s, rw (← same) (look_up-routed p cfg g.table g.table _ _ e)))
  ]
  next-FoundIn Seen g (joining p cfg ent rt) s (m, m', seen, seen', same, e) =
      elim (Bool-cases (ent.sbc_port == p.udp.dest)) [
        | inl own ↦ inl (ground arith)
        | inr other ↦ inr (
          m,
          m',
          g,
          seen,
          seen',
          s,
          rw (← same) (look_up-joining p cfg m'.table g.table ent rt (ground arith) e),
        )
      ]
  next-FoundIn Seen g (routed p ent rt) s f = elim (apply_fn_cases p ent rt g.table) [
    | inl (fault, e) ↦ rw e tt
    | inr (out, ran, e) ↦ rw e tt
  ]
  next-FoundIn Seen g (returned r) s f = tt
  next-FoundIn Seen g (faulted p) s f = tt

  module _ (Seen Seen' : Globals → Type 0) (more : (h : Globals) → Seen h → Seen' h) where
    FoundIn-mono : (c : Call) → FoundIn Seen c → FoundIn Seen' c
    FoundIn-mono (configured p cfg) (m, s, e) = (m, more m s, e)
    FoundIn-mono (joining p cfg ent rt) (m, m', s, s', e, e') = (m, m', more m s, more m' s', e, e')
    FoundIn-mono (routed p ent rt) (inl own) = inl own
    FoundIn-mono (routed p ent rt) (inr (m, m', m'', s, s', s'', e)) =
        inr (m, m', m'', more m s, more m' s', more m'' s'', e)
    FoundIn-mono (entered mh skb) f = tt
    FoundIn-mono (looking_up p) f = tt
    FoundIn-mono (returned r) f = tt
    FoundIn-mono (faulted p) f = tt

  abbrev LocalFoundIn : (Globals → Type 0) → Local → Type 0
  LocalFoundIn Seen (writing p) = Unit
  LocalFoundIn Seen (calling c) = FoundIn Seen c

  Step-FoundIn :
      {d e : Machine} (Seen : Globals → Type 0)
      → Seen d.mem
      → Step d e
      → ((j : ℕ) → LocalFoundIn Seen (d.pc j))
      → (j : ℕ) → LocalFoundIn Seen (e.pc j)
  Step-FoundIn {d} Seen s (command i {p} {p'} at mv h) f =
      put-all (LocalFoundIn Seen) i (writing p') d.pc tt f
  Step-FoundIn {d} Seen s (arrival i mh skb at h packet) f =
      put-all (LocalFoundIn Seen) i (calling (entered mh skb)) d.pc tt f
  Step-FoundIn {d} Seen s (call i {c} at under) f =
      put-all (LocalFoundIn Seen) i (calling (next d.mem c).1) d.pc
        (next-FoundIn Seen d.mem c s (subst (LocalFoundIn Seen) at (f i))) f
  Step-FoundIn {d} Seen s (leave i at) f = put-all (LocalFoundIn Seen) i (writing idle) d.pc tt f

  Local-mono :
      (Seen Seen' : Globals → Type 0) (l : Local)
      → ((h : Globals) → Seen h → Seen' h)
      → LocalFoundIn Seen l
      → LocalFoundIn Seen' l
  Local-mono Seen Seen' (writing p) more f = tt
  Local-mono Seen Seen' (calling c) more f = FoundIn-mono Seen Seen' more c f

  Reach-FoundIn :
      (g : Globals) (d : Machine) (r : Reach g d) (j : ℕ) → LocalFoundIn (Past d r) (d.pc j)
  Reach-FoundIn g _ here j = tt
  Reach-FoundIn g e (later {d} r st) j =
      Local-mono (Past d r) (Past e (later r st)) (e.pc j) (λ h s. before s)
        (Step-FoundIn (Past d r) now st (Reach-FoundIn g d r) j)

  -- However the accesses of writers and of hook calls interleave, where a row does not lead back to its
  -- own port, the row and the route with which a call runs its hook function are those that
  -- get_routing finds with the configuration as it was at one time before and a table of which the row
  -- of the port is as it was at a second time and the others as they were at a third.
  pub Reach-route :
      (g : Globals) (d : Machine) (r : Reach g d) (i : ℕ) (p : Passing) (ent : TableEntry)
      (rt : Routing)
      → d.pc i ≡ calling (routed p ent rt)
      → ent.sbc_port ≢ p.udp.dest
      → (m : Globals) × (m' : Globals) × (m'' : Globals) × Past d r m
        × Past d r m'
        × Past d r m''
        × (get_routing p.udp.dest m.config (mixed p.udp.dest m'.table m''.table) ≡ (ent, some rt))
  Reach-route g d r i p ent rt at other =
      elim (subst (LocalFoundIn (Past d r)) at (Reach-FoundIn g d r i)) [
        | inl own ↦ absurd (other own)
        | inr found ↦ found
      ]
