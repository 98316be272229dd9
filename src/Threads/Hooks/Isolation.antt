-- ===== src/Threads/Hooks/Isolation.antt =====
-- A call of a hook (src/mangle.c) between whose accesses no command touches what it looks up.
use lbm_rtp_proxy.Base.{
  ℕ, zero, suc, ◌-◌, ◌≤◌, none, some, ◌≡◌, inl, inr, refl, sym, ap, ap₂, ◌∙◌, arith,
}
use lbm_rtp_proxy.Command.{Globals}
use lbm_rtp_proxy.Config.{config_get}
use lbm_rtp_proxy.Kernel.{Kernel}
use lbm_rtp_proxy.Mangle.{HookResult, generic_hook_func, mangle}
use lbm_rtp_proxy.Net.ByteOrder.{ByteOrder}
use lbm_rtp_proxy.Packet.{UdpHeader, SkBuff}
use lbm_rtp_proxy.Rewrite.Hooks.{MangleHook}
use lbm_rtp_proxy.Spec.{Ends, ends, entry_of}
use lbm_rtp_proxy.System.{IsHook}
use lbm_rtp_proxy.Table.{TableEntry}
use lbm_rtp_proxy.Table.Routing.{Routing, init_routing, join_routing, get_routing}
use lbm_rtp_proxy.Threads.Hooks.{
  Passing, Call, entered, looking_up, routed, returned, faulted, next,
}
use lbm_rtp_proxy.Threads.Hooks.Lookups.{
  route_of, get_routing-route_of, join_routing-ends, look_up_route, mangle-none, mangle-some,
  IgnoresRow, hook-IgnoresRow, applied-IgnoresRow,
}
use lbm_rtp_proxy.Threads.Hooks.Whole.{answered, applied, applied_cases, enter-generic_hook_func}

module _ ⦃o : ByteOrder⦄ ⦃k : Kernel⦄ where
  -- A call after some of its accesses, by the shared state as it finds it at each of them.
  pub through : (ℕ → Globals) → ℕ → Call → Call
  through f zero c = c
  through f (suc n) c = through (λ i. f (suc i)) n (next (f 0) c).1

  -- The configuration, and the addresses and ports of the row of a port and of the row that it leads to,
  -- are the same at all accesses.
  pub record Quiet (f : ℕ → Globals) (port : ℕ) : Type 0 where
    pub config : (i : ℕ) → (f i).config ≡ (f 0).config
    pub row : (i : ℕ) → ends ((f i).table port) ≡ ends ((f 0).table port)
    pub other :
        (i : ℕ)
        → ends ((f i).table ((f 0).table port).sbc_port)
          ≡ ends ((f 0).table ((f 0).table port).sbc_port)

  through-returned :
      (n : ℕ) (f : ℕ → Globals) (r : HookResult) → answered (through f n (returned r)) ≡ some r
  unfolding through next
  through-returned zero f r = refl
  through-returned (suc n) f r = through-returned n (λ i. f (suc i)) r

  through-faulted :
      (n : ℕ) (f : ℕ → Globals) (p : Passing) → answered (through f n (faulted p)) ≡ none
  unfolding through next
  through-faulted zero f p = refl
  through-faulted (suc n) f p = through-faulted n (λ i. f (suc i)) p

  through-routed :
      (n : ℕ) (f : ℕ → Globals) (p : Passing) (ent : TableEntry) (rt : Routing)
      → answered (through f (suc n) (routed p ent rt)) ≡ applied p ent rt (f 0).table
  unfolding through next
  through-routed n f p ent rt = elim (applied_cases p ent rt (f 0).table) [
    | inl (e, result) ↦ rw (e, result) (through-faulted n (λ i. f (suc i)) p)
    | inr (r, e, result) ↦ rw (e, result) (through-returned n (λ i. f (suc i)) r)
  ]

  module _ (f : ℕ → Globals) (port : ℕ) (q : Quiet f port) where
    other-Quiet :
        (i j : ℕ)
        → let next_port = ((f j).table port).sbc_port in
          ends ((f i).table next_port) ≡ ends ((f 0).table ((f 0).table port).sbc_port)
    other-Quiet i j =
        ap (λ (x : ℕ). ends ((f i).table x)) (ap (λ (e : Ends). e.sbc_port) (q.row j)) ∙ q.other i

    route_at :
        (i : ℕ)
        → (get_routing port (f 0).config (f i).table).1
          ≡ route_of port
              (f 0).config
              (ends ((f 0).table port))
              (ends ((f 0).table ((f 0).table port).sbc_port))
    route_at i =
        get_routing-route_of port (f 0).config (f i).table
        ∙ ap₂ (route_of port (f 0).config) (q.row i) (other-Quiet i i)

    -- A route that is found at one access is the route at any other.
    route-Quiet :
        (i j : ℕ)
        → (get_routing port (f 0).config (f i).table).1
          ≡ (get_routing port (f j).config (f j).table).1
    route-Quiet i j = rw (q.config j) (route_at i ∙ sym (route_at j))

    join_routing-Quiet :
        (i j : ℕ) (rt : Routing)
        → let next_port = ((f j).table port).sbc_port in
          join_routing next_port (f 0).config (f i).table rt
          ≡ join_routing next_port (f 0).config (f j).table rt
    join_routing-Quiet i j rt =
        let next_port = ((f j).table port).sbc_port in
        join_routing-ends next_port (f 0).config (f i).table rt
        ∙ ap (λ (x : Ends). join_routing next_port (f 0).config (λ n. entry_of x) rt)
            (other-Quiet i j ∙ sym (other-Quiet j j))
        ∙ sym (join_routing-ends next_port (f 0).config (f j).table rt)

  applied-Quiet :
      (f : ℕ → Globals) (p : Passing) (i j : ℕ) (rt : Routing)
      → IgnoresRow p.fn
      → Quiet f p.udp.dest
      → (get_routing p.udp.dest (f 0).config (f i).table).1 ≡ some rt
      → applied p ((f i).table p.udp.dest) rt (f j).table
        ≡ mangle p.fn p.mangle_hook.hooknum p.skb p.ip p.udp (f j).config (f j).table
  applied-Quiet f p i j rt same q e =
      applied-IgnoresRow p _ ((f j).table p.udp.dest) rt (f j).table same
      ∙ sym (mangle-some p (f j).config (f j).table rt (sym (route-Quiet f p.udp.dest q i j) ∙ e))

  looking_up-Quiet :
      (n : ℕ) (f : ℕ → Globals) (p : Passing)
      → IgnoresRow p.fn
      → Quiet f p.udp.dest
      → (m : ℕ) × (m ≤ 3)
        × (answered (through f (suc (suc (suc (suc n)))) (looking_up p))
            ≡ mangle p.fn p.mangle_hook.hooknum p.skb p.ip p.udp (f m).config (f m).table)
  unfolding through next config_get
  looking_up-Quiet n f p same q = elim (look_up_route p (f 0).config (f 1).table) [
    | inl (e, found) ↦ (
      1,
      omega arith,
      rw e (through-returned (suc (suc n)) (λ i. f (suc (suc i))) _)
          ∙ sym (
              mangle-none p (f 1).config (f 1).table
                (sym (route-Quiet f p.udp.dest q 1 1) ∙ found)),
    )
    | inr (inl (e, found)) ↦ (
      3,
      omega arith,
      rw (e, join_routing-Quiet f p.udp.dest q 2 1 (init_routing p.udp.dest (f 0).config _))
            (through-routed n (λ i. f (suc (suc (suc i)))) p _ _)
          ∙ applied-Quiet f p 1 3 _ same q found,
    )
    | inr (inr (e, found)) ↦ (
      2,
      omega arith,
      rw e (through-routed (suc n) (λ i. f (suc (suc i))) p _ _)
          ∙ applied-Quiet f p 1 2 _ same q found,
    )
  ]

  Quiet-later : (f : ℕ → Globals) (port : ℕ) → Quiet f port → Quiet (λ i. f (suc i)) port
  Quiet-later f port q = record {
    config = λ i. q.config (suc i) ∙ sym (q.config 1);
    row = λ i. q.row (suc i) ∙ sym (q.row 1);
    other = λ i. other-Quiet f port q (suc i) 1 ∙ sym (other-Quiet f port q 1 1);
  }

  entered-Quiet :
      (n : ℕ) (f : ℕ → Globals) (mh : MangleHook) (skb : SkBuff) (udp : UdpHeader)
      → IsHook mh
      → skb.udp ≡ some udp
      → Quiet f udp.dest
      → (m : ℕ) × (m ≤ 4)
        × (answered (through f (suc (suc (suc (suc (suc n))))) (entered mh skb))
            ≡ generic_hook_func (some mh) (some skb) mh.hooknum (f m).config (f m).table)
  unfolding through next
  entered-Quiet n f mh skb udp h at q = elim (enter-generic_hook_func mh skb (f 0).table) [
    | inl (e, result) ↦ (
      0,
      omega arith,
      rw (e, result (f 0).config) (through-returned (suc (suc (suc (suc n)))) (λ i. f (suc i)) _),
    )
    | inr (p, e, call, headed, result) ↦
        let same : udp ≡ p.udp = cc (at, headed) in
        let (m, bound, returns) =
          looking_up-Quiet n (λ i. f (suc i)) p (hook-IgnoresRow mh p.fn h call)
            (rw same at (Quiet-later f udp.dest q)) in
        (suc m, omega arith, rw e returns ∙ sym (result (f (suc m)).config (f (suc m)).table))
  ]

  -- As long as the configuration and the addresses and ports of the row of a packet's port, and of the row
  -- that it leads to, are the same at all accesses of a call at a hook of the module, the call returns,
  -- whatever else changes in between, what generic_hook_func returns if it runs as a whole at one of
  -- the first five, or nothing where that faults.
  pub through-Quiet :
      (n : ℕ) (f : ℕ → Globals) (mh : MangleHook) (skb : SkBuff) (udp : UdpHeader)
      → 5 ≤ n
      → IsHook mh
      → skb.udp ≡ some udp
      → Quiet f udp.dest
      → (m : ℕ) × (m ≤ 4)
        × (answered (through f n (entered mh skb))
            ≡ generic_hook_func (some mh) (some skb) mh.hooknum (f m).config (f m).table)
  through-Quiet n f mh skb udp enough h at q =
      let steps : n ≡ suc (suc (suc (suc (suc (n - 5))))) = omega arith in
      rw steps (entered-Quiet (n - 5) f mh skb udp h at q)
