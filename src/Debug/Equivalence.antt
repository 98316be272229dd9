-- ===== src/Debug/Equivalence.antt =====
-- The module as it is built with DEBUG and without, side by side (generic_hook_func of src/mangle.c).
use Prim.Native.String.{String}
use lbm_rtp_proxy.Base.{
  ℕ, Option, none, some, List, ◌≡◌, ◌++◌, ◌>>=◌, refl, arith, Option-cases, inl, inr, map, All, zip,
}
use lbm_rtp_proxy.Checksum.{Warning}
use lbm_rtp_proxy.Config.{Config, config_get}
use lbm_rtp_proxy.Debug.{BufferInfo}
use lbm_rtp_proxy.Debug.Builds.{
  left, left_debug, Agrees, pre_route-Agrees, local_out-Agrees, local_in-Agrees, post_route-Agrees,
  conclude_debug-left,
}
use lbm_rtp_proxy.Debug.Hooks.{Print, line, alert, DebugFn, DebugHook, get_mangle_hooks_debug}
use lbm_rtp_proxy.Debug.Incoming.{receive_debug}
use lbm_rtp_proxy.Debug.Laws.{receive_debug_lem}
use lbm_rtp_proxy.Debug.Outgoing.{conclude_debug, mangle_debug, generic_hook_func_debug}
use lbm_rtp_proxy.Kernel.{Kernel}
use lbm_rtp_proxy.Mangle.{receive, conclude, mangle, generic_hook_func, get_ip_and_udp_headers}
use lbm_rtp_proxy.Net.ByteOrder.{ByteOrder}
use lbm_rtp_proxy.Packet.{IpHeader, UdpHeader, SkBuff}
use lbm_rtp_proxy.Rewrite.Hooks.{HookFn, MangleHook, Outcome, get_mangle_hooks}
use lbm_rtp_proxy.Table.{Table}
use lbm_rtp_proxy.Table.Routing.{Routing, get_routing}

module _ ⦃o : ByteOrder⦄ ⦃k : Kernel⦄ where
  -- From the end of the hook function on.
  finish :
      (hook : ℕ) (skb : SkBuff) (info : BufferInfo) (printed : List Print → List Print)
      (warned : List Warning)
      → (called : Option (Outcome × List Print))
      → left_debug (called >>= λ c. some (conclude_debug hook skb info (printed c.1) c.0))
        ≡ left ((called >>= λ c. some c.0) >>= λ out. some (conclude hook skb warned out))
  finish hook skb info printed warned none = refl
  finish hook skb info printed warned (some (out, more)) =
      conclude_debug-left hook skb info (printed more) warned out

  module _ (name : String) (fnd : DebugFn) (fn : HookFn) (hook : ℕ) (skb : SkBuff)
      (info : BufferInfo) (ip : IpHeader) (udp : UdpHeader) (cfg : Config) (t : Table) where
    mangle-routed :
        (rt : Routing)
        → (get_routing udp.dest cfg t).1 ≡ some rt
        → mangle fn hook skb ip udp cfg t ≡ (
            fn ip udp (receive hook skb ip udp).0.body (get_routing udp.dest cfg t).0 rt t
            >>= λ out.
                some (conclude hook (receive hook skb ip udp).0 (receive hook skb ip udp).1 out))
    unfolding mangle config_get
    mangle-routed rt routed = rw (mangle, config_get, routed) (ground arith)

    mangle_debug-left :
        Agrees fnd fn
        → left_debug (mangle_debug name fnd hook skb info ip udp cfg t)
          ≡ left (mangle fn hook skb ip udp cfg t)
    unfolding mangle_debug mangle config_get
    mangle_debug-left same = elim (Option-cases (get_routing udp.dest cfg t).1) [
      | inl unrouted ↦ ground arith
      | inr (rt, routed) ↦
          let s = (receive hook skb ip udp).0 in
          let ent = (get_routing udp.dest cfg t).0 in
          let lines = (receive_debug name hook skb info ip udp).1 in
          let alerts = (receive_debug name hook skb info ip udp).2 in
          rw
            (
              mangle_debug,
              mangle-routed rt routed,
              config_get,
              routed,
              receive_debug_lem name hook skb info ip udp,
              ← same ip udp s.body ent rt t,
            )
            (finish hook s info (λ more. map line lines ++ map alert alerts ++ more)
              (receive hook skb ip udp).1 (fnd ip udp s.body ent rt t))
    ]

  generic_debug :
      (dh : DebugHook) (mh : MangleHook) (name : String) (fnd : DebugFn) (fn : HookFn)
      (skb : SkBuff) (info : BufferInfo) (hook : ℕ) (cfg : Config) (t : Table)
      → (dh.name ≡ some name) × (mh.name ≡ some name)
      → (dh.fn ≡ some fnd) × (mh.fn ≡ some fn)
      → Agrees fnd fn
      → left_debug (generic_hook_func_debug (some dh) (some skb) info hook cfg t)
        ≡ left (generic_hook_func (some mh) (some skb) hook cfg t)
  unfolding generic_hook_func_debug generic_hook_func
  generic_debug dh mh name fnd fn skb info hook cfg t named call same =
      elim (Option-cases (get_ip_and_udp_headers (some skb))) [
        | inl other ↦ ground arith
        | inr ((ip, udp), found) ↦
            ground (arith, mangle_debug-left name fnd fn hook skb info ip udp cfg t same)
      ]

  -- A packet goes through each hook of the module in the same way in a DEBUG build as in one without:
  -- it gets the same verdict, leaves the buffer and the table the same, and rewrite_rtp faults in
  -- the one where it faults in the other.
  pub generic_hook_func_debug_lem :
      (skb : SkBuff) (info : BufferInfo) (hook : ℕ) (cfg : Config) (t : Table)
      → All
          (λ (builds : DebugHook × MangleHook).
            left_debug (generic_hook_func_debug (some builds.0) (some skb) info hook cfg t)
            ≡ left (generic_hook_func (some builds.1) (some skb) hook cfg t))
          (zip get_mangle_hooks_debug get_mangle_hooks)
  unfolding get_mangle_hooks_debug get_mangle_hooks zip
  generic_hook_func_debug_lem skb info hook cfg t = (
    generic_debug _ _ "PRE_ROUTING " _ _ skb info hook cfg t (refl, refl) (refl, refl)
        pre_route-Agrees,
    (
      generic_debug _ _ "LOCAL_IN    " _ _ skb info hook cfg t (refl, refl) (refl, refl)
          local_in-Agrees,
      (
        generic_debug _ _ "LOCAL_OUT   " _ _ skb info hook cfg t (refl, refl) (refl, refl)
            local_out-Agrees,
        (
          generic_debug _ _ "POST_ROUTING" _ _ skb info hook cfg t (refl, refl) (refl, refl)
              post_route-Agrees,
          tt,
        ),
      ),
    ),
  )
