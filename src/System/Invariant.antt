-- ===== src/System/Invariant.antt =====
-- The invariant of the module in operation, and the faults of its hooks.
use lbm_rtp_proxy.Base.{
  ℕ, length, ◌+◌, ◌≤◌, Bool, some, none, ◌≡◌, ◌≢◌, inl, inr, sym, ap, ◌∙◌, arith,
}
use lbm_rtp_proxy.Command.{Globals}
use lbm_rtp_proxy.Command.Formats.{Scanner}
use lbm_rtp_proxy.Command.Laws.{IsGlobals, handle_command-IsGlobals}
use lbm_rtp_proxy.Config.{Config, config_init, config_clr-IsConfig}
use lbm_rtp_proxy.Kernel.{Kernel}
use lbm_rtp_proxy.Mangle.{HookResult, generic_hook_func}
use lbm_rtp_proxy.Net.ByteOrder.{ByteOrder, ntohs}
use lbm_rtp_proxy.Packet.{SkBuff, UdpHeader}
use lbm_rtp_proxy.Procfs.Writing.{rtp_proxy_write_lem}
use lbm_rtp_proxy.Rewrite.Hooks.{
  MangleHook, HookFn, pre_routing_hook, local_in_hook, local_out_hook, post_routing_hook,
  pre_route_udp_packet, local_in_udp_packet, local_out_udp_packet, post_route_udp_packet,
}
use lbm_rtp_proxy.Rewrite.Rtp.Laws.{IsBytes}
use lbm_rtp_proxy.Startup.{ModuleState, rtp_proxy_init}
use lbm_rtp_proxy.Startup.Laws.{init-globals}
use lbm_rtp_proxy.System.{IsHook, Step, write, packet, Reachable, loaded, stepped}
use lbm_rtp_proxy.System.Calls.{mangle-RowStep, mangle-ne-none, generic_hook_func_cases}
use lbm_rtp_proxy.System.Hooks.{
  RowStep, RowStep-IsTable, StepsRow, NeverFaults, pre_route-StepsRow, local_in-StepsRow,
  local_out-StepsRow, post_route-StepsRow, pre_route-NeverFaults, local_in-NeverFaults,
  local_out-NeverFaults, post_route-NeverFaults,
}
use lbm_rtp_proxy.Table.{Table, table_init}
use lbm_rtp_proxy.Table.Laws.{table_clr-IsTable}

module _ ⦃o : ByteOrder⦄ ⦃k : Kernel⦄ where
  -- The function of a hook of the module.
  pub hook-fn :
      (mh : MangleHook)
      → IsHook mh
      → (fn : HookFn) × (mh.fn ≡ some fn) × StepsRow fn × NeverFaults fn
  unfolding pre_routing_hook local_in_hook local_out_hook post_routing_hook
  hook-fn mh (inl e) = (
    pre_route_udp_packet,
    ap (λ (m : MangleHook). m.fn) e,
    pre_route-StepsRow,
    pre_route-NeverFaults,
  )
  hook-fn mh (inr (inl e)) = (
    local_in_udp_packet,
    ap (λ (m : MangleHook). m.fn) e,
    local_in-StepsRow,
    local_in-NeverFaults,
  )
  hook-fn mh (inr (inr (inl e))) = (
    local_out_udp_packet,
    ap (λ (m : MangleHook). m.fn) e,
    local_out-StepsRow,
    local_out-NeverFaults,
  )
  hook-fn mh (inr (inr (inr e))) = (
    post_route_udp_packet,
    ap (λ (m : MangleHook). m.fn) e,
    post_route-StepsRow,
    post_route-NeverFaults,
  )

  pub generic_hook_func-RowStep :
      (mh : MangleHook) (skb : SkBuff) (hook : ℕ) (cfg : Config) (t : Table) (r : HookResult)
      → IsHook mh
      → IsBytes skb.body
      → generic_hook_func (some mh) (some skb) hook cfg t ≡ some r
      → RowStep t r.table
  generic_hook_func-RowStep mh skb hook cfg t r h bytes e =
      let (fn, call, keeps, safe) = hook-fn mh h in
      elim (generic_hook_func_cases fn hook skb cfg t mh call) [
        | inl passed ↦ inl (ground arith)
        | inr (ip, udp, found, headed, mangled) ↦
            mangle-RowStep fn hook skb cfg t ip udp r keeps bytes (sym mangled ∙ e)
      ]

  -- rewrite_rtp, at any hook of the module, does not read or write behind the end of a packet whose
  -- length field says no more than what is there, whatever the configuration and the table.
  pub generic_hook_func-ne-none :
      (mh : MangleHook) (skb : SkBuff) (hook : ℕ) (cfg : Config) (t : Table)
      → IsHook mh
      → ((udp : UdpHeader) → skb.udp ≡ some udp → ntohs udp.len ≤ 8 + length skb.body)
      → generic_hook_func (some mh) (some skb) hook cfg t ≢ none
  generic_hook_func-ne-none mh skb hook cfg t h fits e =
      let (fn, call, keeps, safe) = hook-fn mh h in
      elim (generic_hook_func_cases fn hook skb cfg t mh call) [
        | inl passed ↦ ground arith
        | inr (ip, udp, found, headed, mangled) ↦
            mangle-ne-none fn hook skb cfg t ip udp safe (fits udp headed) (sym mangled ∙ e)
      ]

  init-IsGlobals :
      (nf_max_hooks : ℕ) (success : Bool) (st : ModuleState)
      → IsGlobals (rtp_proxy_init nf_max_hooks success st).globals
  unfolding config_init table_init
  init-IsGlobals nf_max_hooks success st = rw (init-globals nf_max_hooks success st) (record {
    config = config_clr-IsConfig st.globals.config;
    table = table_clr-IsTable st.globals.table;
  })

module _ ⦃o : ByteOrder⦄ ⦃k : Kernel⦄ ⦃s : Scanner⦄ where
  Step-IsGlobals : (g g' : Globals) → Step g g' → IsGlobals g → IsGlobals g'
  Step-IsGlobals g g' (write alloc copied user_buffer random_sn _ r) w =
      elim (rtp_proxy_write_lem alloc copied user_buffer random_sn g) [
        | inl (same, _, _) ↦ rw same w
        | inr (_, _, handled, _, _) ↦ rw handled (handle_command-IsGlobals _ random_sn g r w)
      ]
  Step-IsGlobals g g' (packet mh skb _ r h bytes e) w = record {
    config = w.config;
    table =
        RowStep-IsTable g.table r.table
          (generic_hook_func-RowStep mh skb mh.hooknum g.config g.table r h bytes e) w.table;
  }

  -- Whatever is written to the proc file and whatever packets arrive, in any order, from the loading
  -- of the module on, every field of the configuration and of the table is in the range of its type.
  pub Reachable-IsGlobals : (g : Globals) → Reachable g → IsGlobals g
  Reachable-IsGlobals g (loaded nf_max_hooks success st) = init-IsGlobals nf_max_hooks success st
  Reachable-IsGlobals g (stepped before _ r step) =
      Step-IsGlobals before g step (Reachable-IsGlobals before r)
