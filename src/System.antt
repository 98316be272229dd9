-- ===== src/System.antt =====
-- The module in operation: what its static variables can hold after any sequence of writes to the
-- proc file (src/procfs.c) and calls of the netfilter hooks (src/mangle.c, src/rewrite.c).
pub mod Hooks
pub mod Calls
pub mod Packets
pub mod Invariant
pub mod Inside
use lbm_rtp_proxy.Base.{ℕ, ◌^◌, ◌<◌, Bool, some, List, ◌≡◌, ◌⊎◌, inl, inr, refl, ◌∙◌}
use lbm_rtp_proxy.Command.{Globals, handle_command}
use lbm_rtp_proxy.Command.Formats.{Scanner}
use lbm_rtp_proxy.Command.Laws.{IsGlobals, handle_command-IsGlobals}
use lbm_rtp_proxy.Kernel.{Kernel}
use lbm_rtp_proxy.Mangle.{HookResult, generic_hook_func}
use lbm_rtp_proxy.Net.ByteOrder.{ByteOrder}
use lbm_rtp_proxy.Packet.{SkBuff}
use lbm_rtp_proxy.Procfs.{rtp_proxy_write}
use lbm_rtp_proxy.Rewrite.Hooks.{
  MangleHook, HookFn, pre_routing_hook, local_in_hook, local_out_hook, post_routing_hook,
}
use lbm_rtp_proxy.Rewrite.Rtp.Laws.{IsBytes}
use lbm_rtp_proxy.Startup.{ModuleState, rtp_proxy_init}

-- The hooks of the module.
abbrev pub IsHook : ⦃o : ByteOrder⦄ → MangleHook → Type 0
IsHook mh =
    (mh ≡ pre_routing_hook)
    ⊎ (mh ≡ local_in_hook)
    ⊎ (mh ≡ local_out_hook)
    ⊎ (mh ≡ post_routing_hook)

-- One write of the proc file, or one packet at a hook of the module.
pub data Step ⦃o : ByteOrder⦄ ⦃k : Kernel⦄ ⦃s : Scanner⦄ : Globals → Globals → Type 0 where
  write :
      (alloc copied : Bool) (user_buffer : List ℕ) (random_sn : ℕ) (g : Globals)
      → random_sn < 2 ^ 16
      → Step g (rtp_proxy_write alloc copied user_buffer random_sn g).0
  packet :
      (mh : MangleHook) (skb : SkBuff) (g : Globals) (r : HookResult)
      → IsHook mh
      → IsBytes skb.body
      → generic_hook_func (some mh) (some skb) mh.hooknum g.config g.table ≡ some r
      → Step g (record g { table = r.table })

-- What can follow the loading of the module.
pub data Reachable ⦃o : ByteOrder⦄ ⦃k : Kernel⦄ ⦃s : Scanner⦄ : Globals → Type 0 where
  loaded :
      (nf_max_hooks : ℕ) (success : Bool) (st : ModuleState)
      → Reachable (rtp_proxy_init nf_max_hooks success st).globals
  stepped : (g g' : Globals) → Reachable g → Step g g' → Reachable g'
