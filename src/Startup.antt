-- ===== src/Startup.antt =====
-- Loading and unloading of the module (src/module.c), and the registration of the netfilter hooks
-- (the end of src/mangle.c).
pub mod Laws
use lbm_rtp_proxy.Base.{
  ℕ, Bool, true, false, Option, some, List, [], ◌∷◌, map, length, ◌++◌, ltb, if◌then◌else◌,
}
use lbm_rtp_proxy.Command.{Globals}
use lbm_rtp_proxy.Config.{config_init}
use lbm_rtp_proxy.Net.ByteOrder.{ByteOrder}
use lbm_rtp_proxy.Rewrite.Hooks.{MangleHook, Priority, get_mangle_hooks}
use lbm_rtp_proxy.Table.{table_init}

-- `struct nf_hook_ops`; the function is `generic_hook_func` and the family PF_INET in each.
pub record NfHookOps : Type 0 where
  pub hooknum : ℕ
  pub priv : Option MangleHook
  pub priority : Priority

-- `hook_count` and the used part of `hook_ops`, the hooks that the kernel has registered, whether
-- the proc file is there, and the variables of the other files.
pub record ModuleState : Type 0 where
  pub globals : Globals
  pub proc_file : Bool
  pub hook_count : ℕ
  pub hook_ops : List NfHookOps
  pub registered : List NfHookOps

-- The body of the loop over the hooks.
abbrev pub hook_op : MangleHook → NfHookOps
hook_op hook = record { hooknum = hook.hooknum; priv = some hook; priority = hook.priority }

-- `proc_create` and `remove_proc_entry` (the end of src/procfs.c).
unfoldable pub proc_file_create : ModuleState → ModuleState
proc_file_create st = record st { proc_file = true }

unfoldable pub proc_file_remove : ModuleState → ModuleState
proc_file_remove st = record st { proc_file = false }

module _ ⦃o : ByteOrder⦄ where
  -- The arguments are `NF_MAX_HOOKS` and whether the kernel registers the hooks; the code does not
  -- look at the latter. The kernel registers all or none.
  unfoldable pub register_nf_hooks : ℕ → Bool → ModuleState → ModuleState
  register_nf_hooks nf_max_hooks success st =
      let count = length get_mangle_hooks in
      let hook_count : ℕ = if ltb nf_max_hooks count then 0 else count in
      let ops = map hook_op get_mangle_hooks in
      if ltb 0 hook_count
      then record st {
        hook_count = hook_count;
        hook_ops = ops;
        registered = if success then ops ++ st.registered else st.registered;
      }
      else record st { hook_count = hook_count }

  -- `nf_unregister` is nf_unregister_net_hooks: from the array, the count and the hooks that are
  -- registered it makes those that stay so.
  unfoldable pub unregister_nf_hooks :
      (nf_unregister : List NfHookOps → ℕ → List NfHookOps → List NfHookOps)
      → ModuleState
      → ModuleState
  unregister_nf_hooks nf_unregister st =
      if ltb 0 st.hook_count
      then record st { registered = nf_unregister st.hook_ops st.hook_count st.registered }
      else st

  unfoldable pub rtp_proxy_init : ℕ → Bool → ModuleState → ModuleState
  unfolding register_nf_hooks proc_file_create
  rtp_proxy_init nf_max_hooks success st =
      let cleared : Globals = record {
        config = config_init st.globals.config;
        table = table_init st.globals.table;
      } in
      register_nf_hooks nf_max_hooks success (proc_file_create (record st { globals = cleared }))

  unfoldable pub rtp_proxy_exit :
      (nf_unregister : List NfHookOps → ℕ → List NfHookOps → List NfHookOps)
      → ModuleState
      → ModuleState
  unfolding unregister_nf_hooks proc_file_remove
  rtp_proxy_exit nf_unregister st = proc_file_remove (unregister_nf_hooks nf_unregister st)
