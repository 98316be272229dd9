-- ===== src/Debug/Commands.antt =====
-- Commands in a DEBUG build (src/command.c, config_set of src/config.c, rtp_proxy_write of
-- src/procfs.c, register_nf_hooks of src/mangle.c): what they do and what they print.
use Prim.Native.String.{String}
use lbm_rtp_proxy.Base.{
  ℕ, Bool, true, false, List, [], ◌∷◌, take, length, ltb, ◌==◌, if◌then◌else◌, map, ◌++◌,
}
use lbm_rtp_proxy.Command.{Globals, add_values, delete_values}
use lbm_rtp_proxy.Command.Formats.{
  Scanner, sscanf, add_format, port_format, two_ips_format, u8_format, space_format,
}
use lbm_rtp_proxy.Config.{Config, empty_config, config_get}
use lbm_rtp_proxy.Debug.{Line, config_print}
use lbm_rtp_proxy.Net.Address.{atohl}
use lbm_rtp_proxy.Net.ByteOrder.{ByteOrder, htonl}
use lbm_rtp_proxy.Procfs.{Written, enomem, efault, written, copied_size, command_size}
use lbm_rtp_proxy.Rewrite.Hooks.{get_mangle_hooks}
use lbm_rtp_proxy.Startup.{ModuleState, hook_op}
use lbm_rtp_proxy.Table.{table_clr}

-- A configuration, the text of a command with what is said of it, or a message.
pub data Message : Type 0 where
  shown : Line → Message
  command_is command_failed : List ℕ → Message
  message : String → Message
  too_many_hooks : ℕ → Message

module _ ⦃o : ByteOrder⦄ where
  unfoldable pub config_set_debug : Config → Config → Config × List Message
  unfolding config_print
  config_set_debug cfg config = (cfg, shown (config_print cfg) ∷ [])

  unfoldable pub config_clr_debug : Config → Config × List Message
  unfolding config_set_debug
  config_clr_debug config =
      config_set_debug (record empty_config { smoothing = 1; loopback = 1 }) config

  -- A changed configuration is set, and printed.
  abbrev pub configured_debug : Config → Globals → Globals × List Message
  configured_debug cfg g =
      let (config, printed) = config_set_debug cfg g.config in
      (record g { config = config }, printed)

  unfoldable pub configure_values_debug : List ℕ → Globals → Globals × List Message
  unfolding config_get config_set_debug
  configure_values_debug (i0 ∷ i1 ∷ i2 ∷ i3 ∷ e0 ∷ e1 ∷ e2 ∷ e3 ∷ []) g =
      configured_debug
        (record (config_get g.config) {
          int_proxy_addr = htonl (atohl (record { a = i0; b = i1; c = i2; d = i3 }));
          ext_proxy_addr = htonl (atohl (record { a = e0; b = e1; c = e2; d = e3 }));
        })
        g
  configure_values_debug _ g = (g, message "command c failed" ∷ [])

  unfoldable pub smoothing_values_debug : List ℕ → Globals → Globals × List Message
  unfolding config_get config_set_debug
  smoothing_values_debug (smoothing ∷ []) g =
      configured_debug (record (config_get g.config) { smoothing = smoothing }) g
  smoothing_values_debug _ g = (g, message "command s failed" ∷ [])

  unfoldable pub loopback_values_debug : List ℕ → Globals → Globals × List Message
  unfolding config_get config_set_debug
  loopback_values_debug (loopback ∷ []) g =
      configured_debug (record (config_get g.config) { loopback = loopback }) g
  loopback_values_debug _ g = (g, message "command s failed" ∷ [])

  unfoldable pub flush_values_debug : List ℕ → Globals → Globals × List Message
  unfolding config_clr_debug
  flush_values_debug [] g =
      let (config, printed) = config_clr_debug g.config in
      (record { config = config; table = table_clr g.table }, printed)
  flush_values_debug _ g = (g, message "command f failed" ∷ [])

module _ ⦃o : ByteOrder⦄ ⦃s : Scanner⦄ where
  unfoldable pub command_add_debug : List ℕ → ℕ → Globals → Globals × List Message
  command_add_debug parameters random_sn g =
      let values = sscanf add_format parameters in
      let stored = add_values values random_sn g in
      if length values == 16 then (stored, []) else (g, message "command a failed" ∷ [])

  unfoldable pub command_delete_debug : List ℕ → Globals → Globals × List Message
  command_delete_debug parameters g =
      let values = sscanf port_format parameters in
      let deleted = delete_values values g in
      if length values == 1 then (deleted, []) else (g, message "command d failed" ∷ [])

  -- The first message is the text of the command.
  unfoldable pub handle_command_debug : List ℕ → ℕ → Globals → (Globals × Bool) × List Message
  unfolding command_add_debug command_delete_debug configure_values_debug smoothing_values_debug
      loopback_values_debug flush_values_debug
  handle_command_debug [] random_sn g = ((g, false), command_is [] ∷ [])
  handle_command_debug (c ∷ parameters) random_sn g =
      let known : Globals × List Message → (Globals × Bool) × List Message =
        λ r. ((r.0, true), command_is (c ∷ parameters) ∷ r.1) in
      if c == b'a'
      then known (command_add_debug parameters random_sn g)
      else (if c == b'd'
          then known (command_delete_debug parameters g)
          else (if c == b'c'
              then known (configure_values_debug (sscanf two_ips_format parameters) g)
              else (if c == b's'
                  then known (smoothing_values_debug (sscanf u8_format parameters) g)
                  else (if c == b'l'
                      then known (loopback_values_debug (sscanf u8_format parameters) g)
                      else (if c == b'f'
                          then known (flush_values_debug (sscanf space_format parameters) g)
                          else ((g, false), command_is (c ∷ parameters) ∷ []))))))

  unfoldable pub rtp_proxy_write_debug :
      Bool → Bool → List ℕ → ℕ → Globals → (Globals × Written) × List Message
  unfolding handle_command_debug
  rtp_proxy_write_debug false copied user_buffer random_sn g = ((g, enomem), [])
  rtp_proxy_write_debug true false user_buffer random_sn g = ((g, efault), [])
  rtp_proxy_write_debug true true user_buffer random_sn g =
      let copied = copied_size (length user_buffer) in
      let size = command_size copied in
      let command = take size (take copied user_buffer) in
      let ((g', known), printed) = handle_command_debug command random_sn g in
      if ltb 0 size
      then ((g', written size), printed ++ (if known then [] else command_failed command ∷ []))
      else ((g, written size), [])

module _ ⦃o : ByteOrder⦄ where
  unfoldable pub register_nf_hooks_debug : ℕ → Bool → ModuleState → ModuleState × List Message
  register_nf_hooks_debug nf_max_hooks success st =
      let count = length get_mangle_hooks in
      let many = ltb nf_max_hooks count in
      let hook_count : ℕ = if many then 0 else count in
      let ops = map hook_op get_mangle_hooks in
      (
        if ltb 0 hook_count
            then record st {
              hook_count = hook_count;
              hook_ops = ops;
              registered = if success then ops else st.registered;
            }
            else record st { hook_count = hook_count },
        if many then too_many_hooks count ∷ [] else [],
      )
