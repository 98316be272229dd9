-- ===== src/Command.antt =====
-- The commands that arrive through the proc file (src/command.c). The kernel's `sscanf` is a
-- parameter, and so is the number that `get_random_bytes` yields.
pub mod Formats
pub mod Laws
use lbm_rtp_proxy.Base.{ℕ, Bool, true, false, some, List, [], ◌∷◌, ◌==◌, is_set, if◌then◌else◌}
use lbm_rtp_proxy.Config.{Config, config_get, config_set, config_clr}
use lbm_rtp_proxy.Net.Address.{Ip, atohl}
use lbm_rtp_proxy.Net.ByteOrder.{ByteOrder, htons, htonl}
use lbm_rtp_proxy.Table.{Table, TableEntry, empty_entry, table_atomically, table_del, table_clr}
use Formats.{Scanner, sscanf, add_format, port_format, two_ips_format, u8_format, space_format}

-- The static variables of the module.
pub record Globals : Type 0 where
  pub config : Config
  pub table : Table

-- The first argument is what `get_random_bytes` puts into `random_sn`.
unfoldable pub update_table_function : ℕ → TableEntry → TableEntry → TableEntry × TableEntry
update_table_function random_sn entry ent =
    let routed = record entry {
      sender_addr = ent.sender_addr;
      sender_port = ent.sender_port;
      receiver_addr = ent.receiver_addr;
      receiver_port = ent.receiver_port;
      sbc_addr = ent.sbc_addr;
      sbc_port = ent.sbc_port;
    } in
    (
      if is_set routed.offset_set
          then routed
          else record routed { offset = random_sn; offset_set = 1 },
      ent,
    )

module _ ⦃o : ByteOrder⦄ where
  -- The row that the values of a command `a` describe.
  unfoldable pub parsed_entry : Ip → ℕ → Ip → ℕ → Ip → ℕ → TableEntry
  parsed_entry sender_ip sender_port receiver_ip receiver_port sbc_ip sbc_port =
      record empty_entry {
        sender_addr = htonl (atohl sender_ip);
        sender_port = htons sender_port;
        receiver_addr = htonl (atohl receiver_ip);
        receiver_port = htons receiver_port;
        sbc_addr = htonl (atohl sbc_ip);
        sbc_port = htons sbc_port;
      }

  -- Each `..._values` is a command from the values on that `sscanf` stored; a number of values that
  -- the command does not expect leaves the state alone.
  unfoldable pub add_values : List ℕ → ℕ → Globals → Globals
  add_values (p ∷ s0 ∷ s1 ∷ s2 ∷ s3 ∷ sp ∷ r0 ∷ r1 ∷ r2 ∷ r3 ∷ rp ∷ b0 ∷ b1 ∷ b2 ∷ b3 ∷ bp ∷ [])
        random_sn g =
      let ent =
        parsed_entry (record { a = s0; b = s1; c = s2; d = s3 }) sp
          (record { a = r0; b = r1; c = r2; d = r3 }) rp (record { a = b0; b = b1; c = b2; d = b3 })
          bp in
      record g {
        table = (table_atomically (htons p) (some (update_table_function random_sn)) ent g.table).1;
      }
  add_values _ random_sn g = g

  unfoldable pub delete_values : List ℕ → Globals → Globals
  unfolding table_del
  delete_values (proxy_port ∷ []) g = record g { table = table_del (htons proxy_port) g.table }
  delete_values _ g = g

  unfoldable pub configure_values : List ℕ → Globals → Globals
  unfolding config_get config_set
  configure_values (i0 ∷ i1 ∷ i2 ∷ i3 ∷ e0 ∷ e1 ∷ e2 ∷ e3 ∷ []) g =
      let cfg = record (config_get g.config) {
        int_proxy_addr = htonl (atohl (record { a = i0; b = i1; c = i2; d = i3 }));
        ext_proxy_addr = htonl (atohl (record { a = e0; b = e1; c = e2; d = e3 }));
      } in
      record g { config = config_set cfg g.config }
  configure_values _ g = g

unfoldable pub smoothing_values : List ℕ → Globals → Globals
unfolding config_get config_set
smoothing_values (smoothing ∷ []) g = record g {
  config = config_set (record (config_get g.config) { smoothing = smoothing }) g.config;
}
smoothing_values _ g = g

unfoldable pub loopback_values : List ℕ → Globals → Globals
unfolding config_get config_set
loopback_values (loopback ∷ []) g = record g {
  config = config_set (record (config_get g.config) { loopback = loopback }) g.config;
}
loopback_values _ g = g

unfoldable pub flush_values : List ℕ → Globals → Globals
unfolding config_clr
flush_values [] g = record { config = config_clr g.config; table = table_clr g.table }
flush_values _ g = g

module _ ⦃o : ByteOrder⦄ ⦃s : Scanner⦄ where
  unfoldable pub command_add : List ℕ → ℕ → Globals → Globals
  command_add parameters random_sn g = add_values (sscanf add_format parameters) random_sn g

  unfoldable pub command_delete : List ℕ → Globals → Globals
  command_delete parameters g = delete_values (sscanf port_format parameters) g

  unfoldable pub command_configure : List ℕ → Globals → Globals
  command_configure parameters g = configure_values (sscanf two_ips_format parameters) g

  unfoldable pub command_smoothing : List ℕ → Globals → Globals
  command_smoothing parameters g = smoothing_values (sscanf u8_format parameters) g

  unfoldable pub command_loopback : List ℕ → Globals → Globals
  command_loopback parameters g = loopback_values (sscanf u8_format parameters) g

  unfoldable pub command_flush : List ℕ → Globals → Globals
  command_flush parameters g = flush_values (sscanf space_format parameters) g

  -- The command is the text before its terminating NUL; an empty one begins with that.
  unfoldable pub handle_command : List ℕ → ℕ → Globals → Globals × Bool
  handle_command [] random_sn g = (g, false)
  handle_command (c ∷ parameters) random_sn g =
      if c == b'a'
      then (command_add parameters random_sn g, true)
      else (if c == b'd'
          then (command_delete parameters g, true)
          else (if c == b'c'
              then (command_configure parameters g, true)
              else (if c == b's'
                  then (command_smoothing parameters g, true)
                  else (if c == b'l'
                      then (command_loopback parameters g, true)
                      else (if c == b'f'
                          then (command_flush parameters g, true)
                          else (g, false))))))
