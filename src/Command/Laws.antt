-- ===== src/Command/Laws.antt =====
-- The ranges of the fields that the commands of src/command.c write.
pub mod Routes
use lbm_rtp_proxy.Base.{
  ℕ, ◌^◌, ◌<◌, Bool, true, false, some, none, List, [], ◌∷◌, ◌≡◌, ◌≢◌, refl, arith, ◌==◌, is_set,
  if◌then◌else◌,
}
use lbm_rtp_proxy.Config.{Config, IsConfig, config_clr, config_clr-IsConfig}
use lbm_rtp_proxy.Net.Address.{Ip, IsIp, atohl, atohl-lt}
use lbm_rtp_proxy.Net.ByteOrder.{ByteOrder, htons, htonl}
use lbm_rtp_proxy.Table.{Table, TableEntry, IsEntry, empty_entry, table_clr, table_del}
use lbm_rtp_proxy.Table.Laws.{
  IsTable, table_del-IsTable, table_clr-IsTable, table_atomically-IsTable,
}
use lbm_rtp_proxy.Command.Formats.{
  Scanner, sscanf, Fits, add_format, port_format, two_ips_format, u8_format, space_format,
}
use lbm_rtp_proxy.Command.{
  Globals, update_table_function, parsed_entry, add_values, delete_values, configure_values,
  smoothing_values, loopback_values, flush_values, command_add, command_delete, command_configure,
  command_smoothing, command_loopback, command_flush, handle_command,
}

pub record IsGlobals (g : Globals) : Type 0 where
  pub config : IsConfig g.config
  pub table : IsTable g.table

pub update_table_function-IsEntry :
    (random_sn : ℕ) (entry ent : TableEntry)
    → random_sn < 2 ^ 16
    → IsEntry entry
    → IsEntry ent
    → IsEntry (update_table_function random_sn entry ent).0
unfolding update_table_function
update_table_function-IsEntry random_sn entry ent r e n = ground arith

module _ ⦃o : ByteOrder⦄ where
  pub parsed_entry-IsEntry :
      (si : Ip) (sp : ℕ) (ri : Ip) (rp : ℕ) (bi : Ip) (bp : ℕ)
      → IsIp si
      → sp < 2 ^ 16
      → IsIp ri
      → rp < 2 ^ 16
      → IsIp bi
      → bp < 2 ^ 16
      → IsEntry (parsed_entry si sp ri rp bi bp)
  unfolding parsed_entry
  parsed_entry-IsEntry si sp ri rp bi bp hs hsp hr hrp hb hbp = record {
    sender_addr-lt = o.htonl-lt _ (atohl-lt si hs);
    sender_port-lt = o.htons-lt _ hsp;
    receiver_addr-lt = o.htonl-lt _ (atohl-lt ri hr);
    receiver_port-lt = o.htons-lt _ hrp;
    sbc_addr-lt = o.htonl-lt _ (atohl-lt bi hb);
    sbc_port-lt = o.htons-lt _ hbp;
    last_sn-lt = omega arith;
    offset-lt = omega arith;
    offset_set-lt = omega arith;
    entry_used-lt = omega arith;
  }

  add_values-IsGlobals :
      (vs : List ℕ) (random_sn : ℕ) (g : Globals)
      → Fits add_format vs
      → random_sn < 2 ^ 16
      → IsGlobals g
      → IsGlobals (add_values vs random_sn g)
  unfolding add_values
  add_values-IsGlobals
        (p ∷ s0 ∷ s1 ∷ s2 ∷ s3 ∷ sp ∷ r0 ∷ r1 ∷ r2 ∷ r3 ∷ rp ∷ b0 ∷ b1 ∷ b2 ∷ b3 ∷ bp ∷ [])
        random_sn g f r w =
      let ent_fits =
        parsed_entry-IsEntry (record { a = s0; b = s1; c = s2; d = s3 }) sp
          (record { a = r0; b = r1; c = r2; d = r3 }) rp (record { a = b0; b = b1; c = b2; d = b3 })
          bp (omega arith) (omega arith) (omega arith) (omega arith) (omega arith) (omega arith) in
      record {
        config = w.config;
        table =
            table_atomically-IsTable (htons p) (update_table_function random_sn) _ g.table
              (update_table_function-IsEntry random_sn _ _ r
                (w.table.rows (htons p) (o.htons-lt p f.0)) ent_fits)
              w.table;
      }
  add_values-IsGlobals _ random_sn g f r w = w

  delete_values-IsGlobals :
      (vs : List ℕ) (g : Globals) → IsGlobals g → IsGlobals (delete_values vs g)
  unfolding delete_values
  delete_values-IsGlobals (p ∷ []) g w = record {
    config = w.config;
    table = table_del-IsTable (htons p) g.table w.table;
  }
  delete_values-IsGlobals _ g w = w

  configure_values-IsGlobals :
      (vs : List ℕ) (g : Globals)
      → Fits two_ips_format vs
      → IsGlobals g
      → IsGlobals (configure_values vs g)
  unfolding configure_values
  configure_values-IsGlobals (i0 ∷ i1 ∷ i2 ∷ i3 ∷ e0 ∷ e1 ∷ e2 ∷ e3 ∷ []) g f w = record {
    config = record {
      int_proxy_addr-lt = o.htonl-lt _ (atohl-lt _ (omega arith));
      ext_proxy_addr-lt = o.htonl-lt _ (atohl-lt _ (omega arith));
      smoothing-lt = w.config.smoothing-lt;
      loopback-lt = w.config.loopback-lt;
    };
    table = w.table;
  }
  configure_values-IsGlobals _ g f w = w

smoothing_values-IsGlobals :
    (vs : List ℕ) (g : Globals)
    → Fits u8_format vs
    → IsGlobals g
    → IsGlobals (smoothing_values vs g)
unfolding smoothing_values
smoothing_values-IsGlobals (v ∷ []) g f w = record { config = omega arith; table = w.table }
smoothing_values-IsGlobals _ g f w = w

loopback_values-IsGlobals :
    (vs : List ℕ) (g : Globals) → Fits u8_format vs → IsGlobals g → IsGlobals (loopback_values vs g)
unfolding loopback_values
loopback_values-IsGlobals (v ∷ []) g f w = record { config = omega arith; table = w.table }
loopback_values-IsGlobals _ g f w = w

flush_values-IsGlobals : (vs : List ℕ) (g : Globals) → IsGlobals g → IsGlobals (flush_values vs g)
unfolding flush_values
flush_values-IsGlobals [] g w = record {
  config = config_clr-IsConfig g.config;
  table = table_clr-IsTable g.table;
}
flush_values-IsGlobals _ g w = w

-- Whatever is written to the proc file, every field of the configuration and of the table that was
-- in the range of its type stays in it, with a random number of 16 bits.
pub handle_command-IsGlobals :
    ⦃o : ByteOrder⦄ ⦃s : Scanner⦄ (command : List ℕ) (random_sn : ℕ) (g : Globals)
    → random_sn < 2 ^ 16
    → IsGlobals g
    → IsGlobals (handle_command command random_sn g).0
unfolding handle_command command_add command_delete command_configure command_smoothing
    command_loopback command_flush
handle_command-IsGlobals [] random_sn g r w = w
handle_command-IsGlobals ⦃o⦄ ⦃s⦄ (c ∷ parameters) random_sn g r w = ground (
  arith,
  add_values-IsGlobals (sscanf add_format parameters) random_sn g
      (s.sscanf-Fits add_format parameters) r w,
  delete_values-IsGlobals (sscanf port_format parameters) g w,
  configure_values-IsGlobals (sscanf two_ips_format parameters) g
      (s.sscanf-Fits two_ips_format parameters) w,
  smoothing_values-IsGlobals (sscanf u8_format parameters) g (s.sscanf-Fits u8_format parameters) w,
  loopback_values-IsGlobals (sscanf u8_format parameters) g (s.sscanf-Fits u8_format parameters) w,
  flush_values-IsGlobals (sscanf space_format parameters) g w,
)
