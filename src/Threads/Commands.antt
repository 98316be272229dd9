-- ===== src/Threads/Commands.antt =====
-- The commands of src/command.c as runs of moves of one thread.
use lbm_rtp_proxy.Base.{ℕ, zero, suc, ◌+◌, ◌^◌, ◌<◌, List, [], ◌∷◌, arith}
use lbm_rtp_proxy.Command.Formats.{
  Scanner, sscanf, Fits, add_format, port_format, two_ips_format, u8_format, space_format,
}
use lbm_rtp_proxy.Command.Laws.{parsed_entry-IsEntry}
use lbm_rtp_proxy.Command.{
  Globals, parsed_entry, add_values, delete_values, configure_values, smoothing_values,
  loopback_values, flush_values, command_add, command_delete, command_configure, command_smoothing,
  command_loopback, command_flush, handle_command,
}
use lbm_rtp_proxy.Config.{config_get, config_set, config_clr}
use lbm_rtp_proxy.Net.Address.{atohl, atohl-lt}
use lbm_rtp_proxy.Net.ByteOrder.{ByteOrder, htons, htonl}
use lbm_rtp_proxy.Spec
use lbm_rtp_proxy.Spec.{Request}
use lbm_rtp_proxy.Spec.Requests.{
  add_request, delete_request, configure_request, smoothing_request, loopback_request, request,
}
use lbm_rtp_proxy.Table.{table_size, table_clr, table_clr_from, table_del}
use lbm_rtp_proxy.Threads.{
  Change, Access, change, defaults, entry, no_entry, addresses, smoothing, loopback, changed,
  IsChange, idle, clearing, add, delete, read_config, write_config, clear_config, clear_row,
  clear_end, Alone, stop, move,
}

-- The accesses that a request asks for.
unfoldable pub no_entries : (left index : ℕ) → List Access
no_entries zero index = []
no_entries (suc left) index = no_entry index ∷ no_entries left (index + 1)

abbrev pub accesses : Request → List Access
accesses (Spec.add index e) = entry index e ∷ []
accesses (Spec.delete index) = no_entry index ∷ []
accesses (Spec.configure int ext) = change (addresses int ext) ∷ []
accesses (Spec.smoothing x) = change (smoothing x) ∷ []
accesses (Spec.loopback x) = change (loopback x) ∷ []
accesses Spec.flush = defaults ∷ no_entries table_size 0
accesses Spec.nothing = []

-- A thread that reads the configuration and then writes it back changed.
read_and_write :
    (c : Change) (g : Globals)
    → IsChange c
    → Alone g idle
        (record g { config = config_set (changed c (config_get g.config)) g.config })
        idle
        (change c ∷ [])
read_and_write c g h = move (read_config c h) (move write_config stop)

clear_rows :
    (left index : ℕ) (g : Globals)
    → Alone g
        (clearing left index)
        (record g { table = table_clr_from left index g.table })
        idle
        (no_entries left index)
unfolding table_clr_from no_entries
clear_rows zero index g = move clear_end stop
clear_rows (suc left) index g =
    move clear_row (clear_rows left (index + 1) (record g { table = table_del index g.table }))

module _ ⦃o : ByteOrder⦄ where
  add_values-Alone :
      (vs : List ℕ) (random_sn : ℕ) (g : Globals)
      → Fits add_format vs
      → random_sn < 2 ^ 16
      → Alone g idle (add_values vs random_sn g) idle (accesses (add_request vs))
  unfolding add_values add_request parsed_entry
  add_values-Alone
        (p ∷ s0 ∷ s1 ∷ s2 ∷ s3 ∷ sp ∷ r0 ∷ r1 ∷ r2 ∷ r3 ∷ rp ∷ b0 ∷ b1 ∷ b2 ∷ b3 ∷ bp ∷ [])
        random_sn g f r =
      let ent_fits =
        parsed_entry-IsEntry (record { a = s0; b = s1; c = s2; d = s3 }) sp
          (record { a = r0; b = r1; c = r2; d = r3 }) rp (record { a = b0; b = b1; c = b2; d = b3 })
          bp (omega arith) (omega arith) (omega arith) (omega arith) (omega arith) (omega arith) in
      move (add (htons p) random_sn _ (o.htons-lt p f.0) r ent_fits) stop
  add_values-Alone _ random_sn g f r = stop

  delete_values-Alone :
      (vs : List ℕ) (g : Globals)
      → Alone g idle (delete_values vs g) idle (accesses (delete_request vs))
  unfolding delete_values delete_request
  delete_values-Alone (p ∷ []) g = move (delete (htons p)) stop
  delete_values-Alone _ g = stop

  configure_values-Alone :
      (vs : List ℕ) (g : Globals)
      → Fits two_ips_format vs
      → Alone g idle (configure_values vs g) idle (accesses (configure_request vs))
  unfolding configure_values configure_request
  configure_values-Alone (i0 ∷ i1 ∷ i2 ∷ i3 ∷ e0 ∷ e1 ∷ e2 ∷ e3 ∷ []) g f =
      read_and_write
        (addresses (htonl (atohl (record { a = i0; b = i1; c = i2; d = i3 })))
          (htonl (atohl (record { a = e0; b = e1; c = e2; d = e3 }))))
        g (o.htonl-lt _ (atohl-lt _ (omega arith)), o.htonl-lt _ (atohl-lt _ (omega arith)))
  configure_values-Alone _ g f = stop

smoothing_values-Alone :
    (vs : List ℕ) (g : Globals)
    → Fits u8_format vs
    → Alone g idle (smoothing_values vs g) idle (accesses (smoothing_request vs))
unfolding smoothing_values smoothing_request
smoothing_values-Alone (x ∷ []) g f = read_and_write (smoothing x) g f.0
smoothing_values-Alone _ g f = stop

loopback_values-Alone :
    (vs : List ℕ) (g : Globals)
    → Fits u8_format vs
    → Alone g idle (loopback_values vs g) idle (accesses (loopback_request vs))
unfolding loopback_values loopback_request
loopback_values-Alone (x ∷ []) g f = read_and_write (loopback x) g f.0
loopback_values-Alone _ g f = stop

flush_values-Alone :
    (vs : List ℕ) (g : Globals)
    → Fits space_format vs
    → Alone g idle (flush_values vs g) idle (accesses Spec.flush)
unfolding flush_values table_clr
flush_values-Alone [] g f =
    move clear_config (clear_rows table_size 0 (record g { config = config_clr g.config }))
flush_values-Alone (v ∷ vs) g f = absurd f

-- Every command, with a random number of 16 bits, is a run of one thread that nobody interrupts,
-- from the state in which it is given to the state that it leaves, whose accesses of the shared
-- state are, in order, those that its text asks for.
pub handle_command-Alone :
    ⦃o : ByteOrder⦄ ⦃s : Scanner⦄ (command : List ℕ) (random_sn : ℕ) (g : Globals)
    → random_sn < 2 ^ 16
    → Alone g idle (handle_command command random_sn g).0 idle (accesses (request command))
unfolding handle_command command_add command_delete command_configure command_smoothing
    command_loopback command_flush request
handle_command-Alone [] random_sn g r = stop
handle_command-Alone ⦃o⦄ ⦃s⦄ (c ∷ parameters) random_sn g r = ground (
  arith,
  add_values-Alone (sscanf add_format parameters) random_sn g (s.sscanf-Fits add_format parameters)
      r,
  delete_values-Alone (sscanf port_format parameters) g,
  configure_values-Alone (sscanf two_ips_format parameters) g
      (s.sscanf-Fits two_ips_format parameters),
  smoothing_values-Alone (sscanf u8_format parameters) g (s.sscanf-Fits u8_format parameters),
  loopback_values-Alone (sscanf u8_format parameters) g (s.sscanf-Fits u8_format parameters),
  flush_values-Alone (sscanf space_format parameters) g (s.sscanf-Fits space_format parameters),
  stop {g = g} {p = idle},
)
