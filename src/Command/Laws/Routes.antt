-- ===== src/Command/Laws/Routes.antt =====
-- The commands and the routes: what a command changes in the table, and what a packet finds then.
use lbm_rtp_proxy.Base.{
  ℕ, ◌^◌, ◌<◌, true, none, List, [], ◌∷◌, ◌≡◌, ◌≢◌, refl, arith, ◌==◌, is_set, ap, ◌∙◌, sym,
  if◌then◌else◌,
}
use lbm_rtp_proxy.Config.{Config, config_clr}
use lbm_rtp_proxy.Net.Address.{Ip, IsIp, atohl, atohl-lt}
use lbm_rtp_proxy.Net.ByteOrder.{ByteOrder, htons, htonl}
use lbm_rtp_proxy.Table.{empty_entry, table_size, table_del, table_atomically}
use lbm_rtp_proxy.Table.Laws.{table_clr_row}
use lbm_rtp_proxy.Table.Routing.{get_routing}
use lbm_rtp_proxy.Table.Routing.Laws.{get_routing-ne-none_iff}
use lbm_rtp_proxy.Command.Formats.{Scanner, sscanf, Fits, add_format, port_format, space_format}
use lbm_rtp_proxy.Command.{
  Globals, update_table_function, parsed_entry, add_values, delete_values, flush_values,
  command_add, command_delete, command_flush, handle_command,
}

-- The values of a command `a`.
abbrev pub add_list : ℕ → Ip → ℕ → Ip → ℕ → Ip → ℕ → List ℕ
add_list p s sp r rp b bp =
    p ∷ s.a ∷ s.b ∷ s.c ∷ s.d ∷ sp ∷ r.a ∷ r.b ∷ r.c ∷ r.d ∷ rp ∷ b.a ∷ b.b ∷ b.c ∷ b.d ∷ bp ∷ []

-- An address or a port that is not zero is not zero in network order.
module _ ⦃o : ByteOrder⦄ where
  pub htons-ne-zero : (x : ℕ) → x < 2 ^ 16 → x ≢ 0 → htons x ≢ 0
  htons-ne-zero x h ne e =
      ne (
        sym (o.ntohs-htons x h) ∙ ap o.ntohs (e ∙ sym o.htons-zero) ∙ o.ntohs-htons 0 (omega arith))

  pub htonl-ne-zero : (x : ℕ) → x < 2 ^ 32 → x ≢ 0 → htonl x ≢ 0
  htonl-ne-zero x h ne e =
      ne (
        sym (o.ntohl-htonl x h) ∙ ap o.ntohl (e ∙ sym o.htonl-zero) ∙ o.ntohl-htonl 0 (omega arith))

fits_nothing : (vs : List ℕ) → Fits space_format vs → vs ≡ []
fits_nothing [] h = refl
fits_nothing (v ∷ vs) h = absurd h

module _ ⦃o : ByteOrder⦄ ⦃s : Scanner⦄ where
  -- A command `a` of which all values are read writes the addresses and ports of its row, keeps the
  -- last number of the row and whether it is in use, and gives the row the random offset unless it
  -- has one; no other row and no configuration changes.
  pub add_lem :
      (parameters : List ℕ) (random_sn : ℕ) (g : Globals) (p : ℕ) (si : Ip) (sp : ℕ) (ri : Ip)
      (rp : ℕ) (bi : Ip) (bp : ℕ) (j : ℕ)
      → sscanf add_format parameters ≡ add_list p si sp ri rp bi bp
      → let (g', known) = handle_command (b'a' ∷ parameters) random_sn g in
        let old = g.table (htons p) in
        (known ≡ true)
        × (g'.config ≡ g.config)
        × (g'.table j ≡ (
            if j == htons p
            then record (parsed_entry si sp ri rp bi bp) {
              last_sn = old.last_sn;
              offset = if is_set old.offset_set then old.offset else random_sn;
              offset_set = if is_set old.offset_set then old.offset_set else 1;
              entry_used = old.entry_used;
            }
            else g.table j))
  unfolding handle_command command_add add_values table_atomically update_table_function
      parsed_entry
  add_lem parameters random_sn g p si sp ri rp bi bp j e = ground arith

  added_ends :
      (parameters : List ℕ) (random_sn : ℕ) (g : Globals) (p : ℕ) (si : Ip) (sp : ℕ) (ri : Ip)
      (rp : ℕ) (bi : Ip) (bp : ℕ)
      → sscanf add_format parameters ≡ add_list p si sp ri rp bi bp
      → htonl (atohl ri) ≢ 0
      → htons rp ≢ 0
      → htonl (atohl bi) ≢ 0
      → htons bp ≢ 0
      → let row = (handle_command (b'a' ∷ parameters) random_sn g).0.table (htons p) in
        (row.receiver_addr ≢ 0) × (row.receiver_port ≢ 0) × (row.sbc_addr ≢ 0) × (row.sbc_port ≢ 0)
  unfolding parsed_entry
  added_ends parameters random_sn g p si sp ri rp bi bp e r rp0 b bp0 =
      ground (arith, add_lem parameters random_sn g p si sp ri rp bi bp (htons p) e)

  -- After a command `a` of which all values are read, in the ranges of their types, and whose
  -- receiver and SBC have no zero address and no zero port, the proxy port has a route.
  pub add-routes :
      (parameters : List ℕ) (random_sn : ℕ) (g : Globals) (p : ℕ) (si : Ip) (sp : ℕ) (ri : Ip)
      (rp : ℕ) (bi : Ip) (bp : ℕ) (cfg : Config)
      → sscanf add_format parameters ≡ add_list p si sp ri rp bi bp
      → IsIp ri
      → IsIp bi
      → (rp < 2 ^ 16) × (bp < 2 ^ 16)
      → (atohl ri ≢ 0) × (rp ≢ 0) × (atohl bi ≢ 0) × (bp ≢ 0)
      → (get_routing (htons p) cfg (handle_command (b'a' ∷ parameters) random_sn g).0.table).1
        ≢ none
  add-routes parameters random_sn g p si sp ri rp bi bp cfg e hr hb fits given =
      (get_routing-ne-none_iff (htons p) cfg _).1 (
        added_ends parameters random_sn g p si sp ri rp bi bp e
          (htonl-ne-zero _ (atohl-lt ri hr) given.0) (htons-ne-zero rp fits.0 given.1)
          (htonl-ne-zero _ (atohl-lt bi hb) given.2) (htons-ne-zero bp fits.1 given.3))

  -- After a command `d` with a port the proxy port has no route, and all else is as it was.
  pub delete_lem :
      (parameters : List ℕ) (random_sn : ℕ) (g : Globals) (p : ℕ) (cfg : Config) (j : ℕ)
      → sscanf port_format parameters ≡ p ∷ []
      → let g' = (handle_command (b'd' ∷ parameters) random_sn g).0 in
        (get_routing (htons p) cfg g'.table ≡ (empty_entry, none))
        × (g'.config ≡ g.config)
        × (g'.table j ≡ (if j == htons p then empty_entry else g.table j))
  unfolding handle_command command_delete delete_values table_del get_routing
  delete_lem parameters random_sn g p cfg j e = ground arith

  -- A command `f` works with any parameters: no format without conversions fails. All rows are
  -- empty then, and the configuration is zero but for smoothing and loopback, which are on.
  pub flush_lem :
      (parameters : List ℕ) (random_sn : ℕ) (g : Globals) (i : ℕ)
      → i < table_size
      → let g' = (handle_command (b'f' ∷ parameters) random_sn g).0 in
        (g'.table i ≡ empty_entry)
        × (g'.config
            ≡ record { int_proxy_addr = 0; ext_proxy_addr = 0; smoothing = 1; loopback = 1 })
  unfolding handle_command command_flush flush_values config_clr
  flush_lem parameters random_sn g i h = ground (
    arith,
    fits_nothing (sscanf space_format parameters) (s.sscanf-Fits space_format parameters),
    table_clr_row i g.table h,
  )
