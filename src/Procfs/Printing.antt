-- ===== src/Procfs/Printing.antt =====
-- What rtp_proxy_seq_show of src/procfs.c prints for a row, read back as a command `a`.
use lbm_rtp_proxy.Base.{ℕ, ◌^◌, ◌<◌, ◌≡◌, ◌≢◌, ap, ◌∙◌, arith}
use lbm_rtp_proxy.Command.{Globals, parsed_entry}
use lbm_rtp_proxy.Net.Address.{htoal, atohl, atohl-htoal}
use lbm_rtp_proxy.Net.ByteOrder.{ByteOrder, htons, htonl, ntohs, ntohl}
use lbm_rtp_proxy.Table.{TableEntry, table_get}
use lbm_rtp_proxy.Table.Laws.{IsTable}
use lbm_rtp_proxy.Procfs.{Shown, config_line, route_lines, rtp_proxy_seq_show}

module _ ⦃o : ByteOrder⦄ where
  -- The lines name the row by its proxy port, and their addresses and ports make a command `a`
  -- that describes a row with the same ones.
  abbrev pub DescribesRow : Shown → ℕ → TableEntry → Type 0
  DescribesRow (config_line _ _ _ _) index e = ⊥
  DescribesRow (route_lines sender int_proxy ext_proxy sbc sbc' ext_proxy' int_proxy' receiver)
        index e =
      (htons int_proxy.port ≡ index)
      × (parsed_entry sender.ip sender.port receiver.ip receiver.port sbc.ip sbc.port
          ≡ record e { last_sn = 0; offset = 0; offset_set = 0; entry_used = 0 })

  pub port_again : (x : ℕ) → x < 2 ^ 16 → htons (ntohs x) ≡ x
  port_again = o.htons-ntohs

  pub addr_again : (x : ℕ) → x < 2 ^ 32 → htonl (atohl (htoal (ntohl x))) ≡ x
  addr_again x h = ap htonl (atohl-htoal (ntohl x) (o.ntohl-lt x h)) ∙ o.htonl-ntohl x h

  -- What is printed for a row at an index above 0 of a table in range says its proxy port and its
  -- three addresses and ports without loss: they make a command `a` for the same index that has the
  -- same three. The state of the sequence numbers is not printed.
  pub show-DescribesRow :
      (index : ℕ) (g : Globals)
      → IsTable g.table
      → index < 2 ^ 16
      → index ≢ 0
      → DescribesRow (rtp_proxy_seq_show index g) index (g.table index)
  unfolding rtp_proxy_seq_show parsed_entry table_get
  show-DescribesRow index g w h ne =
      let e = w.rows index h in
      ground (
        arith,
        port_again index h,
        addr_again (g.table index).sender_addr e.sender_addr-lt,
        port_again (g.table index).sender_port e.sender_port-lt,
        addr_again (g.table index).receiver_addr e.receiver_addr-lt,
        port_again (g.table index).receiver_port e.receiver_port-lt,
        addr_again (g.table index).sbc_addr e.sbc_addr-lt,
        port_again (g.table index).sbc_port e.sbc_port-lt,
      )
