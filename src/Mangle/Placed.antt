-- ===== src/Mangle/Placed.antt =====
-- From the proc file to the wire: a command `a` that is written (src/procfs.c, src/command.c), and the
-- packets to its proxy port after that (src/mangle.c, src/rewrite.c).
use lbm_rtp_proxy.Base.{
  ℕ, length, ◌+◌, ◌^◌, ◌≤◌, ◌<◌, true, some, List, ◌∷◌, ◌≡◌, ◌≢◌, inl, inr, ap, ◌∙◌, arith, is_set,
  if◌then◌else◌, take_all,
}
use lbm_rtp_proxy.Command.{Globals, parsed_entry, handle_command}
use lbm_rtp_proxy.Command.Formats.{Scanner, sscanf, add_format}
use lbm_rtp_proxy.Command.Laws.Routes.{add_list, add_lem, htons-ne-zero, htonl-ne-zero}
use lbm_rtp_proxy.Config.{Config}
use lbm_rtp_proxy.Kernel.{Kernel, skb_linearize}
use lbm_rtp_proxy.Mangle.Calls.{plain_flow, forward-plain}
use lbm_rtp_proxy.Mangle.Forward.{observed, forward}
use lbm_rtp_proxy.Mangle.Laws.{IsUdp}
use lbm_rtp_proxy.Net.Address.{Ip, IsIp, atohl, atohl-lt}
use lbm_rtp_proxy.Net.ByteOrder.{ByteOrder, htons, ntohs}
use lbm_rtp_proxy.Packet.{IpHeader, UdpHeader, SkBuff}
use lbm_rtp_proxy.Procfs.{rtp_proxy_write}
use lbm_rtp_proxy.Procfs.Writing.{rtp_proxy_write_lem}
use lbm_rtp_proxy.Rewrite.Matching.Laws.{plain_route}
use lbm_rtp_proxy.Table.{Table, TableEntry, is_entry_valid}
use lbm_rtp_proxy.Table.Routing.Laws.{IsPlain}

-- A call as a command `a` describes it.
pub record Call : Type 0 where
  pub port : ℕ
  pub sender_ip : Ip
  pub sender_port : ℕ
  pub receiver_ip : Ip
  pub receiver_port : ℕ
  pub sbc_ip : Ip
  pub sbc_port : ℕ

-- Its values in the ranges of their types, and all given but for the sender.
pub record IsCall (c : Call) : Type 0 where
  pub port-lt : c.port < 2 ^ 16
  pub port-ne-zero : c.port ≢ 0
  pub receiver-IsIp : IsIp c.receiver_ip
  pub receiver-ne-zero : atohl c.receiver_ip ≢ 0
  pub receiver_port-lt : c.receiver_port < 2 ^ 16
  pub receiver_port-ne-zero : c.receiver_port ≢ 0
  pub sbc-IsIp : IsIp c.sbc_ip
  pub sbc-ne-zero : atohl c.sbc_ip ≢ 0
  pub sbc_port-lt : c.sbc_port < 2 ^ 16
  pub sbc_port-ne-zero : c.sbc_port ≢ 0

abbrev pub values : Call → List ℕ
values c =
    add_list c.port c.sender_ip c.sender_port c.receiver_ip c.receiver_port c.sbc_ip c.sbc_port

module _ ⦃o : ByteOrder⦄ where
  -- The ends of the call, as the table holds them.
  abbrev pub call_entry : Call → TableEntry
  call_entry c =
      parsed_entry c.sender_ip c.sender_port c.receiver_ip c.receiver_port c.sbc_ip c.sbc_port

  -- A row with the ends of the call, whatever its sequence number state.
  abbrev pub with_state : Call → ℕ → ℕ → ℕ → ℕ → TableEntry
  with_state c last_sn offset offset_set entry_used = record (call_entry c) {
    last_sn = last_sn;
    offset = offset;
    offset_set = offset_set;
    entry_used = entry_used;
  }

  with_state-valid :
      (c : Call) (last_sn offset offset_set entry_used : ℕ)
      → IsCall c
      → is_entry_valid (with_state c last_sn offset offset_set entry_used) ≡ true
  unfolding is_entry_valid parsed_entry
  with_state-valid c last_sn offset offset_set entry_used w = ground (
    arith,
    htonl-ne-zero _ (atohl-lt c.receiver_ip w.receiver-IsIp) w.receiver-ne-zero,
    htons-ne-zero c.receiver_port w.receiver_port-lt w.receiver_port-ne-zero,
    htonl-ne-zero _ (atohl-lt c.sbc_ip w.sbc-IsIp) w.sbc-ne-zero,
    htons-ne-zero c.sbc_port w.sbc_port-lt w.sbc_port-ne-zero,
  )

  -- Packets by a plain row, where the table and the configuration are known by their contents.
  forward-row :
      ⦃k : Kernel⦄ (skb : SkBuff) (ip : IpHeader) (udp : UdpHeader) (cfg known : Config) (t : Table)
      (e : TableEntry)
      → ((b : SkBuff) → skb_linearize b ≡ true)
      → IsUdp skb ip udp
      → ntohs udp.len ≤ 8 + length skb.body
      → cfg ≡ known
      → t udp.dest ≡ e
      → is_entry_valid e ≡ true
      → IsPlain udp.dest known e
      → udp.dest ≢ 0
      → known.int_proxy_addr ≢ 0
      → known.ext_proxy_addr ≢ 0
      → let (verdict, flow) = plain_flow known e ip udp (plain_route e ip.saddr udp.source) in
        observed (forward skb cfg t) ≡ some (verdict, some flow)
  forward-row skb ip udp cfg known t e linear u fits same row valid plain port int ext =
      rw (← same, ← row)
        (forward-plain skb ip udp cfg t linear u fits (rw row valid) (rw (same, row) plain) port
          (rw same int) (rw same ext))

  -- The state after a command `a` is written to the proc file.
  abbrev pub written : ⦃s : Scanner⦄ → List ℕ → ℕ → Globals → Globals
  written parameters random_sn g = (rtp_proxy_write true true (b'a' ∷ parameters) random_sn g).0

  module _ ⦃k : Kernel⦄ ⦃s : Scanner⦄ (parameters : List ℕ) (random_sn : ℕ) (g : Globals) (c : Call)
      (short : length parameters < 255) (read : sscanf add_format parameters ≡ values c) where
    written-command :
        written parameters random_sn g ≡ (handle_command (b'a' ∷ parameters) random_sn g).0
    written-command = elim (rtp_proxy_write_lem true true (b'a' ∷ parameters) random_sn g) [
      | inl (same, _, failed) ↦ absurd (ground arith)
      | inr (_, _, handled, _, _) ↦
          handled
          ∙ ap (λ (text : List ℕ). (handle_command text random_sn g).0)
              (take_all 255 (b'a' ∷ parameters) (omega arith))
    ]

    written-config : (written parameters random_sn g).config ≡ g.config
    written-config =
        ap (λ (h : Globals). h.config) written-command
        ∙ (add_lem parameters random_sn g c.port c.sender_ip c.sender_port c.receiver_ip
            c.receiver_port c.sbc_ip c.sbc_port 0 read).1

    written-row :
        let old = g.table (htons c.port) in
        (written parameters random_sn g).table (htons c.port)
        ≡ with_state c old.last_sn
            (if is_set old.offset_set then old.offset else random_sn)
            (if is_set old.offset_set then old.offset_set else 1)
            old.entry_used
    written-row =
        ap (λ (h : Globals). h.table (htons c.port)) written-command
        ∙ (add_lem parameters random_sn g c.port c.sender_ip c.sender_port c.receiver_ip
            c.receiver_port c.sbc_ip c.sbc_port (htons c.port) read).2
        ∙ ground arith

    -- After a write of a command `a` of at most 255 bytes, of which all values are read, in range and
    -- but for the sender not zero, a UDP packet to the proxy port goes through PRE_ROUTING and
    -- POST_ROUTING as the call says: what the sender sends goes to the SBC from the external proxy
    -- address, what the SBC sends goes to the receiver from the internal one, both from the proxy
    -- port, and the rest is dropped. The call is plain, the proxy has both its addresses, the buffer
    -- can be made one piece, and the length field of the packet says no more than what is there.
    pub write-forward :
        (skb : SkBuff) (ip : IpHeader) (udp : UdpHeader)
        → IsCall c
        → IsPlain (htons c.port) g.config (call_entry c)
        → g.config.int_proxy_addr ≢ 0
        → g.config.ext_proxy_addr ≢ 0
        → ((b : SkBuff) → skb_linearize b ≡ true)
        → IsUdp skb ip udp
        → ntohs udp.len ≤ 8 + length skb.body
        → udp.dest ≡ htons c.port
        → let (verdict, flow) =
            plain_flow g.config
              (call_entry c)
              ip
              udp
              (plain_route (call_entry c) ip.saddr udp.source) in
          observed (
            forward skb
              (written parameters random_sn g).config
              (written parameters random_sn g).table)
          ≡ some (verdict, some flow)
    write-forward skb ip udp w plain int ext linear u fits dest =
        let old = g.table (htons c.port) in
        let offset = if is_set old.offset_set then old.offset else random_sn in
        let offset_set = if is_set old.offset_set then old.offset_set else 1 in
        forward-row skb ip udp (written parameters random_sn g).config g.config
          (written parameters random_sn g).table
          (with_state c old.last_sn offset offset_set old.entry_used) linear u fits written-config
          (ap (written parameters random_sn g).table dest ∙ written-row)
          (with_state-valid c old.last_sn offset offset_set old.entry_used w) (rw dest plain)
          (rw dest (htons-ne-zero c.port w.port-lt w.port-ne-zero)) int ext
