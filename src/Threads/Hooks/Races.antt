-- ===== src/Threads/Hooks/Races.antt =====
-- A call of a hook between whose two lookups (get_routing of src/table.c) commands change both rows.
use lbm_rtp_proxy.Base.{ℕ, ◌<◌, ◌^◌, true, some, [], ◌∷◌, ◌≡◌, ◌≢◌, refl, ap, ◌∙◌, arith}
use lbm_rtp_proxy.Command.{Globals, update_table_function}
use lbm_rtp_proxy.Config.{Config, config_get}
use lbm_rtp_proxy.Kernel.{Kernel}
use lbm_rtp_proxy.Net.ByteOrder.{ByteOrder}
use lbm_rtp_proxy.Packet.{SkBuff}
use lbm_rtp_proxy.Rewrite.Hooks.{MangleHook}
use lbm_rtp_proxy.Spec.{ends}
use lbm_rtp_proxy.System.{IsHook}
use lbm_rtp_proxy.System.Packets.{IsPacket}
use lbm_rtp_proxy.Table.{
  Table, TableEntry, IsEntry, empty_entry, table_size, is_entry_valid, table_get, table_del,
  table_atomically,
}
use lbm_rtp_proxy.Table.Routing.{Routing, init_routing, join_routing}
use lbm_rtp_proxy.Threads.{add, delete, entry, no_entry, idle}
use lbm_rtp_proxy.Threads.Hooks.{
  Passing, looking_up, joining, routed, enter, look_up, next, writing, calling, Machine, command,
  arrival, call, Reach, here, later,
}

join_routing-valid :
    (ind : ℕ) (cfg : Config) (t : Table) (rt : Routing)
    → is_entry_valid (t ind) ≡ true
    → (t ind).receiver_addr ≢ cfg.int_proxy_addr
    → ((join_routing ind cfg t rt).e_dst_addr ≡ (t ind).receiver_addr)
      × ((join_routing ind cfg t rt).e_dst_port ≡ (t ind).receiver_port)
unfolding join_routing table_get init_routing
join_routing-valid ind cfg t rt valid addr = ground arith

-- A row that takes the addresses and ports of another.
replaced :
    (random_sn : ℕ) (x e : TableEntry)
    → is_entry_valid e ≡ true
    → let row = (update_table_function random_sn x e).0 in
      (is_entry_valid row ≡ true)
      × (row.receiver_addr ≡ e.receiver_addr)
      × (row.receiver_port ≡ e.receiver_port)
unfolding update_table_function is_entry_valid
replaced random_sn x e valid = ground arith

module _ ⦃o : ByteOrder⦄ ⦃k : Kernel⦄ (g : Globals) (mh : MangleHook) (skb : SkBuff) (p : Passing)
    (e : TableEntry) (random_sn : ℕ) where
  -- The row of the port that the packet is for, and the port that the row leads to.
  abbrev pub own : TableEntry
  own = g.table p.udp.dest

  -- The row leads to another port of the proxy.
  pub record IsJoined : Type 0 where
    pub loopback : g.config.loopback ≢ 0
    pub valid : is_entry_valid own ≡ true
    pub addr : own.sbc_addr ≡ g.config.ext_proxy_addr
    pub port-lt : own.sbc_port < table_size
    pub other : own.sbc_port ≢ p.udp.dest

  -- A new row for that port, for a call of its own.
  pub record IsReplacement : Type 0 where
    pub fits : IsEntry e
    pub valid : is_entry_valid e ≡ true
    pub addr : e.receiver_addr ≢ g.config.int_proxy_addr

  abbrev own_routing : Routing
  own_routing = init_routing p.udp.dest (config_get g.config) own

  -- The two lookups and the commands d and a between them.
  abbrev changed : Globals
  changed = record g {
    table =
        (table_atomically own.sbc_port (some (update_table_function random_sn)) e
          (table_del p.udp.dest g.table)).1;
  }

  abbrev mixed_routing : Routing
  mixed_routing = join_routing own.sbc_port (config_get g.config) changed.table own_routing

  changed_row :
      changed.table own.sbc_port
      ≡ (update_table_function random_sn (table_del p.udp.dest g.table own.sbc_port) e).0
  unfolding table_atomically
  changed_row = ground arith

  changed_own : IsJoined → changed.table p.udp.dest ≡ empty_entry
  unfolding table_atomically table_del
  changed_own w = ground arith

  look_up-IsJoined :
      IsJoined
      → look_up p (config_get g.config) g.table ≡ joining p (config_get g.config) own own_routing
  unfolding look_up table_get config_get
  look_up-IsJoined w = ground arith

  mixed_routing-IsReplacement :
      IsReplacement
      → (mixed_routing.e_dst_addr ≡ e.receiver_addr) × (mixed_routing.e_dst_port ≡ e.receiver_port)
  unfolding config_get
  mixed_routing-IsReplacement r =
      let row = changed_row in
      let (valid, addr, port) =
        replaced random_sn (table_del p.udp.dest g.table own.sbc_port) e r.valid in
      let (to, at) =
        join_routing-valid own.sbc_port (config_get g.config) changed.table own_routing
          (rw row valid) (rw (row, addr) r.addr) in
      (
        to ∙ ap (λ (x : TableEntry). x.receiver_addr) row ∙ addr,
        at ∙ ap (λ (x : TableEntry). x.receiver_port) row ∙ port,
      )

  -- Where loopback is on and the row of a port leads to another port of the proxy, whose row a command
  -- then gives to a call of its own, a packet can be on its way between the two: there is a state that
  -- threads reach in which the row of its port has been deleted before that by a completed command d,
  -- and in which the packet's hook function is about to run with the deleted row and a route that leads
  -- it to the receiver of the new call.
  pub Reach-joins_deleted :
      IsHook mh
      → IsPacket skb
      → enter mh skb g.table ≡ looking_up p
      → IsJoined
      → IsReplacement
      → random_sn < 2 ^ 16
      → (d : Machine) × (rt : Routing) × Reach g d
        × (d.done ≡ entry own.sbc_port (ends e) ∷ no_entry p.udp.dest ∷ [])
        × (d.mem.table p.udp.dest ≡ empty_entry)
        × (d.pc 0 ≡ calling (routed p own rt))
        × (d.pc 1 ≡ writing idle)
        × (rt.e_dst_addr ≡ e.receiver_addr)
        × (rt.e_dst_port ≡ e.receiver_port)
  unfolding next
  Reach-joins_deleted h packet begins w r lt =
      let found = later (later here (arrival 0 mh skb refl h packet)) (call 0 refl tt) in
      let asked = later found (call 0 (ap calling begins) tt) in
      let held = later asked (call 0 refl tt) in
      let gone = later held (command 1 refl (delete p.udp.dest) tt) in
      let taken =
        later gone (command 1 refl (add own.sbc_port random_sn e w.port-lt lt r.fits) tt) in
      let joined = later taken (call 0 (ap calling (look_up-IsJoined w)) tt) in
      let (to, at) = mixed_routing-IsReplacement r in
      (_, mixed_routing, joined, refl, changed_own w, refl, refl, to, at)
