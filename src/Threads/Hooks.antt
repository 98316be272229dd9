-- ===== src/Threads/Hooks.antt =====
-- Calls of the generic netfilter hook function (src/mangle.c) by the accesses of the shared state that
-- they make, with the moves of writers and of other calls in between: config_get, table_get for the
-- port, table_get for the row that it leads to, and the hook function, whose only access is the one
-- table_atomically of rewrite_rtp.
pub mod Calls
pub mod Refinement
pub mod Whole
pub mod Lookups
pub mod Isolation
pub mod Routes
pub mod Races
pub mod Rows
pub mod Commands
use lbm_rtp_proxy.Base.{ℕ, ◌&&◌, none, some, List, [], ◌++◌, ◌==◌, ◌≡◌, is_set, if◌then◌else◌}
use lbm_rtp_proxy.Command.{Globals}
use lbm_rtp_proxy.Config.{Config, config_get}
use lbm_rtp_proxy.Kernel.{Kernel}
use lbm_rtp_proxy.Mangle.{HookResult, untouched, get_ip_and_udp_headers, receive, conclude}
use lbm_rtp_proxy.Net.ByteOrder.{ByteOrder}
use lbm_rtp_proxy.Packet.{IpHeader, UdpHeader, SkBuff}
use lbm_rtp_proxy.Rewrite.Hooks.{HookFn, MangleHook}
use lbm_rtp_proxy.System.{IsHook}
use lbm_rtp_proxy.System.Packets.{IsPacket}
use lbm_rtp_proxy.Table.{Table, TableEntry, table_get}
use lbm_rtp_proxy.Table.Routing.{Routing, init_routing, join_routing}
use lbm_rtp_proxy.Threads.{
  Access, Pc, idle, Move, add, delete, read_config, write_config, clear_config, clear_row,
  clear_end, put,
}

-- The local variables of a call that has found the headers.
pub record Passing : Type 0 where
  pub mangle_hook : MangleHook
  pub fn : HookFn
  pub skb : SkBuff
  pub ip : IpHeader
  pub udp : UdpHeader

-- Where a call stands: at its beginning, before config_get, before each table_get of get_routing,
-- before the call of the hook function, and at its end. A fault is an access of
-- rewrite_rtp behind the packet.
pub data Call : Type 0 where
  entered : MangleHook → SkBuff → Call
  looking_up : Passing → Call
  configured : Passing → Config → Call
  joining : Passing → Config → TableEntry → Routing → Call
  routed : Passing → TableEntry → Routing → Call
  returned : HookResult → Call
  faulted : Passing → Call

module _ ⦃o : ByteOrder⦄ ⦃k : Kernel⦄ where
  -- Up to the lookup of the configuration.
  unfoldable pub enter : MangleHook → SkBuff → Table → Call
  enter mangle_hook skb table =
      let pass = returned (untouched (some skb) table) in
      elim mangle_hook.name [
        | none ↦ pass
        | some name ↦ elim (get_ip_and_udp_headers (some skb)) [
          | none ↦ pass
          | some (ip, udp) ↦ elim mangle_hook.fn [
            | none ↦ pass
            | some fn ↦
                looking_up
                  (record { mangle_hook = mangle_hook; fn = fn; skb = skb; ip = ip; udp = udp })
          ]
        ]
      ]

  -- The first half of get_routing, on the table as the first table_get finds it.
  unfoldable pub look_up : Passing → Config → Table → Call
  unfolding table_get init_routing
  look_up p cfg table =
      let (entry, found) = table_get p.udp.dest table in
      let routing = init_routing p.udp.dest cfg entry in
      if found
      then (if is_set cfg.loopback && entry.sbc_addr == cfg.ext_proxy_addr
          then joining p cfg entry routing
          else routed p entry routing)
      else returned (untouched (some p.skb) table)

  -- From the checksums of the arriving packet to the verdict.
  unfoldable pub apply_fn : Passing → TableEntry → Routing → Table → Call
  apply_fn p ent rt table =
      let (skb', printed) = receive p.mangle_hook.hooknum p.skb p.ip p.udp in
      elim (p.fn p.ip p.udp skb'.body ent rt table) [
        | none ↦ faulted p
        | some out ↦ returned (conclude p.mangle_hook.hooknum skb' printed out)
      ]

  -- What a call that ends leaves in the table.
  unfoldable pub leave_table : Call → Table → Table
  leave_table (returned r) table = r.table
  leave_table _ table = table

  -- One access of a call.
  unfoldable pub next : Globals → Call → Globals × Call
  unfolding enter look_up join_routing apply_fn leave_table
  next g (entered mangle_hook skb) = (g, enter mangle_hook skb g.table)
  next g (looking_up p) = (g, configured p (config_get g.config))
  next g (configured p cfg) = (g, look_up p cfg g.table)
  next g (joining p cfg ent rt) = (g, routed p ent (join_routing ent.sbc_port cfg g.table rt))
  next g (routed p ent rt) =
      let c = apply_fn p ent rt g.table in (record g { table = leave_table c g.table }, c)
  next g (returned r) = (g, returned r)
  next g (faulted p) = (g, faulted p)

-- A thread works at the proc file, as in Threads, or at a call.
pub data Local : Type 0 where
  writing : Pc → Local
  calling : Call → Local

-- A call that has an access left.
abbrev pub IsUnderWay : Call → Type 0
IsUnderWay (returned r) = ⊥
IsUnderWay (faulted p) = ⊥
IsUnderWay _ = Unit

-- The moves of a writer.
abbrev pub IsCommand : {g g' : Globals} {p p' : Pc} {cs : List Access} → Move g p g' p' cs → Type 0
IsCommand (add index random_sn ent _ _ _) = Unit
IsCommand (delete index) = Unit
IsCommand (read_config c _) = Unit
IsCommand write_config = Unit
IsCommand clear_config = Unit
IsCommand clear_row = Unit
IsCommand clear_end = Unit
IsCommand _ = ⊥

-- The shared state, the threads, and the accesses of writers so far, the newest first.
pub record Machine : Type 0 where
  pub mem : Globals
  pub pc : ℕ → Local
  pub done : List Access

module _ ⦃o : ByteOrder⦄ ⦃k : Kernel⦄ where
  pub data Step (d : Machine) : Machine → Type 0 where
    command :
        (i : ℕ) {p p' : Pc} {g : Globals} {cs : List Access}
        → d.pc i ≡ writing p
        → (mv : Move d.mem p g p' cs) → IsCommand mv
        → Step d (record { mem = g; pc = put i (writing p') d.pc; done = cs ++ d.done })
    arrival :
        (i : ℕ) (mh : MangleHook) (skb : SkBuff)
        → d.pc i ≡ writing idle
        → IsHook mh
        → IsPacket skb
        → Step d (record d { pc = put i (calling (entered mh skb)) d.pc })
    call :
        (i : ℕ) {c : Call}
        → d.pc i ≡ calling c
        → IsUnderWay c
        → Step d (record d { mem = (next d.mem c).0; pc = put i (calling (next d.mem c).1) d.pc })
    leave :
        (i : ℕ) {r : HookResult}
        → d.pc i ≡ calling (returned r)
        → Step d (record d { pc = put i (writing idle) d.pc })

  abbrev pub begin : Globals → Machine
  begin g = record { mem = g; pc = λ i. writing idle; done = [] }

  pub data Reach (g : Globals) : Machine → Type 0 where
    here : Reach g (begin g)
    later : {d e : Machine} → Reach g d → Step d e → Reach g e
