-- ===== src/Examples/Hooks.antt =====
-- Calls of the hook at PRE_ROUTING, access by access.
use lbm_rtp_proxy.Base.{ℕ, ◌≤◌, ◌≡◌, refl, some, [], ◌∷◌, inl, arith, ltb, if◌then◌else◌}
use lbm_rtp_proxy.Command.{Globals}
use lbm_rtp_proxy.Command.Laws.{IsGlobals}
use lbm_rtp_proxy.Config.{config_get}
use lbm_rtp_proxy.Examples.Calls.{
  addr, proxy, row, row_valid, calls, row_a, a_valid, meeting, ip, udp,
}
use lbm_rtp_proxy.Examples.Machine.{swap16, little_endian, inet}
use lbm_rtp_proxy.Examples.Packets.{verified, verified-IsPacket, calls-IsTable, proxy-IsConfig}
use lbm_rtp_proxy.Mangle.{generic_hook_func, get_ip_and_udp_headers}
use lbm_rtp_proxy.Rewrite.Hooks.{pre_routing_hook, pre_route_udp_packet}
use lbm_rtp_proxy.Spec.{ends}
use lbm_rtp_proxy.Table.{empty_entry, is_entry_valid, table_get, set_row}
use lbm_rtp_proxy.Table.Routing.{Routing, init_routing, get_routing}
use lbm_rtp_proxy.Threads.{idle, put, entry, no_entry}
use lbm_rtp_proxy.Threads.Hooks.{
  Passing, entered, looking_up, configured, routed, enter, look_up, next, writing, calling, Machine,
  arrival, call, Reach, here, later,
}
use lbm_rtp_proxy.Threads.Hooks.Isolation.{through, Quiet, through-Quiet}
use lbm_rtp_proxy.Threads.Hooks.Races.{IsJoined, IsReplacement, Reach-joins_deleted}
use lbm_rtp_proxy.Threads.Hooks.Routes.{Past, mixed, Reach-route}
use lbm_rtp_proxy.Threads.Hooks.Rows.{Reach-rows}
use lbm_rtp_proxy.Threads.Hooks.Whole.{answered}
use lbm_rtp_proxy.Threads.Rows.{logged}

abbrev set_up : Globals
set_up = record { config = proxy; table = calls }

set_up-IsGlobals : IsGlobals set_up
set_up-IsGlobals = record { config = proxy-IsConfig; table = calls-IsTable }

abbrev pub passing : Passing
passing = record {
  mangle_hook = pre_routing_hook;
  fn = pre_route_udp_packet;
  skb = verified;
  ip = ip;
  udp = udp;
}

abbrev to_sbc : Routing
to_sbc = record {
  i_src_addr = 0;
  i_src_port = 0;
  i_dst_addr = addr 10 0 0 7;
  i_dst_port = swap16 4000;
  i_prx_addr = addr 10 0 0 1;
  i_prx_port = swap16 5004;
  e_prx_addr = addr 192 0 2 1;
  e_prx_port = swap16 5004;
  e_src_addr = addr 198 51 100 9;
  e_src_port = swap16 6000;
  e_dst_addr = addr 198 51 100 9;
  e_dst_port = swap16 6000;
  loopback = 0;
  smoothing = 1;
}

-- Thread 0 has found the route.
abbrev found : Machine
found = record {
  mem = set_up;
  pc = put 0 (calling (routed passing row to_sbc)) (
      put 0 (calling (configured passing proxy)) (
        put 0 (calling (looking_up passing))
          (put 0 (calling (entered pre_routing_hook verified)) (λ i. writing idle))));
  done = [];
}

found-Reach : Reach set_up found
unfolding next enter look_up config_get get_ip_and_udp_headers pre_routing_hook table_get
    is_entry_valid init_routing
found-Reach =
    later
      (later
        (later (later here (arrival 0 pre_routing_hook verified refl (inl refl) verified-IsPacket))
          (call 0 refl tt))
        (call 0 refl tt))
      (call 0 refl tt)

Reach-route_example :
    (m : Globals) × (m' : Globals) × (m'' : Globals) × Past found found-Reach m
    × Past found found-Reach m'
    × Past found found-Reach m''
    × (get_routing (swap16 5004) m.config (mixed (swap16 5004) m'.table m''.table)
        ≡ (row, some to_sbc))
Reach-route_example = Reach-route set_up found found-Reach 0 passing row to_sbc refl (omega arith)

-- Another port gets a row while the call looks its own up.
abbrev others_change : ℕ → Globals
others_change i = if ltb i 2 then set_up else record set_up { table = set_row 7 row calls }

others_change-Quiet : Quiet others_change (swap16 5004)
others_change-Quiet = record {
  config = λ i. ground arith;
  row = λ i. ground arith;
  other = λ i. ground arith;
}

through-Quiet_example :
    (m : ℕ) × (m ≤ 4)
    × (answered (through others_change 5 (entered pre_routing_hook verified))
        ≡ generic_hook_func
            (some pre_routing_hook)
            (some verified)
            pre_routing_hook.hooknum
            (others_change m).config
            (others_change m).table)
through-Quiet_example =
    through-Quiet 5 others_change pre_routing_hook verified udp (omega arith) (inl refl) refl
      others_change-Quiet

-- Two calls that meet in the proxy.
abbrev joined_up : Globals
joined_up = record { config = proxy; table = meeting }

row_a-IsJoined : IsJoined joined_up pre_routing_hook verified passing row 77
row_a-IsJoined = record {
  loopback = omega arith;
  valid = a_valid;
  addr = refl;
  port-lt = omega arith;
  other = omega arith;
}

row-IsReplacement : IsReplacement joined_up pre_routing_hook verified passing row 77
row-IsReplacement = record { fits = omega arith; valid = row_valid; addr = omega arith }

begins : enter pre_routing_hook verified meeting ≡ looking_up passing
unfolding enter get_ip_and_udp_headers pre_routing_hook
begins = refl

abbrev joins_deleted :
    (d : Machine) × (rt : Routing) × Reach joined_up d
    × (d.done ≡ entry (swap16 5006) (ends row) ∷ no_entry (swap16 5004) ∷ [])
    × (d.mem.table (swap16 5004) ≡ empty_entry)
    × (d.pc 0 ≡ calling (routed passing row_a rt))
    × (d.pc 1 ≡ writing idle)
    × (rt.e_dst_addr ≡ addr 10 0 0 7)
    × (rt.e_dst_port ≡ swap16 4000)
joins_deleted =
    Reach-joins_deleted joined_up pre_routing_hook verified passing row 77 (inl refl)
      verified-IsPacket begins row_a-IsJoined row-IsReplacement (omega arith)

Reach-joins_deleted_example :
    (d : Machine) × (rt : Routing) × Reach joined_up d
    × (d.done ≡ entry (swap16 5006) (ends row) ∷ no_entry (swap16 5004) ∷ [])
    × (d.mem.table (swap16 5004) ≡ empty_entry)
    × (d.pc 0 ≡ calling (routed passing row_a rt))
    × (d.pc 1 ≡ writing idle)
    × (rt.e_dst_addr ≡ addr 10 0 0 7)
    × (rt.e_dst_port ≡ swap16 4000)
Reach-joins_deleted_example =
    Reach-joins_deleted joined_up pre_routing_hook verified passing row 77 (inl refl)
      verified-IsPacket begins row_a-IsJoined row-IsReplacement (omega arith)

Reach-rows_example :
    ends (joins_deleted.0.mem.table (swap16 5006))
    ≡ logged (swap16 5006) joins_deleted.0.done (ends (meeting (swap16 5006)))
Reach-rows_example = Reach-rows joined_up joins_deleted.0 (swap16 5006) joins_deleted.2
