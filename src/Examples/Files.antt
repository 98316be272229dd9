-- ===== src/Examples/Files.antt =====
-- The proc file, and loading and unloading.
use lbm_rtp_proxy.Base.{
  zero, suc, All, ◌≤◌, ℕ, ◌<◌, true, false, ◌≡◌, ◌⊎◌, ◌↔◌, refl, none, some, map, List, [], ◌∷◌,
  ◌==◌, ◌||◌, if◌then◌else◌, length, take, drop, ◌++◌, arith,
}
use lbm_rtp_proxy.Command.{Globals, handle_command}
use lbm_rtp_proxy.Config.{empty_config}
use lbm_rtp_proxy.Examples.Machine.{little_endian, inet, decimal_scanner}
use lbm_rtp_proxy.Packet.{SkBuff, UdpHeader, checksum_none}
use lbm_rtp_proxy.Procfs.{
  rtp_proxy_seq_start, rtp_proxy_seq_show, rtp_proxy_write, enomem, efault, written,
}
use lbm_rtp_proxy.Procfs.Listing.{IsRow, listed, In, IsAscendingFrom, listed_iff}
use lbm_rtp_proxy.Procfs.Printing.{DescribesRow, show-DescribesRow}
use lbm_rtp_proxy.Procfs.Ending.{session-ends}
use lbm_rtp_proxy.Procfs.Session.{session, whole, total}
use lbm_rtp_proxy.Procfs.Operations.{rtp_proxy_seq_ops, read_sequence, read_sequence-whole}
use lbm_rtp_proxy.Procfs.Writing.{rtp_proxy_write_lem}
use lbm_rtp_proxy.Startup.{NfHookOps, ModuleState, rtp_proxy_init}
use lbm_rtp_proxy.Spec.{loopback, view, replay, route}
use lbm_rtp_proxy.Spec.Refinement.{requests, Reachable-replay, Reachable-route}
use lbm_rtp_proxy.Spec.Requests.{request, loopback_request}
use lbm_rtp_proxy.System.{Reachable, write, loaded, stepped}
use lbm_rtp_proxy.Table.Routing.{get_routing}
use lbm_rtp_proxy.Table.{Table, TableEntry, empty_entry, table_size}
use lbm_rtp_proxy.Table.Laws.{IsTable}

abbrev row : TableEntry
row = record empty_entry { receiver_addr = 7; receiver_port = 7; sbc_addr = 9; sbc_port = 9 }

-- Rows at 3 and 5.
abbrev rows : Table
rows = λ i. if i == 3 || i == 5 then row else empty_entry

abbrev state : Globals
state = record { config = empty_config; table = rows }

rows-IsTable : IsTable rows
rows-IsTable = record { rows = λ i lt. ground arith }

listed_iff_example :
    IsAscendingFrom 0 (listed table_size 0 rows)
    × (In 3 (listed table_size 0 rows) ↔ ((0 < 3) × (3 < table_size) × IsRow rows 3))
listed_iff_example = listed_iff rows 3

read_sequence-whole_example :
    read_sequence rtp_proxy_seq_ops (1 ∷ 2 ∷ []) 0 state
    ≡ map
        (λ i. rtp_proxy_seq_show i state)
        (take 1 (whole rows) ++ take (total (2 ∷ [])) (drop 2 (whole rows)))
read_sequence-whole_example = read_sequence-whole 1 (2 ∷ []) state (omega arith) (omega arith)

-- Portions of one line each.
lines : ℕ → List ℕ
lines zero = []
lines (suc k) = 1 ∷ lines k

length-lines : (k : ℕ) → length (lines k) ≡ k
unfolding lines
length-lines zero = refl
length-lines (suc k) = omega (arith, length-lines k)

lines-positive : (k : ℕ) → All (λ n. 1 ≤ n) (lines k)
unfolding lines
lines-positive zero = tt
lines-positive (suc k) = (omega arith, lines-positive k)

session-ends_example : rtp_proxy_seq_start (length (session (lines table_size) 0 rows)) rows ≡ none
session-ends_example =
    session-ends (lines table_size) rows (lines-positive table_size)
      (omega (arith, length-lines table_size))

show-DescribesRow_example : DescribesRow (rtp_proxy_seq_show 3 state) 3 row
show-DescribesRow_example = show-DescribesRow 3 state rows-IsTable (omega arith) (omega arith)

-- "l 0"
abbrev text : List ℕ
text = b'l' ∷ b' ' ∷ b'0' ∷ []

rtp_proxy_write_lem_example :
    let (g', result) = rtp_proxy_write true true text 77 state in
    ((g' ≡ state) × ((result ≡ enomem) ⊎ (result ≡ efault)) × ((true ≡ false) ⊎ (true ≡ false)))
    ⊎ ((true ≡ true)
        × (true ≡ true)
        × (g' ≡ (handle_command (take 255 text) 77 state).0)
        × (result ≡ written (length (take 255 text)))
        × (length (take 255 text) < 256))
rtp_proxy_write_lem_example = rtp_proxy_write_lem true true text 77 state

abbrev unloaded : ModuleState
unloaded = record {
  globals = state;
  proc_file = false;
  hook_count = 0;
  hook_ops = [];
  registered = [];
}

abbrev udp : UdpHeader
udp = record { source = 4000; dest = 3; len = 2048; check = 0 }

abbrev packet : SkBuff
packet = record {
  ip = none;
  udp = some udp;
  body = [];
  ip_summed = checksum_none;
  csum_start = 0;
  csum_offset = 0;
  transport_offset = 20;
  dev = none;
  route = none;
}

-- Takes that many hooks off the registered ones.
abbrev drop_first : List NfHookOps → ℕ → List NfHookOps → List NfHookOps
drop_first ops count hooks = drop count hooks

-- A module that was loaded and then told to switch loopback off.
abbrev told : Globals
told = (rtp_proxy_write true true text 77 (rtp_proxy_init 8 true unloaded).globals).0

abbrev history : Reachable told
history =
    stepped (rtp_proxy_init 8 true unloaded).globals told (loaded 8 true unloaded)
      (write true true text 77 (rtp_proxy_init 8 true unloaded).globals (omega arith))

asked_once : requests told history ≡ loopback 0 ∷ []
unfolding request loopback_request take
asked_once = refl

Reachable-replay_example : view told ≡ replay (requests told history)
Reachable-replay_example = Reachable-replay told history

Reachable-route_example :
    (get_routing 5 told.config told.table).1 ≡ route 5 (replay (requests told history))
Reachable-route_example = Reachable-route told history 5 (omega arith)
