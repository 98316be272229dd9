-- ===== src/Examples/Packets.antt =====
-- A packet of the calls at PRE_ROUTING, and after a command that is written to the proc file.
use lbm_rtp_proxy.Base.{◌≡◌, refl, some, [], inl, inr, arith}
use lbm_rtp_proxy.Command.{Globals, parsed_entry}
use lbm_rtp_proxy.Config.{IsConfig, config_get}
use lbm_rtp_proxy.Examples.Calls.{addr, proxy, row_valid, calls, ip, udp, packet}
use lbm_rtp_proxy.Examples.Commands.{parameters, sender_ip, receiver_ip, sbc_ip, scanned}
use lbm_rtp_proxy.Examples.Machine.{swap16, little_endian, inet, decimal_scanner}
use lbm_rtp_proxy.Mangle.{HookResult, generic_hook_func, untouched, mangle, conclude, receive}
use lbm_rtp_proxy.Mangle.Forward.{observed, forward}
use lbm_rtp_proxy.Mangle.Deleted.{forward_across, forward-deleted}
use lbm_rtp_proxy.Mangle.Placed.{Call, IsCall, written, call_entry, write-forward}
use lbm_rtp_proxy.Net.Address.{atohl}
use lbm_rtp_proxy.Packet.{IpHeader, SkBuff, checksum_unnecessary, nf_accept}
use lbm_rtp_proxy.Rewrite.Hooks.{pre_routing_hook, pre_route_udp_packet, nf_ip_pre_routing}
use lbm_rtp_proxy.Rewrite.Matching.{match_routes}
use lbm_rtp_proxy.Checksum.{handle_incoming_checksums}
use lbm_rtp_proxy.Table.Routing.{get_routing}
use lbm_rtp_proxy.System.Packets.{IsPacket}
use lbm_rtp_proxy.Table.{empty_entry, table_del}
use lbm_rtp_proxy.Table.Laws.{IsTable}
use lbm_rtp_proxy.Table.Routing.Laws.{IsPlain}

-- Its checksums were verified by the device.
abbrev pub verified : SkBuff
verified = record packet { ip_summed = checksum_unnecessary }

pub verified-IsPacket : IsPacket verified
verified-IsPacket = record {
  ip = omega arith;
  udp = omega arith;
  body = ground arith;
  csum_start-lt = omega arith;
  csum_offset-lt = omega arith;
  transport_offset-lt = omega arith;
}

-- It is sent on to the SBC.
abbrev routed : HookResult
routed = record {
  verdict = nf_accept;
  skb = some (record verified { ip = some (record ip { daddr = addr 198 51 100 9 }) });
  table = calls;
  printed = [];
}

routed_so :
    generic_hook_func (some pre_routing_hook) (some verified) nf_ip_pre_routing proxy calls
    ≡ some routed
unfolding generic_hook_func pre_routing_hook mangle get_routing pre_route_udp_packet conclude
    match_routes config_get receive handle_incoming_checksums
routed_so = refl

pub calls-IsTable : IsTable calls
calls-IsTable = record { rows = λ i lt. ground arith }

pub proxy-IsConfig : IsConfig proxy
proxy-IsConfig = omega arith

-- The call of the command, in a proxy that has its addresses.
abbrev call : Call
call = record {
  port = 5004;
  sender_ip = sender_ip;
  sender_port = 4000;
  receiver_ip = receiver_ip;
  receiver_port = 4000;
  sbc_ip = sbc_ip;
  sbc_port = 6000;
}

call-IsCall : IsCall call
unfolding atohl
call-IsCall = record {
  port-lt = omega arith;
  port-ne-zero = omega arith;
  receiver-IsIp = omega arith;
  receiver-ne-zero = omega arith;
  receiver_port-lt = omega arith;
  receiver_port-ne-zero = omega arith;
  sbc-IsIp = omega arith;
  sbc-ne-zero = omega arith;
  sbc_port-lt = omega arith;
  sbc_port-ne-zero = omega arith;
}

abbrev configured : Globals
configured = record { config = proxy; table = λ i. empty_entry }

call-IsPlain : IsPlain (swap16 5004) proxy (call_entry call)
unfolding parsed_entry atohl
call-IsPlain = inr (inl (omega arith), omega arith)

-- A packet from the sender.
abbrev from_sender : IpHeader
from_sender = record ip { saddr = addr 10 0 0 5 }

write-forward_example :
    let g = written parameters 77 configured in
    observed (forward (record packet { ip = some from_sender }) g.config g.table)
    ≡ some (
      nf_accept,
      some (record {
        src_addr = addr 192 0 2 1;
        src_port = swap16 5004;
        dst_addr = addr 198 51 100 9;
        dst_port = swap16 6000;
      }),
    )
unfolding parsed_entry atohl
write-forward_example =
    write-forward parameters 77 configured call (omega arith) scanned
      (record packet { ip = some from_sender }) from_sender udp call-IsCall call-IsPlain
      (omega arith) (omega arith) (λ s. refl)
      (record { has_ip = refl; has_udp = refl; protocol = refl }) (omega arith) refl

forward-deleted_example :
    (s : SkBuff) × (forward_across packet proxy calls proxy (table_del (swap16 5004) calls)
      ≡ some (untouched (some s) (table_del (swap16 5004) calls)))
    × (s.ip ≡ some (record ip { daddr = addr 198 51 100 9 }))
    × (s.udp ≡ some udp)
    × (s.body ≡ packet.body)
forward-deleted_example =
    forward-deleted packet ip udp proxy proxy calls refl
      (record { has_ip = refl; has_udp = refl; protocol = refl }) row_valid (ground arith)
      (ground arith)
