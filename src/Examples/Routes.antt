-- ===== src/Examples/Routes.antt =====
-- Routes, matching and checksums at the packet of the calls.
use lbm_rtp_proxy.Base.{
  ◌&&◌, ◌==◌, ◌+◌, ◌-◌, ◌^◌, Option, length, ◌≡◌, ◌≢◌, ◌↔◌, refl, none, some, [], if◌then◌else◌,
  arith,
}
use lbm_rtp_proxy.Checksum.{
  calculate_ip_checksum, calculate_udp_checksum_full, handle_outgoing_checksums, verify_checksums,
}
use lbm_rtp_proxy.Checksum.Device.{
  rfc768, IsDevice, IsVerified, handle_outgoing_checksums-IsVerified,
}
use lbm_rtp_proxy.Checksum.Laws.{verify-calculate}
use lbm_rtp_proxy.Kernel.{csum_tcpudp_magic}
use lbm_rtp_proxy.Examples.Machine.{swap16, little_endian, inet}
use lbm_rtp_proxy.Mangle.{generic_hook_func, untouched}
use lbm_rtp_proxy.Mangle.Laws.{generic_hook_func-unrouted}
use lbm_rtp_proxy.Packet.{IpHeader, UdpHeader, SkBuff, checksum_partial}
use lbm_rtp_proxy.Rewrite.Hooks.{pre_routing_hook, nf_ip_pre_routing}
use lbm_rtp_proxy.Rewrite.Matching.{match_routes, outgoing_route}
use lbm_rtp_proxy.Rewrite.Matching.Laws.{match_routes-plain}
use lbm_rtp_proxy.Table.{empty_entry, is_entry_valid}
use lbm_rtp_proxy.Table.Routing.{get_routing}
use lbm_rtp_proxy.Table.Routing.Laws.{plain_routing, get_routing-ne-none_iff}
use lbm_rtp_proxy.Examples.Calls.{proxy, row, calls, ip, udp, rtp, packet, row_valid}

match_routes-plain_example :
    match_routes ip udp (plain_routing (swap16 5004) proxy row) ≡ outgoing_route
match_routes-plain_example = match_routes-plain (swap16 5004) proxy row ip udp row_valid refl

get_routing-ne-none_iff_example :
    ((get_routing (swap16 5004) proxy calls).1 ≢ none)
    ↔ ((row.receiver_addr ≢ 0) × (row.receiver_port ≢ 0) × (row.sbc_addr ≢ 0) × (row.sbc_port ≢ 0))
get_routing-ne-none_iff_example = get_routing-ne-none_iff (swap16 5004) proxy calls

unrouted : (get_routing (swap16 5004) proxy (λ i. empty_entry)).1 ≡ none
unfolding get_routing is_entry_valid
unrouted = refl

generic_hook_func-unrouted_example :
    generic_hook_func
      (some pre_routing_hook)
      (some packet)
      nf_ip_pre_routing
      proxy
      (λ i. empty_entry)
    ≡ some (untouched (some packet) (λ i. empty_entry))
generic_hook_func-unrouted_example =
    generic_hook_func-unrouted pre_routing_hook packet udp nf_ip_pre_routing proxy
      (λ i. empty_entry) refl unrouted

verify-calculate_example :
    let ip' = calculate_ip_checksum ip in
    let udp' = calculate_udp_checksum_full ip' udp rtp in
    (verify_checksums ip' udp' rtp ≡ []) × (udp'.check ≢ 0)
verify-calculate_example = verify-calculate ip udp rtp (omega arith)

-- A device that finishes the checksums of buffers that say all that it needs.
abbrev finished : SkBuff → Option IpHeader → Option UdpHeader → SkBuff
finished skb (some ip) (some udp) =
    if skb.csum_start == skb.transport_offset
      && skb.csum_offset == 6
      && udp.check == 2 ^ 16 - 1 - csum_tcpudp_magic ip.saddr ip.daddr (8 + length skb.body) 17 0
    then record skb { udp = some (record udp { check = rfc768 ip udp skb.body }) }
    else skb
finished skb _ _ = skb

abbrev device : SkBuff → SkBuff
device skb = elim skb.ip_summed [ checksum_partial ↦ finished skb skb.ip skb.udp | _ ↦ skb ]

device-IsDevice : IsDevice device
device-IsDevice = record {
  finishes = λ skb ip udp hip hudp summed start offset seed.
      rw (summed, hip, hudp, start, offset, seed) (ground arith);
  leaves = λ skb other. ground arith;
}

handle_outgoing_checksums-IsVerified_example :
    IsVerified ip udp rtp (device (handle_outgoing_checksums packet ip udp))
handle_outgoing_checksums-IsVerified_example =
    handle_outgoing_checksums-IsVerified device packet ip udp device-IsDevice refl (λ e. cc)
