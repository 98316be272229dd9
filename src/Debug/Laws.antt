-- ===== src/Debug/Laws.antt =====
-- What the prints of a DEBUG build tell, and what they do to the packets.
use Prim.Native.String.{String}
use lbm_rtp_proxy.Base.{
  if◌then◌else◌, is_set, ◌∷◌, List, ℕ, ◌^◌, ◌<◌, Option, none, some, [], ◌≡◌, refl, arith, ◌≤◌, ◌≢◌,
  ◌⊎◌, inl, inr,
}
use lbm_rtp_proxy.Checksum.{
  calculate_ip_checksum, calculate_pseudo_header_udp_checksum, calculate_udp_checksum_full,
  handle_incoming_checksums,
}
use lbm_rtp_proxy.Checksum.Laws.{verify-calculate}
use lbm_rtp_proxy.Config.{Config, IsConfig}
use lbm_rtp_proxy.Debug.{
  debug_print_routing, routing_title, routing_there, routing_back, BufferInfo, Line, tuple_line,
  config_printed, debug_print_tuple, config_print,
}
use lbm_rtp_proxy.Debug.Incoming.{
  verify_checksums_partial, handle_incoming_checksums_debug, receive_debug,
}
use lbm_rtp_proxy.Debug.Outgoing.{
  calculate_ip_checksum_debug, calculate_pseudo_header_udp_checksum_debug,
  calculate_udp_checksum_full_debug, print_outgoing, handle_outgoing_checksums_debug,
}
use lbm_rtp_proxy.Kernel.{Kernel}
use lbm_rtp_proxy.Mangle.{receive}
use lbm_rtp_proxy.Net.Address.{atohl}
use lbm_rtp_proxy.Net.ByteOrder.{ByteOrder, ntohs, htonl, htons}
use lbm_rtp_proxy.Packet.{IpHeader, UdpHeader, SkBuff, Flow, checksum_partial, checksum_complete}
use lbm_rtp_proxy.Table.Routing.{Routing}
use lbm_rtp_proxy.Table.Routing.Ranges.{IsRouting}
use lbm_rtp_proxy.Procfs.Printing.{addr_again, port_again}

module _ ⦃o : ByteOrder⦄ where
  -- The flow that a line about a packet names, and the configuration that a line names.
  abbrev pub flow_read : Line → Option Flow
  flow_read (tuple_line msg src dst) = some (record {
    src_addr = htonl (atohl src.ip);
    src_port = htons src.port;
    dst_addr = htonl (atohl dst.ip);
    dst_port = htons dst.port;
  })
  flow_read _ = none

  abbrev pub config_read : Line → Option Config
  config_read (config_printed int ext smoothing loopback) = some (record {
    int_proxy_addr = htonl (atohl int);
    ext_proxy_addr = htonl (atohl ext);
    smoothing = smoothing;
    loopback = loopback;
  })
  config_read _ = none

  -- The line that is printed about a packet before and after it is rewritten names its addresses and
  -- ports without loss, where they are in the range of their types.
  pub flow_read-debug_print_tuple :
      (msg : String) (f : Flow)
      → f.src_addr < 2 ^ 32
      → f.src_port < 2 ^ 16
      → f.dst_addr < 2 ^ 32
      → f.dst_port < 2 ^ 16
      → flow_read (debug_print_tuple msg f.src_addr f.src_port f.dst_addr f.dst_port) ≡ some f
  unfolding debug_print_tuple
  flow_read-debug_print_tuple msg f sa sp da dp =
      rw
        (
          addr_again f.src_addr sa,
          addr_again f.dst_addr da,
          port_again f.src_port sp,
          port_again f.dst_port dp,
        )
        refl

  -- The line that is printed about a configuration in range names all of it.
  pub config_read-config_print :
      (cfg : Config) → IsConfig cfg → config_read (config_print cfg) ≡ some cfg
  unfolding config_print
  config_read-config_print cfg w =
      rw
        (
          addr_again cfg.int_proxy_addr w.int_proxy_addr-lt,
          addr_again cfg.ext_proxy_addr w.ext_proxy_addr-lt,
        )
        refl

  -- The route that three lines name, but for the smoothing, which is not printed.
  abbrev pub routing_read : List Line → Option Routing
  routing_read
        (routing_title loop
          ∷ routing_there i_src i_prx e_prx e_dst
          ∷ routing_back e_src e_prx' i_prx' i_dst
          ∷ []) =
      some (record {
        i_src_addr = htonl (atohl i_src.ip);
        i_src_port = htons i_src.port;
        i_dst_addr = htonl (atohl i_dst.ip);
        i_dst_port = htons i_dst.port;
        i_prx_addr = htonl (atohl i_prx.ip);
        i_prx_port = htons i_prx.port;
        e_prx_addr = htonl (atohl e_prx.ip);
        e_prx_port = htons e_prx.port;
        e_src_addr = htonl (atohl e_src.ip);
        e_src_port = htons e_src.port;
        e_dst_addr = htonl (atohl e_dst.ip);
        e_dst_port = htons e_dst.port;
        loopback = if loop then 1 else 0;
        smoothing = 0;
      })
  routing_read _ = none

  -- The lines that are printed about a route in range name its addresses and ports without loss, and
  -- whether it is a loopback.
  pub routing_read-debug_print_routing :
      (rt : Routing)
      → IsRouting rt
      → routing_read (debug_print_routing rt)
        ≡ some (record rt { loopback = if is_set rt.loopback then 1 else 0; smoothing = 0 })
  unfolding debug_print_routing
  routing_read-debug_print_routing rt w =
      rw
        (
          addr_again rt.i_src_addr w.i_src_addr-lt,
          port_again rt.i_src_port w.i_src_port-lt,
          addr_again rt.i_dst_addr w.i_dst_addr-lt,
          port_again rt.i_dst_port w.i_dst_port-lt,
          addr_again rt.i_prx_addr w.i_prx_addr-lt,
          port_again rt.i_prx_port w.i_prx_port-lt,
          addr_again rt.e_prx_addr w.e_prx_addr-lt,
          port_again rt.e_prx_port w.e_prx_port-lt,
          addr_again rt.e_src_addr w.e_src_addr-lt,
          port_again rt.e_src_port w.e_src_port-lt,
          addr_again rt.e_dst_addr w.e_dst_addr-lt,
          port_again rt.e_dst_port w.e_dst_port-lt,
        )
        refl

module _ ⦃o : ByteOrder⦄ ⦃k : Kernel⦄ where
  -- The checksums that are filled in for a device to finish are those that a DEBUG build looks for in
  -- a packet that arrives in that state: it prints nothing about them.
  pub verify_checksums_partial-calculate :
      (ip : IpHeader) (udp : UdpHeader)
      → let ip' = calculate_ip_checksum ip in
        verify_checksums_partial ip' (calculate_pseudo_header_udp_checksum ip' udp) ≡ []
  unfolding verify_checksums_partial calculate_ip_checksum calculate_pseudo_header_udp_checksum
  verify_checksums_partial-calculate ip udp = ground (arith, k.ip_fast_csum-filled ip)

  incoming_debug :
      (skb : SkBuff) (ip : IpHeader) (udp : UdpHeader)
      → (handle_incoming_checksums_debug skb ip udp).0 ≡ (handle_incoming_checksums skb ip udp).0
  unfolding handle_incoming_checksums_debug handle_incoming_checksums
  incoming_debug skb ip udp = ground arith

  -- What the lines before a hook function leave of the buffer in a DEBUG build is what a build without
  -- DEBUG leaves.
  pub receive_debug_lem :
      (name : String) (hook : ℕ) (skb : SkBuff) (info : BufferInfo) (ip : IpHeader)
      (udp : UdpHeader)
      → (receive_debug name hook skb info ip udp).0 ≡ (receive hook skb ip udp).0
  unfolding receive_debug receive
  receive_debug_lem name hook skb info ip udp = ground (arith, incoming_debug skb ip udp)

  outgoing_left :
      (skb : SkBuff) (info : BufferInfo) (ip : IpHeader) (udp : UdpHeader)
      → let ip' = calculate_ip_checksum ip in
        let sent = (handle_outgoing_checksums_debug skb info ip udp).0 in
        ((sent.ip_summed ≡ skb.ip_summed)
          × (skb.ip_summed ≢ checksum_partial)
          × (sent.body ≡ skb.body)
          × (sent.ip ≡ some ip')
          × (sent.udp ≡ some (calculate_udp_checksum_full ip' udp skb.body)))
        ⊎ ((sent.ip_summed ≡ checksum_partial)
            × (sent.ip ≡ some ip')
            × (sent.udp ≡ some (calculate_pseudo_header_udp_checksum ip' udp)))
  unfolding handle_outgoing_checksums_debug calculate_ip_checksum_debug calculate_ip_checksum
      calculate_pseudo_header_udp_checksum_debug calculate_pseudo_header_udp_checksum
      calculate_udp_checksum_full_debug calculate_udp_checksum_full print_outgoing
  outgoing_left skb info ip udp = ground arith

  -- A packet whose UDP length is at least the header's, and whose buffer is not marked
  -- CHECKSUM_COMPLETE, and that handle_outgoing_checksums of a DEBUG build has let go, with the sum
  -- left to the device or not: where it arrives in that state, as on the way from the machine to
  -- itself, handle_incoming_checksums of a DEBUG build prints no alert about it.
  pub incoming-outgoing :
      (skb : SkBuff) (info : BufferInfo) (ip : IpHeader) (udp : UdpHeader)
      → 8 ≤ ntohs udp.len
      → skb.ip_summed ≢ checksum_complete
      → let sent = (handle_outgoing_checksums_debug skb info ip udp).0 in
        (ip' : IpHeader) × (udp' : UdpHeader) × (sent.ip ≡ some ip')
        × (sent.udp ≡ some udp')
        × ((handle_incoming_checksums_debug sent ip' udp').1 ≡ [])
  unfolding handle_incoming_checksums_debug
  incoming-outgoing skb info ip udp long other = elim (outgoing_left skb info ip udp) [
    | inl (summed, not_partial, body, hip, hudp) ↦ (
      calculate_ip_checksum ip,
      calculate_udp_checksum_full (calculate_ip_checksum ip) udp skb.body,
      hip,
      hudp,
      ground (arith, (verify-calculate ip udp skb.body long).0),
    )
    | inr (summed, hip, hudp) ↦ (
      calculate_ip_checksum ip,
      calculate_pseudo_header_udp_checksum (calculate_ip_checksum ip) udp,
      hip,
      hudp,
      ground (arith, verify_checksums_partial-calculate ip udp),
    )
  ]
