-- ===== src/Debug.antt =====
-- What the module prints in a DEBUG build: src/debug.c, config_print of src/config.c and
-- debug_print_routing of src/table.c.
pub mod Incoming
pub mod Hooks
pub mod Outgoing
pub mod Builds
pub mod Equivalence
pub mod Commands
pub mod Laws
use Prim.Native.String.{String}
use lbm_rtp_proxy.Base.{ℕ, Bool, Option, none, some, List, [], ◌∷◌, is_set}
use lbm_rtp_proxy.Config.{Config}
use lbm_rtp_proxy.Net.Address.{Ip, htoal}
use lbm_rtp_proxy.Net.ByteOrder.{ByteOrder, ntohl, ntohs}
use lbm_rtp_proxy.Packet.{
  IpHeader, UdpHeader, SkBuff, Summed, checksum_none, checksum_unnecessary, checksum_complete,
  checksum_partial,
}
use lbm_rtp_proxy.Procfs.{Endpoint, endpoint}
use lbm_rtp_proxy.Table.Routing.{Routing}

-- What is read for printing alone: fields of the IP header, what is printed for the name of the
-- device, the destination that skb_dst yields, and the offsets of the buffer's pointers from its head.
-- The name is an array inside the device, so that `skb->dev->name` reads nothing: without a device too
-- it is an address that the kernel's `%s` is given.
pub record BufferInfo : Type 0 where
  pub id : ℕ
  pub ttl : ℕ
  pub dev_name : String
  pub dst : ℕ
  pub data_offset : ℕ
  pub tail_offset : ℕ
  pub end_offset : ℕ
  pub network_offset : ℕ

-- A line that is printed, by its format and its arguments. A route is four endpoints from left to right.
pub data Line : Type 0 where
  tuple_line : String → (src dst : Endpoint) → Line
  packet_line : (id ttl ip_csum udp_csum : ℕ) → (dev : String) → (dst : ℕ) → Line
  buffer_line :
      (data_offset tail_offset end_offset network_offset transport_offset : ℕ)
      → (ip_summed : String) → (csum_start csum_offset : ℕ) → Line
  config_printed : (int_proxy_addr ext_proxy_addr : Ip) → (smoothing loopback : ℕ) → Line
  routing_title : (loopback : Bool) → Line
  routing_there routing_back : (from to from' to' : Endpoint) → Line

-- The field has two bits, so that the `default` of the `switch` is not reached.
unfoldable pub ip_summed_to_string : Summed → String
ip_summed_to_string checksum_none = "CHECKSUM_NONE"
ip_summed_to_string checksum_unnecessary = "CHECKSUM_UNNECESSARY"
ip_summed_to_string checksum_complete = "CHECKSUM_COMPLETE"
ip_summed_to_string checksum_partial = "CHECKSUM_PARTIAL"

module _ ⦃o : ByteOrder⦄ where
  unfoldable pub debug_print_tuple : String → ℕ → ℕ → ℕ → ℕ → Line
  debug_print_tuple msg src_addr src_port dst_addr dst_port =
      tuple_line msg (endpoint src_addr src_port) (endpoint dst_addr dst_port)

  unfoldable pub debug_print_skb : String → SkBuff → BufferInfo → IpHeader → UdpHeader → List Line
  unfolding debug_print_tuple ip_summed_to_string
  debug_print_skb msg skb info ip udp =
      let tuple = debug_print_tuple msg ip.saddr udp.source ip.daddr udp.dest in
      let summed = ip_summed_to_string skb.ip_summed in
      tuple
      ∷ packet_line (ntohs info.id) info.ttl (ntohs ip.check) (ntohs udp.check) info.dev_name
          info.dst
      ∷ buffer_line info.data_offset info.tail_offset info.end_offset info.network_offset
          skb.transport_offset summed skb.csum_start skb.csum_offset
      ∷ []

  unfoldable pub config_print : Config → Line
  config_print cfg =
      config_printed (htoal (ntohl cfg.int_proxy_addr)) (htoal (ntohl cfg.ext_proxy_addr))
        cfg.smoothing cfg.loopback

  unfoldable pub debug_print_routing : Routing → List Line
  debug_print_routing rt =
      let i_src = endpoint rt.i_src_addr rt.i_src_port in
      let i_dst = endpoint rt.i_dst_addr rt.i_dst_port in
      let i_prx = endpoint rt.i_prx_addr rt.i_prx_port in
      let e_prx = endpoint rt.e_prx_addr rt.e_prx_port in
      let e_src = endpoint rt.e_src_addr rt.e_src_port in
      let e_dst = endpoint rt.e_dst_addr rt.e_dst_port in
      routing_title (is_set rt.loopback)
      ∷ routing_there i_src i_prx e_prx e_dst
      ∷ routing_back e_src e_prx i_prx i_dst
      ∷ []
