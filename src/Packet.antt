-- ===== src/Packet.antt =====
-- What the module sees of the kernel's packets: the headers that it reads and writes, the socket
-- buffer that holds them, and the verdicts of netfilter hooks.
use lbm_rtp_proxy.Base.{◌>>=◌, ℕ, Bool, Option, some, List}

-- `struct iphdr`. The words that the module neither reads nor writes are kept as one list.
pub record IpHeader : Type 0 where
  pub ihl : ℕ
  pub protocol : ℕ
  pub check : ℕ
  pub saddr : ℕ
  pub daddr : ℕ
  pub others : List ℕ

-- `struct udphdr`
pub record UdpHeader : Type 0 where
  pub source : ℕ
  pub dest : ℕ
  pub len : ℕ
  pub check : ℕ

-- `skb->ip_summed`, two bits.
pub data Summed : Type 0 where
  checksum_none checksum_unnecessary checksum_complete checksum_partial : Summed

-- `struct sk_buff`: the header pointers (`none` is NULL), the bytes behind the UDP header, the
-- offload fields, the device (with whether it can checksum UDP over IPv4) and the route (with
-- whether it is local). A UDP header is complete: a packet that ends within it is not expressed.
pub record SkBuff : Type 0 where
  pub ip : Option IpHeader
  pub udp : Option UdpHeader
  pub body : List ℕ
  pub ip_summed : Summed
  pub csum_start : ℕ
  pub csum_offset : ℕ
  pub transport_offset : ℕ
  pub dev : Option Bool
  pub route : Option Bool

-- The headers are written in place.
abbrev pub store_headers : IpHeader → UdpHeader → SkBuff → SkBuff
store_headers ip udp skb = record skb { ip = some ip; udp = some udp }

pub data Verdict : Type 0 where
  nf_accept nf_drop : Verdict
  nf_drop_err : ℕ → Verdict

-- Where a packet comes from and goes to.
pub record Flow : Type 0 where
  pub src_addr : ℕ
  pub src_port : ℕ
  pub dst_addr : ℕ
  pub dst_port : ℕ

abbrev pub flow_of : IpHeader → UdpHeader → Flow
flow_of ip udp = record {
  src_addr = ip.saddr;
  src_port = udp.source;
  dst_addr = ip.daddr;
  dst_port = udp.dest;
}

abbrev pub flow : Option SkBuff → Option Flow
flow skb = skb >>= λ s. s.ip >>= λ ip. s.udp >>= λ udp. some (flow_of ip udp)
