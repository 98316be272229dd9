-- ===== src/Mangle/Loopback.antt =====
-- A row that returns to its own proxy port (init_routing of src/table.c), at both hooks.
use lbm_rtp_proxy.Base.{ℕ, length, ◌+◌, ◌≤◌, true, some, ◌≡◌, ◌≢◌, inr, arith}
use lbm_rtp_proxy.Config.{Config}
use lbm_rtp_proxy.Kernel.{Kernel, skb_linearize}
use lbm_rtp_proxy.Mangle.Forward.{observed, forward, forward-out}
use lbm_rtp_proxy.Mangle.Laws.{IsUdp}
use lbm_rtp_proxy.Net.ByteOrder.{ByteOrder, ntohs}
use lbm_rtp_proxy.Packet.{IpHeader, UdpHeader, SkBuff, nf_accept}
use lbm_rtp_proxy.Rewrite.Matching.{loopback_route, match_routes}
use lbm_rtp_proxy.Table.{Table, TableEntry, is_entry_valid}
use lbm_rtp_proxy.Table.Routing.Laws.{IsLooped, looped_routing, get_routing-looped}

match_routes-looped :
    (index : ℕ) (cfg : Config) (e : TableEntry) (ip : IpHeader) (udp : UdpHeader)
    → match_routes ip udp (looped_routing index cfg e) ≡ loopback_route
unfolding match_routes
match_routes-looped index cfg e ip udp = ground arith

sbc_given : (e : TableEntry) → is_entry_valid e ≡ true → (e.sbc_addr ≢ 0) × (e.sbc_port ≢ 0)
unfolding is_entry_valid
sbc_given e v = ground arith

-- Where a row's receiver is its own proxy port, loopback is on and the SBC is not the proxy, a UDP
-- packet to the port goes through PRE_ROUTING and POST_ROUTING to the SBC, from the external proxy
-- address and the proxy port, whatever its source. The port and the external address are not zero,
-- the buffer can be made one piece, and the length field of the packet says no more than what is
-- there.
pub forward-looped :
    ⦃o : ByteOrder⦄ ⦃k : Kernel⦄ (skb : SkBuff) (ip : IpHeader) (udp : UdpHeader) (cfg : Config)
    (t : Table)
    → ((s : SkBuff) → skb_linearize s ≡ true)
    → IsUdp skb ip udp
    → ntohs udp.len ≤ 8 + length skb.body
    → IsLooped udp.dest cfg (t udp.dest)
    → udp.dest ≢ 0
    → cfg.ext_proxy_addr ≢ 0
    → observed (forward skb cfg t)
      ≡ some (
        nf_accept,
        some (record {
          src_addr = cfg.ext_proxy_addr;
          src_port = udp.dest;
          dst_addr = (t udp.dest).sbc_addr;
          dst_port = (t udp.dest).sbc_port;
        }),
      )
forward-looped skb ip udp cfg t linear u fits looped port ext =
    let ends = sbc_given (t udp.dest) looped.valid in
    forward-out skb ip udp cfg t (t udp.dest) (looped_routing udp.dest cfg (t udp.dest)) linear u
      (get_routing-looped udp.dest cfg t looped)
      (inr (match_routes-looped udp.dest cfg (t udp.dest) ip udp)) ext port ends.0 ends.1 fits
