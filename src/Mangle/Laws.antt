-- ===== src/Mangle/Laws.antt =====
-- The generic hook function in its parts: which packets it leaves alone, and how it calls a hook
-- function for the others.
use lbm_rtp_proxy.Base.{ℕ, true, none, some, ◌≡◌, ◌≢◌, arith}
use lbm_rtp_proxy.Checksum.{ipproto_udp}
use lbm_rtp_proxy.Config.{Config, config_get}
use lbm_rtp_proxy.Kernel.{Kernel, skb_linearize}
use lbm_rtp_proxy.Net.ByteOrder.{ByteOrder}
use lbm_rtp_proxy.Packet.{IpHeader, UdpHeader, SkBuff}
use lbm_rtp_proxy.Rewrite.Hooks.{MangleHook, Outcome, HookFn}
use lbm_rtp_proxy.Table.{Table, TableEntry}
use lbm_rtp_proxy.Table.Routing.{Routing, get_routing}
use lbm_rtp_proxy.Mangle.{untouched, receive, generic_hook_func, mangle, conclude}

-- A buffer with the headers of a UDP packet over IPv4.
pub record IsUdp (skb : SkBuff) (ip : IpHeader) (udp : UdpHeader) : Type 0 where
  pub has_ip : skb.ip ≡ some ip
  pub has_udp : skb.udp ≡ some udp
  pub protocol : ip.protocol ≡ ipproto_udp

module _ ⦃o : ByteOrder⦄ ⦃k : Kernel⦄ where
  pub generic_hook_func-mangle :
      (mh : MangleHook) (fn : HookFn) (skb : SkBuff) (ip : IpHeader) (udp : UdpHeader) (hook : ℕ)
      (cfg : Config) (t : Table)
      → mh.name ≢ none
      → mh.fn ≡ some fn
      → skb_linearize skb ≡ true
      → IsUdp skb ip udp
      → generic_hook_func (some mh) (some skb) hook cfg t ≡ mangle fn hook skb ip udp cfg t
  unfolding generic_hook_func
  generic_hook_func-mangle mh fn skb ip udp hook cfg t named call linear u = ground arith

  -- A packet with a UDP header whose destination port has no valid row passes every hook as it
  -- came.
  pub generic_hook_func-unrouted :
      (mh : MangleHook) (skb : SkBuff) (udp : UdpHeader) (hook : ℕ) (cfg : Config) (t : Table)
      → skb.udp ≡ some udp
      → (get_routing udp.dest cfg t).1 ≡ none
      → generic_hook_func (some mh) (some skb) hook cfg t ≡ some (untouched (some skb) t)
  unfolding generic_hook_func mangle config_get
  generic_hook_func-unrouted mh skb udp hook cfg t h r = ground arith

  -- A packet with a route goes through the hook function, and what that leaves is concluded.
  pub mangle-run :
      (fn : HookFn) (skb : SkBuff) (ip : IpHeader) (udp : UdpHeader) (hook : ℕ) (cfg : Config)
      (t : Table) (ent : TableEntry) (rt : Routing) (out : Outcome)
      → get_routing udp.dest cfg t ≡ (ent, some rt)
      → fn ip udp (receive hook skb ip udp).0.body ent rt t ≡ some out
      → mangle fn hook skb ip udp cfg t
        ≡ some (conclude hook (receive hook skb ip udp).0 (receive hook skb ip udp).1 out)
  unfolding mangle config_get
  mangle-run fn skb ip udp hook cfg t ent rt out found step = ground arith
