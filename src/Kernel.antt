-- ===== src/Kernel.antt =====
-- What the module calls in the kernel, as far as packets go: a parameter, with documented behaviour
-- as laws. Byte order has an interface of its own (Net/ByteOrder).
use lbm_rtp_proxy.Base.{ℕ, ◌-◌, ◌^◌, ◌≤◌, ◌<◌, ◌≡◌, ◌≢◌, ◌⊎◌, Bool, Option, List}
use lbm_rtp_proxy.Packet.{IpHeader, UdpHeader, SkBuff}

pub record Kernel : Type 0 where
  -- Whether the buffer is, or could be made, one piece; its contents stay.
  pub skb_linearize : SkBuff → Bool
  -- The new route of a packet whose address has changed, and the error, if there is one.
  pub ip_route_me_harder : SkBuff → SkBuff × Option ℕ
  -- The Internet checksum of a header with its options.
  pub ip_fast_csum : IpHeader → ℕ
  -- The sum over that many bytes of the UDP header and what follows it, added to a sum. What it
  -- yields where that is more than there is depends on what lies behind in memory and is left open.
  pub csum_partial : UdpHeader → List ℕ → ℕ → ℕ → ℕ
  -- The folded and complemented sum of the pseudo header (addresses, length, protocol) and a sum.
  pub csum_tcpudp_magic : ℕ → ℕ → ℕ → ℕ → ℕ → ℕ
  pub ip_fast_csum-lt : (h : IpHeader) → ip_fast_csum h < 2 ^ 16
  pub csum_tcpudp_magic-lt :
      (saddr daddr len proto sum : ℕ) → csum_tcpudp_magic saddr daddr len proto sum < 2 ^ 16
  -- RFC 1071: a checksum that is computed with its field cleared and then filled in makes the sum
  -- come out as zero. For UDP a zero is sent as all ones, the other form of zero.
  pub ip_fast_csum-filled :
      (h : IpHeader) → ip_fast_csum (record h { check = ip_fast_csum (record h { check = 0 }) }) ≡ 0
  pub csum_tcpudp_magic-filled :
      (saddr daddr len proto c : ℕ) (u : UdpHeader) (body : List ℕ)
      → 8 ≤ len
      → (c
            ≡ csum_tcpudp_magic saddr daddr len proto
                (csum_partial (record u { check = 0 }) body len 0))
          × (c ≢ 0)
        ⊎ (csum_tcpudp_magic saddr daddr len proto
              (csum_partial (record u { check = 0 }) body len 0)
            ≡ 0)
          × (c ≡ 2 ^ 16 - 1)
      → csum_tcpudp_magic saddr daddr len proto (csum_partial (record u { check = c }) body len 0)
        ≡ 0

module _ ⦃k : Kernel⦄ where
  abbrev pub skb_linearize : SkBuff → Bool
  skb_linearize = k.skb_linearize

  abbrev pub ip_route_me_harder : SkBuff → SkBuff × Option ℕ
  ip_route_me_harder = k.ip_route_me_harder

  abbrev pub ip_fast_csum : IpHeader → ℕ
  ip_fast_csum = k.ip_fast_csum

  abbrev pub csum_partial : UdpHeader → List ℕ → ℕ → ℕ → ℕ
  csum_partial = k.csum_partial

  abbrev pub csum_tcpudp_magic : ℕ → ℕ → ℕ → ℕ → ℕ → ℕ
  csum_tcpudp_magic = k.csum_tcpudp_magic
