-- ===== src/Net/Address.antt =====
-- Dotted addresses: the macros `atohl` and `htoal` of src/module.h.
use lbm_rtp_proxy.Base.{ℕ, ◌+◌, ◌*◌, ◌/◌, ◌%◌, ◌^◌, ◌<◌, bit_or, ◌≡◌, arith}
use lbm_rtp_proxy.Base.Bits.{bit_or-shifted}

-- `uint8_t ip[4]`
pub record Ip : Type 0 where
  pub a : ℕ
  pub b : ℕ
  pub c : ℕ
  pub d : ℕ

abbrev pub IsIp : Ip → Type 0
IsIp ip = (ip.a < 256) × (ip.b < 256) × (ip.c < 256) × (ip.d < 256)

unfoldable pub atohl : Ip → ℕ
atohl ip = bit_or (bit_or (bit_or (ip.a * 2 ^ 24) (ip.b * 2 ^ 16)) (ip.c * 2 ^ 8)) ip.d

-- `(ip >> k) & 0xFF`
unfoldable pub htoal : ℕ → Ip
htoal ip = record {
  a = ip / 2 ^ 24 % 2 ^ 8;
  b = ip / 2 ^ 16 % 2 ^ 8;
  c = ip / 2 ^ 8 % 2 ^ 8;
  d = ip % 2 ^ 8;
}

atohl_sum : (ip : Ip) → IsIp ip → atohl ip ≡ ip.a * 2 ^ 24 + ip.b * 2 ^ 16 + ip.c * 2 ^ 8 + ip.d
unfolding atohl
atohl_sum ip h = ground (
  arith,
  bit_or-shifted 24 ip.a (ip.b * 2 ^ 16),
  bit_or-shifted 16 (ip.a * 2 ^ 8 + ip.b) (ip.c * 2 ^ 8),
  bit_or-shifted 8 (ip.a * 2 ^ 16 + ip.b * 2 ^ 8 + ip.c) ip.d,
)

pub atohl-lt : (ip : Ip) → IsIp ip → atohl ip < 2 ^ 32
atohl-lt ip h = omega (arith, atohl_sum ip h)

-- Four bytes packed into an address and taken apart again are the same four bytes.
pub htoal-atohl : (ip : Ip) → IsIp ip → htoal (atohl ip) ≡ ip
unfolding htoal
htoal-atohl ip h = ground (arith, atohl_sum ip h)

pub htoal-IsIp : (x : ℕ) → IsIp (htoal x)
unfolding htoal
htoal-IsIp x = omega arith

-- Every 32-bit address is packed from its four bytes.
pub atohl-htoal : (x : ℕ) → x < 2 ^ 32 → atohl (htoal x) ≡ x
unfolding htoal
atohl-htoal x h = omega (arith, atohl_sum (htoal x) (htoal-IsIp x))
