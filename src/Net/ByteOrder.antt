-- ===== src/Net/ByteOrder.antt =====
-- The kernel's byte order functions, and the way that the machine lays a 16-bit value out in
-- memory. They are no code of the repository: a parameter, with the documented behaviour as laws.
-- A `__be16` or `__be32` is the number that the machine reads from the field.
use lbm_rtp_proxy.Base.{ℕ, ◌+◌, ◌*◌, ◌/◌, ◌%◌, ◌^◌, ◌<◌, ◌≡◌}

pub record ByteOrder : Type 0 where
  pub htons : ℕ → ℕ
  pub ntohs : ℕ → ℕ
  pub htonl : ℕ → ℕ
  pub ntohl : ℕ → ℕ
  -- The value that the machine reads from two, or four, bytes in the order of their addresses.
  pub load16 : ℕ → ℕ → ℕ
  pub load32 : ℕ → ℕ → ℕ → ℕ → ℕ
  -- The two bytes that the machine writes for a 16-bit value.
  pub byte0 : ℕ → ℕ
  pub byte1 : ℕ → ℕ
  pub ntohs-htons : (x : ℕ) → x < 2 ^ 16 → ntohs (htons x) ≡ x
  pub htons-ntohs : (x : ℕ) → x < 2 ^ 16 → htons (ntohs x) ≡ x
  pub htons-lt : (x : ℕ) → x < 2 ^ 16 → htons x < 2 ^ 16
  pub ntohs-lt : (x : ℕ) → x < 2 ^ 16 → ntohs x < 2 ^ 16
  pub htons-zero : htons 0 ≡ 0
  pub ntohl-htonl : (x : ℕ) → x < 2 ^ 32 → ntohl (htonl x) ≡ x
  pub htonl-ntohl : (x : ℕ) → x < 2 ^ 32 → htonl (ntohl x) ≡ x
  pub htonl-lt : (x : ℕ) → x < 2 ^ 32 → htonl x < 2 ^ 32
  pub ntohl-lt : (x : ℕ) → x < 2 ^ 32 → ntohl x < 2 ^ 32
  pub htonl-zero : htonl 0 ≡ 0
  -- Network order: the first byte is the most significant one.
  pub ntohs-load16 : (a b : ℕ) → a < 256 → b < 256 → ntohs (load16 a b) ≡ a * 256 + b
  pub load16-lt : (a b : ℕ) → a < 256 → b < 256 → load16 a b < 2 ^ 16
  pub byte0-htons : (x : ℕ) → x < 2 ^ 16 → byte0 (htons x) ≡ x / 256
  pub byte1-htons : (x : ℕ) → x < 2 ^ 16 → byte1 (htons x) ≡ x % 256

-- The functions and the laws by their names, at the byte order at hand.
module _ ⦃o : ByteOrder⦄ where
  abbrev pub htons : ℕ → ℕ
  htons = o.htons

  abbrev pub ntohs : ℕ → ℕ
  ntohs = o.ntohs

  abbrev pub htonl : ℕ → ℕ
  htonl = o.htonl

  abbrev pub ntohl : ℕ → ℕ
  ntohl = o.ntohl

  abbrev pub load16 : ℕ → ℕ → ℕ
  load16 = o.load16

  abbrev pub load32 : ℕ → ℕ → ℕ → ℕ → ℕ
  load32 = o.load32

  abbrev pub byte0 : ℕ → ℕ
  byte0 = o.byte0

  abbrev pub byte1 : ℕ → ℕ
  byte1 = o.byte1
