-- ===== src/Examples/Machine.antt =====
-- The machine of the examples.
use lbm_rtp_proxy.Base.{
  ℕ, Bool, ◌++◌, ◌+◌, ◌-◌, ◌*◌, ◌/◌, ◌%◌, ◌^◌, ◌≤◌, ◌<◌, ◌≡◌, ◌≢◌, ◌⊎◌, ◌&&◌, refl, true, none,
  Option, some, List, [], ◌∷◌, ap, ◌∙◌, inl, inr, take, leb, ◌==◌, if◌then◌else◌, arith,
}
use lbm_rtp_proxy.Command.Formats.{Scanner, Directive, space, literal, hhu, hu, Fits}
use lbm_rtp_proxy.Kernel.{Kernel}
use lbm_rtp_proxy.Net.ByteOrder.{ByteOrder}
use lbm_rtp_proxy.Packet.{IpHeader, UdpHeader}

abbrev pub swap16 : ℕ → ℕ
swap16 x = x % 256 * 256 + x / 256 % 256

abbrev swap32 : ℕ → ℕ
swap32 x = x % 256 * 2 ^ 24 + x / 2 ^ 8 % 256 * 2 ^ 16 + x / 2 ^ 16 % 256 * 2 ^ 8 + x / 2 ^ 24 % 256

abbrev swap16_twice : (x : ℕ) → x < 2 ^ 16 → swap16 (swap16 x) ≡ x
swap16_twice x h = omega arith

abbrev swap16-lt : (x : ℕ) → x < 2 ^ 16 → swap16 x < 2 ^ 16
swap16-lt x h = omega arith

abbrev swap32_twice : (x : ℕ) → x < 2 ^ 32 → swap32 (swap32 x) ≡ x
swap32_twice x h = omega arith

abbrev swap32-lt : (x : ℕ) → x < 2 ^ 32 → swap32 x < 2 ^ 32
swap32-lt x h = omega arith

abbrev swap_loaded : (a b : ℕ) → a < 256 → b < 256 → swap16 (b * 256 + a) ≡ a * 256 + b
swap_loaded a b ha hb = omega arith

abbrev loaded-lt : (a b : ℕ) → a < 256 → b < 256 → b * 256 + a < 2 ^ 16
loaded-lt a b ha hb = omega arith

abbrev low_swapped : (x : ℕ) → x < 2 ^ 16 → swap16 x % 256 ≡ x / 256
low_swapped x h = omega arith

abbrev high_swapped : (x : ℕ) → x < 2 ^ 16 → swap16 x / 256 % 256 ≡ x % 256
high_swapped x h = omega arith

instance abbrev pub little_endian : ByteOrder
little_endian = record {
  htons = swap16;
  ntohs = swap16;
  htonl = swap32;
  ntohl = swap32;
  load16 = λ a b. b * 256 + a;
  load32 = λ a b c d. d * 2 ^ 24 + c * 2 ^ 16 + b * 2 ^ 8 + a;
  byte0 = λ x. x % 256;
  byte1 = λ x. x / 256 % 256;
  ntohs-htons = swap16_twice;
  htons-ntohs = swap16_twice;
  htons-lt = swap16-lt;
  ntohs-lt = swap16-lt;
  htons-zero = refl;
  ntohl-htonl = swap32_twice;
  htonl-ntohl = swap32_twice;
  htonl-lt = swap32-lt;
  ntohl-lt = swap32-lt;
  htonl-zero = refl;
  ntohs-load16 = swap_loaded;
  load16-lt = loaded-lt;
  byte0-htons = low_swapped;
  byte1-htons = high_swapped;
}

-- The folded one's complement sum, and its complement, which is the checksum.
abbrev fold16 : ℕ → ℕ
fold16 s = if s == 0 then 0 else (s - 1) % 65535 + 1

abbrev inet_sum : ℕ → ℕ
inet_sum s = 65535 - fold16 s

abbrev words32 : ℕ → ℕ
words32 x = x / 65536 + x % 65536

abbrev pub byte_words : List ℕ → ℕ
byte_words [] = 0
byte_words (a ∷ []) = a
byte_words (a ∷ b ∷ rest) = b * 256 + a + byte_words rest

abbrev word_sum : List ℕ → ℕ
word_sum [] = 0
word_sum (w ∷ ws) = w + word_sum ws

abbrev ip_sum : IpHeader → ℕ
ip_sum h =
    inet_sum
      (h.ihl + h.protocol * 256 + h.check + words32 h.saddr + words32 h.daddr + word_sum h.others)

abbrev udp_sum : UdpHeader → List ℕ → ℕ → ℕ → ℕ
udp_sum u body len csum =
    csum + u.source + u.dest + u.len + u.check + byte_words (take (len - 8) body)

abbrev pseudo_sum : ℕ → ℕ → ℕ → ℕ → ℕ → ℕ
pseudo_sum saddr daddr len proto sum =
    inet_sum (words32 saddr + words32 daddr + len + proto * 256 + sum)

abbrev filled : (s c : ℕ) → c ≡ inet_sum s → inet_sum (s + c) ≡ 0
filled s c e = ground arith

abbrev filled_ones : (s : ℕ) → inet_sum s ≡ 0 → inet_sum (s + 65535) ≡ 0
filled_ones s e = ground arith

abbrev sum_of_header :
    (i p c s d w : ℕ) → i + p * 256 + c + s + d + w ≡ i + p * 256 + 0 + s + d + w + c
sum_of_header i p c s d w = omega arith

abbrev sum_of_datagram :
    (s d n p a b e c w : ℕ)
    → s + d + n + p * 256 + (0 + a + b + e + c + w)
      ≡ s + d + n + p * 256 + (0 + a + b + e + 0 + w) + c
sum_of_datagram s d n p a b e c w = omega arith

abbrev inet_sum-lt : (s : ℕ) → inet_sum s < 2 ^ 16
inet_sum-lt s = omega arith

abbrev ip_sum-lt : (h : IpHeader) → ip_sum h < 2 ^ 16
ip_sum-lt h = inet_sum-lt _

abbrev pseudo_sum-lt :
    (saddr daddr len proto sum : ℕ) → pseudo_sum saddr daddr len proto sum < 2 ^ 16
pseudo_sum-lt saddr daddr len proto sum = inet_sum-lt _

abbrev ip_sum-filled :
    (h : IpHeader) → ip_sum (record h { check = ip_sum (record h { check = 0 }) }) ≡ 0
ip_sum-filled h =
    ap inet_sum (
      sum_of_header h.ihl h.protocol (ip_sum (record h { check = 0 })) (words32 h.saddr)
        (words32 h.daddr) (word_sum h.others))
    ∙ filled _ _ refl

abbrev pseudo_sum-filled :
    (saddr daddr len proto c : ℕ) (u : UdpHeader) (body : List ℕ)
    → 8 ≤ len
    → (c ≡ pseudo_sum saddr daddr len proto (udp_sum (record u { check = 0 }) body len 0)) × (c ≢ 0)
      ⊎ (pseudo_sum saddr daddr len proto (udp_sum (record u { check = 0 }) body len 0) ≡ 0)
        × (c ≡ 2 ^ 16 - 1)
    → pseudo_sum saddr daddr len proto (udp_sum (record u { check = c }) body len 0) ≡ 0
pseudo_sum-filled saddr daddr len proto c u body fits (inl (e, ne)) =
    ap inet_sum (
      sum_of_datagram (words32 saddr) (words32 daddr) len proto u.source u.dest u.len c
        (byte_words (take (len - 8) body)))
    ∙ filled _ _ e
pseudo_sum-filled saddr daddr len proto c u body fits (inr (e, ones)) =
    ap inet_sum (
      sum_of_datagram (words32 saddr) (words32 daddr) len proto u.source u.dest u.len c
        (byte_words (take (len - 8) body)))
    ∙ ap
        (λ c. inet_sum (
          words32 saddr
          + words32 daddr
          + len
          + proto * 256
          + (0 + u.source + u.dest + u.len + 0 + byte_words (take (len - 8) body))
          + c))
        ones
    ∙ filled_ones _ e

instance abbrev pub inet : Kernel
inet = record {
  skb_linearize = λ skb. true;
  ip_route_me_harder = λ skb. (skb, none);
  ip_fast_csum = ip_sum;
  csum_partial = udp_sum;
  csum_tcpudp_magic = pseudo_sum;
  ip_fast_csum-lt = ip_sum-lt;
  csum_tcpudp_magic-lt = pseudo_sum-lt;
  ip_fast_csum-filled = ip_sum-filled;
  csum_tcpudp_magic-filled = pseudo_sum-filled;
}

-- The numbers in a text, in decimal.
abbrev is_digit : ℕ → Bool
is_digit c = leb b'0' c && leb c b'9'

abbrev digits : Option ℕ → ℕ → Option ℕ
digits none c = if is_digit c then some (c - b'0') else none
digits (some n) c = if is_digit c then some (n * 10 + c - b'0') else none

abbrev ended : Option ℕ → ℕ → List ℕ
ended none c = []
ended (some n) c = if is_digit c then [] else n ∷ []

abbrev numbers : Option ℕ → List ℕ → List ℕ
numbers none [] = []
numbers (some n) [] = n ∷ []
numbers n (c ∷ text) = ended n c ++ numbers (digits n c) text

-- The numbers as the conversions of the format store them.
abbrev converted : List Directive → List ℕ → List ℕ
converted [] vs = []
converted (space ∷ fmt) vs = converted fmt vs
converted (literal c ∷ fmt) vs = converted fmt vs
converted (hhu ∷ fmt) [] = []
converted (hhu ∷ fmt) (v ∷ vs) = v % 2 ^ 8 ∷ converted fmt vs
converted (hu ∷ fmt) [] = []
converted (hu ∷ fmt) (v ∷ vs) = v % 2 ^ 16 ∷ converted fmt vs

abbrev space-Fits : (fmt : List Directive) (vs : List ℕ) → Fits fmt vs → Fits (space ∷ fmt) vs
space-Fits fmt [] h = tt
space-Fits fmt (v ∷ vs) h = h

abbrev literal-Fits :
    (c : ℕ) (fmt : List Directive) (vs : List ℕ) → Fits fmt vs → Fits (literal c ∷ fmt) vs
literal-Fits c fmt [] h = tt
literal-Fits c fmt (v ∷ vs) h = h

abbrev byte-lt : (v : ℕ) → v % 2 ^ 8 < 2 ^ 8
byte-lt v = omega arith

abbrev half-lt : (v : ℕ) → v % 2 ^ 16 < 2 ^ 16
half-lt v = omega arith

abbrev converted-Fits : (fmt : List Directive) (vs : List ℕ) → Fits fmt (converted fmt vs)
converted-Fits [] vs = tt
converted-Fits (space ∷ fmt) vs = space-Fits fmt _ (converted-Fits fmt vs)
converted-Fits (literal c ∷ fmt) vs = literal-Fits c fmt _ (converted-Fits fmt vs)
converted-Fits (hhu ∷ fmt) [] = tt
converted-Fits (hhu ∷ fmt) (v ∷ vs) = (byte-lt v, converted-Fits fmt vs)
converted-Fits (hu ∷ fmt) [] = tt
converted-Fits (hu ∷ fmt) (v ∷ vs) = (half-lt v, converted-Fits fmt vs)

instance abbrev pub decimal_scanner : Scanner
decimal_scanner = record {
  sscanf = λ fmt text. converted fmt (numbers none text);
  sscanf-Fits = λ fmt text. converted-Fits fmt (numbers none text);
}
