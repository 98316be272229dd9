-- ===== src/Examples/Calls.antt =====
-- Calls through the proxy, and the ways of their packets through both hooks.
use lbm_rtp_proxy.Base.{
  ℕ, ◌+◌, ◌-◌, ◌≤◌, take-append_le, ap, length, ◌*◌, ◌^◌, ◌≡◌, ◌≢◌, refl, true, none, some, List,
  [], ◌∷◌, inl, ◌==◌, if◌then◌else◌, arith,
}
use lbm_rtp_proxy.Checksum.{ipproto_udp}
use lbm_rtp_proxy.Config.{Config}
use lbm_rtp_proxy.Examples.Machine.{byte_words, swap16, little_endian, inet}
use lbm_rtp_proxy.Mangle.{generic_hook_func}
use lbm_rtp_proxy.Mangle.Calls.{forward-plain}
use lbm_rtp_proxy.Mangle.Forward.{observed, forward}
use lbm_rtp_proxy.Mangle.Loopback.{forward-looped}
use lbm_rtp_proxy.Mangle.Pair.{forward-pair}
use lbm_rtp_proxy.Packet.{IpHeader, UdpHeader, SkBuff, checksum_none, nf_accept}
use lbm_rtp_proxy.Rewrite.Hooks.{pre_routing_hook, nf_ip_pre_routing}
use lbm_rtp_proxy.System.Inside.{with_behind, SumsInside, generic_hook_func-inside}
use lbm_rtp_proxy.Table.{Table, TableEntry, empty_entry, is_entry_valid}
use lbm_rtp_proxy.Table.Routing.Laws.{IsPair}

-- An address in network order, as this machine reads it.
abbrev pub addr : ℕ → ℕ → ℕ → ℕ → ℕ
addr a b c d = d * 2 ^ 24 + c * 2 ^ 16 + b * 2 ^ 8 + a

abbrev pub proxy : Config
proxy = record {
  int_proxy_addr = addr 10 0 0 1;
  ext_proxy_addr = addr 192 0 2 1;
  smoothing = 1;
  loopback = 1;
}

-- A row with an open sender, a receiver at 10.0.0.7 and the SBC at 198.51.100.9.
abbrev pub row : TableEntry
row = record empty_entry {
  receiver_addr = addr 10 0 0 7;
  receiver_port = swap16 4000;
  sbc_addr = addr 198 51 100 9;
  sbc_port = swap16 6000;
}

abbrev pub calls : Table
calls = λ i. if i == swap16 5004 then row else empty_entry

-- A packet with an RTP header to the proxy port.
abbrev pub ip : IpHeader
ip = record {
  ihl = 5;
  protocol = ipproto_udp;
  check = 0;
  saddr = addr 10 0 0 7;
  daddr = addr 10 0 0 1;
  others = [];
}

abbrev pub udp : UdpHeader
udp = record { source = swap16 4000; dest = swap16 5004; len = swap16 20; check = 0 }

abbrev pub rtp : List ℕ
rtp = 128 ∷ 0 ∷ 0 ∷ 7 ∷ 0 ∷ 0 ∷ 0 ∷ 0 ∷ 1 ∷ 2 ∷ 3 ∷ 4 ∷ []

abbrev pub packet : SkBuff
packet = record {
  ip = some ip;
  udp = some udp;
  body = rtp;
  ip_summed = checksum_none;
  csum_start = 0;
  csum_offset = 0;
  transport_offset = 20;
  dev = none;
  route = none;
}

pub row_valid : is_entry_valid row ≡ true
unfolding is_entry_valid
row_valid = refl

forward-plain_example :
    observed (forward packet proxy calls)
    ≡ some (
      nf_accept,
      some (record {
        src_addr = addr 192 0 2 1;
        src_port = swap16 5004;
        dst_addr = addr 198 51 100 9;
        dst_port = swap16 6000;
      }),
    )
forward-plain_example =
    forward-plain packet ip udp proxy calls (λ s. refl)
      (record { has_ip = refl; has_udp = refl; protocol = refl }) (omega arith) row_valid
      (ground arith) (omega arith) (omega arith) (omega arith)

-- The SBC of each row is the proxy port of the other.
abbrev pub row_a : TableEntry
row_a = record row { sbc_addr = addr 192 0 2 1; sbc_port = swap16 5006 }

abbrev row_b : TableEntry
row_b = record empty_entry {
  receiver_addr = addr 10 0 0 8;
  receiver_port = swap16 4002;
  sbc_addr = addr 192 0 2 1;
  sbc_port = swap16 5004;
}

abbrev pub meeting : Table
meeting = λ i. if i == swap16 5004 then row_a else if i == swap16 5006 then row_b else empty_entry

pub a_valid : is_entry_valid row_a ≡ true
unfolding is_entry_valid
a_valid = refl

b_valid : is_entry_valid row_b ≡ true
unfolding is_entry_valid
b_valid = refl

meeting-IsPair : IsPair (swap16 5004) (swap16 5006) proxy meeting
meeting-IsPair = record {
  loopback = omega arith;
  a_valid = a_valid;
  b_valid = b_valid;
  a_to_b = (refl, refl);
  b_to_a = (refl, refl);
  a_leaves = inl (omega arith);
  b_leaves = inl (omega arith);
}

forward-pair_example :
    observed (forward packet proxy meeting)
    ≡ some (
      nf_accept,
      some (record {
        src_addr = addr 10 0 0 1;
        src_port = swap16 5006;
        dst_addr = addr 10 0 0 8;
        dst_port = swap16 4002;
      }),
    )
forward-pair_example =
    forward-pair packet ip udp proxy meeting (swap16 5006) (λ s. refl)
      (record { has_ip = refl; has_udp = refl; protocol = refl }) (omega arith) meeting-IsPair
      (omega arith) (omega arith) (omega arith) (omega arith)

-- The receiver is the proxy port itself.
abbrev looped_row : TableEntry
looped_row = record row { receiver_addr = addr 10 0 0 1; receiver_port = swap16 5004 }

looped_valid : is_entry_valid looped_row ≡ true
unfolding is_entry_valid
looped_valid = refl

forward-looped_example :
    observed (forward packet proxy (λ i. looped_row))
    ≡ some (
      nf_accept,
      some (record {
        src_addr = addr 192 0 2 1;
        src_port = swap16 5004;
        dst_addr = addr 198 51 100 9;
        dst_port = swap16 6000;
      }),
    )
forward-looped_example =
    forward-looped packet ip udp proxy (λ i. looped_row) (λ s. refl)
      (record { has_ip = refl; has_udp = refl; protocol = refl }) (omega arith)
      (record {
        loopback = omega arith;
        valid = looped_valid;
        returns = (refl, refl);
        leaves = omega arith;
      })
      (omega arith) (omega arith)

honest : (u : UdpHeader) → packet.udp ≡ some u → little_endian.ntohs u.len ≤ 8 + length packet.body
honest u e = ground arith

-- Two bytes that lie behind the packet.
inet-SumsInside : SumsInside inet (1 ∷ 2 ∷ [])
inet-SumsInside u body n c fits =
    ap (λ (bytes : List ℕ). c + u.source + u.dest + u.len + u.check + byte_words bytes)
      (take-append_le (n - 8) body (1 ∷ 2 ∷ []) (omega arith))

generic_hook_func-inside_example :
    (generic_hook_func (some pre_routing_hook) (some packet) nf_ip_pre_routing proxy calls ≢ none)
    × (generic_hook_func ⦃k = with_behind (1 ∷ 2 ∷ []) inet⦄
          (some pre_routing_hook)
          (some packet)
          nf_ip_pre_routing
          proxy
          calls
        ≡ generic_hook_func (some pre_routing_hook) (some packet) nf_ip_pre_routing proxy calls)
generic_hook_func-inside_example =
    generic_hook_func-inside inet (1 ∷ 2 ∷ []) inet-SumsInside pre_routing_hook packet
      nf_ip_pre_routing proxy calls (inl refl) honest
