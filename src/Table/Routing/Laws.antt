-- ===== src/Table/Routing/Laws.antt =====
-- What get_routing of src/table.c yields, by the kind of the entry.
use lbm_rtp_proxy.Base.{ℕ, ◌≡◌, ◌≢◌, ◌⊎◌, ◌↔◌, arith, true, none, some}
use lbm_rtp_proxy.Config.{Config}
use lbm_rtp_proxy.Table.{Table, TableEntry, empty_entry, is_entry_valid}
use lbm_rtp_proxy.Table.Routing.{Routing, get_routing}

-- A route exists exactly for a row with a receiver and an SBC, addresses and ports.
pub get_routing-ne-none_iff :
    (index : ℕ) (cfg : Config) (t : Table)
    → ((get_routing index cfg t).1 ≢ none) ↔ (
        ((t index).receiver_addr ≢ 0)
        × ((t index).receiver_port ≢ 0)
        × ((t index).sbc_addr ≢ 0)
        × ((t index).sbc_port ≢ 0))
unfolding get_routing is_entry_valid
get_routing-ne-none_iff index cfg t = ground arith

pub get_routing-empty :
    (index : ℕ) (cfg : Config) (t : Table)
    → t index ≡ empty_entry
    → (get_routing index cfg t).1 ≡ none
unfolding get_routing is_entry_valid
get_routing-empty index cfg t e = ground arith

-- The route of an entry that leads from a sender through the proxy's two addresses to the SBC, and
-- from there to the receiver.
abbrev pub plain_routing : ℕ → Config → TableEntry → Routing
plain_routing index cfg e = record {
  i_src_addr = e.sender_addr;
  i_src_port = e.sender_port;
  i_dst_addr = e.receiver_addr;
  i_dst_port = e.receiver_port;
  i_prx_addr = cfg.int_proxy_addr;
  i_prx_port = index;
  e_prx_addr = cfg.ext_proxy_addr;
  e_prx_port = index;
  e_src_addr = e.sbc_addr;
  e_src_port = e.sbc_port;
  e_dst_addr = e.sbc_addr;
  e_dst_port = e.sbc_port;
  loopback = 0;
  smoothing = cfg.smoothing;
}

-- The entry neither returns to its own proxy port nor leads to a port of the proxy, or loopback
-- routing is off.
abbrev pub IsPlain : ℕ → Config → TableEntry → Type 0
IsPlain index cfg e =
    (cfg.loopback ≡ 0)
    ⊎ (((e.receiver_addr ≢ cfg.int_proxy_addr) ⊎ (e.receiver_port ≢ index))
        × (e.sbc_addr ≢ cfg.ext_proxy_addr))

-- A valid plain entry has the plain route.
pub get_routing-plain :
    (index : ℕ) (cfg : Config) (t : Table)
    → is_entry_valid (t index) ≡ true
    → IsPlain index cfg (t index)
    → get_routing index cfg t ≡ (t index, some (plain_routing index cfg (t index)))
unfolding get_routing is_entry_valid
get_routing-plain index cfg t v p = ground arith

-- Two calls that meet at the proxy: with loopback on, two valid entries whose SBC is each the
-- other's proxy port, neither returning to itself.
pub record IsPair (a b : ℕ) (cfg : Config) (t : Table) : Type 0 where
  pub loopback : cfg.loopback ≢ 0
  pub a_valid : is_entry_valid (t a) ≡ true
  pub b_valid : is_entry_valid (t b) ≡ true
  pub a_to_b : ((t a).sbc_addr ≡ cfg.ext_proxy_addr) × ((t a).sbc_port ≡ b)
  pub b_to_a : ((t b).sbc_addr ≡ cfg.ext_proxy_addr) × ((t b).sbc_port ≡ a)
  pub a_leaves : ((t a).receiver_addr ≢ cfg.int_proxy_addr) ⊎ ((t a).receiver_port ≢ a)
  pub b_leaves : ((t b).receiver_addr ≢ cfg.int_proxy_addr) ⊎ ((t b).receiver_port ≢ b)

-- The joined route of an entry: its own internal side, and the other's internal side as the
-- external one.
abbrev pub joined_routing : ℕ → ℕ → Config → TableEntry → TableEntry → Routing
joined_routing a b cfg ea eb = record (plain_routing a cfg ea) {
  e_prx_addr = cfg.int_proxy_addr;
  e_prx_port = b;
  e_src_addr = eb.sender_addr;
  e_src_port = eb.sender_port;
  e_dst_addr = eb.receiver_addr;
  e_dst_port = eb.receiver_port;
}

-- Of two entries that lead to one another, with loopback on, the route of the one goes from its
-- sender to the other's receiver, with the internal side of the other as its external one.
pub get_routing-joined :
    (a b : ℕ) (cfg : Config) (t : Table)
    → IsPair a b cfg t
    → get_routing a cfg t ≡ (t a, some (joined_routing a b cfg (t a) (t b)))
unfolding get_routing is_entry_valid
get_routing-joined a b cfg t p = ground arith

-- An entry whose receiver is its own proxy port, where loopback is on and the SBC is not the proxy.
pub record IsLooped (index : ℕ) (cfg : Config) (e : TableEntry) : Type 0 where
  pub loopback : cfg.loopback ≢ 0
  pub valid : is_entry_valid e ≡ true
  pub returns : (e.receiver_addr ≡ cfg.int_proxy_addr) × (e.receiver_port ≡ index)
  pub leaves : e.sbc_addr ≢ cfg.ext_proxy_addr

-- The route of such an entry: the SBC is on both sides.
abbrev pub looped_routing : ℕ → Config → TableEntry → Routing
looped_routing index cfg e = record (plain_routing index cfg e) {
  i_src_addr = e.sbc_addr;
  i_src_port = e.sbc_port;
  i_dst_addr = e.sbc_addr;
  i_dst_port = e.sbc_port;
  i_prx_addr = cfg.ext_proxy_addr;
  loopback = 1;
}

pub get_routing-looped :
    (index : ℕ) (cfg : Config) (t : Table)
    → IsLooped index cfg (t index)
    → get_routing index cfg t ≡ (t index, some (looped_routing index cfg (t index)))
unfolding get_routing is_entry_valid
get_routing-looped index cfg t l = ground arith
