-- ===== src/Spec.antt =====
-- What the module promises to whoever writes its proc file (src/command.c): a configuration, and three
-- addresses with ports for each proxy port, that only commands change. The sequence number state of
-- the rows is forgotten.
pub mod Requests
pub mod Refinement
use lbm_rtp_proxy.Base.{
  ℕ, Bool, not, ◌&&◌, Option, none, some, List, [], ◌∷◌, ◌≡◌, ap₂, fun_ext, ltb, ◌==◌,
  if◌then◌else◌,
}
use lbm_rtp_proxy.Command.{Globals}
use lbm_rtp_proxy.Config.{Config, empty_config}
use lbm_rtp_proxy.Table.{TableEntry, empty_entry, table_size}
use lbm_rtp_proxy.Table.Routing.{Routing}

pub record Ends : Type 0 where
  pub sender_addr : ℕ
  pub sender_port : ℕ
  pub receiver_addr : ℕ
  pub receiver_port : ℕ
  pub sbc_addr : ℕ
  pub sbc_port : ℕ

abbrev pub no_ends : Ends
no_ends = record {
  sender_addr = 0;
  sender_port = 0;
  receiver_addr = 0;
  receiver_port = 0;
  sbc_addr = 0;
  sbc_port = 0;
}

abbrev pub ends : TableEntry → Ends
ends e = record {
  sender_addr = e.sender_addr;
  sender_port = e.sender_port;
  receiver_addr = e.receiver_addr;
  receiver_port = e.receiver_port;
  sbc_addr = e.sbc_addr;
  sbc_port = e.sbc_port;
}

pub record View : Type 0 where
  pub config : Config
  pub rows : ℕ → Ends

abbrev pub view : Globals → View
view g = record {
  config = g.config;
  rows = λ i. if ltb i table_size then ends (g.table i) else no_ends;
}

pub View-ext : (v w : View) → v.config ≡ w.config → ((i : ℕ) → v.rows i ≡ w.rows i) → v ≡ w
View-ext v w c r =
    ap₂ (λ (c : Config) (f : ℕ → Ends). let x : View = record { config = c; rows = f } in x) c
      (fun_ext r)

pub data Request : Type 0 where
  add : (index : ℕ) → Ends → Request
  delete : (index : ℕ) → Request
  configure : (int_proxy_addr ext_proxy_addr : ℕ) → Request
  smoothing loopback : ℕ → Request
  flush nothing : Request

abbrev pub perform : Request → View → View
perform (add index e) v = record v { rows = λ i. if i == index then e else v.rows i }
perform (delete index) v = record v { rows = λ i. if i == index then no_ends else v.rows i }
perform (configure int ext) v = record v {
  config = record v.config { int_proxy_addr = int; ext_proxy_addr = ext };
}
perform (smoothing x) v = record v { config = record v.config { smoothing = x } }
perform (loopback x) v = record v { config = record v.config { loopback = x } }
perform flush v = record {
  config = record empty_config { smoothing = 1; loopback = 1 };
  rows = λ i. no_ends;
}
perform nothing v = v

abbrev pub fresh : View
fresh = record { config = record empty_config { smoothing = 1; loopback = 1 }; rows = λ i. no_ends }

-- The newest request comes first.
abbrev pub replay : List Request → View
replay [] = fresh
replay (q ∷ qs) = perform q (replay qs)

abbrev pub entry_of : Ends → TableEntry
entry_of e = record empty_entry {
  sender_addr = e.sender_addr;
  sender_port = e.sender_port;
  receiver_addr = e.receiver_addr;
  receiver_port = e.receiver_port;
  sbc_addr = e.sbc_addr;
  sbc_port = e.sbc_port;
}

-- A row makes a route if its receiver and its SBC have an address and a port each.
abbrev pub is_filled : Ends → Bool
is_filled e =
    not (e.receiver_addr == 0)
    && not (e.receiver_port == 0)
    && not (e.sbc_addr == 0)
    && not (e.sbc_port == 0)

-- The receiver of a port is the port itself.
abbrev pub is_looped : ℕ → View → Bool
is_looped i v =
    not (v.config.loopback == 0)
    && (v.rows i).receiver_addr == v.config.int_proxy_addr
    && (v.rows i).receiver_port == i

-- The SBC of a port is a port of the proxy, with a route of its own.
abbrev pub is_joined : ℕ → View → Bool
is_joined i v =
    not (v.config.loopback == 0)
    && (v.rows i).sbc_addr == v.config.ext_proxy_addr
    && is_filled (v.rows (v.rows i).sbc_port)

-- Where packets of a side come from, where they go to, and the address and port of the proxy.
pub record Side : Type 0 where
  pub src_addr : ℕ
  pub src_port : ℕ
  pub dst_addr : ℕ
  pub dst_port : ℕ
  pub prx_addr : ℕ
  pub prx_port : ℕ

abbrev pub sbc_side : ℕ → View → Side
sbc_side i v = record {
  src_addr = (v.rows i).sbc_addr;
  src_port = (v.rows i).sbc_port;
  dst_addr = (v.rows i).sbc_addr;
  dst_port = (v.rows i).sbc_port;
  prx_addr = v.config.ext_proxy_addr;
  prx_port = i;
}

abbrev pub client_side : ℕ → View → Side
client_side i v = record {
  src_addr = (v.rows i).sender_addr;
  src_port = (v.rows i).sender_port;
  dst_addr = (v.rows i).receiver_addr;
  dst_port = (v.rows i).receiver_port;
  prx_addr = v.config.int_proxy_addr;
  prx_port = i;
}

abbrev pub internal_side : ℕ → View → Side
internal_side i v = if is_looped i v then sbc_side i v else client_side i v

-- The external side is the one of the SBC, or the internal side of the port that the SBC's address
-- leads back to.
abbrev pub external_side : ℕ → View → Side
external_side i v = if is_joined i v then internal_side (v.rows i).sbc_port v else sbc_side i v

abbrev pub routing_of : (internal external : Side) → (loops smooth : ℕ) → Routing
routing_of int ext loops smooth = record {
  i_src_addr = int.src_addr;
  i_src_port = int.src_port;
  i_dst_addr = int.dst_addr;
  i_dst_port = int.dst_port;
  i_prx_addr = int.prx_addr;
  i_prx_port = int.prx_port;
  e_prx_addr = ext.prx_addr;
  e_prx_port = ext.prx_port;
  e_src_addr = ext.src_addr;
  e_src_port = ext.src_port;
  e_dst_addr = ext.dst_addr;
  e_dst_port = ext.dst_port;
  loopback = loops;
  smoothing = smooth;
}

-- The route of a proxy port, from its row, the row of the port it may lead to, and the configuration.
abbrev pub route : ℕ → View → Option Routing
route i v =
    if is_filled (v.rows i)
    then some (
        routing_of (internal_side i v) (external_side i v) (if is_looped i v then 1 else 0)
          v.config.smoothing)
    else none
