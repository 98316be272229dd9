-- ===== src/Spec/Refinement.antt =====
-- The module in operation and its specification: what is seen of the configuration and the table, and
-- the routes that packets find.
use lbm_rtp_proxy.Base.{
  ℕ, ◌<◌, Bool, true, false, List, [], ◌∷◌, ◌++◌, take, if◌then◌else◌, ◌≡◌, ◌⊎◌, inl, inr, refl, ap,
  ◌∙◌, arith,
}
use lbm_rtp_proxy.Command.{Globals}
use lbm_rtp_proxy.Command.Formats.{Scanner}
use lbm_rtp_proxy.Config.{config_init, config_clr}
use lbm_rtp_proxy.Kernel.{Kernel}
use lbm_rtp_proxy.Net.ByteOrder.{ByteOrder}
use lbm_rtp_proxy.Procfs.{rtp_proxy_write}
use lbm_rtp_proxy.Procfs.Writing.{rtp_proxy_write_lem}
use lbm_rtp_proxy.Rewrite.Smoothing.{set_sn_function, after}
use lbm_rtp_proxy.Spec.{
  Request, ends, view, View-ext, perform, fresh, replay, route, View, Side, is_filled, is_looped,
  internal_side, sbc_side, routing_of,
}
use lbm_rtp_proxy.Spec.Requests.{request, handle_command-perform}
use lbm_rtp_proxy.Startup.{ModuleState, rtp_proxy_init}
use lbm_rtp_proxy.Startup.Laws.{init-globals}
use lbm_rtp_proxy.System.{Step, write, packet, Reachable, loaded, stepped}
use lbm_rtp_proxy.System.Hooks.{RowStep}
use lbm_rtp_proxy.System.Invariant.{generic_hook_func-RowStep, Reachable-IsGlobals}
use lbm_rtp_proxy.Table.{Table, TableEntry, table_size, table_init, table_get, is_entry_valid}
use lbm_rtp_proxy.Table.Laws.{IsTable, table_clr_row}
use lbm_rtp_proxy.Table.Routing.{get_routing, init_routing, join_routing}

pub ends-after : (e : TableEntry) (sn : ℕ) → ends (after e sn) ≡ ends e
unfolding set_sn_function
ends-after e sn = ground arith

view-RowStep :
    (g : Globals) (t' : Table) → RowStep g.table t' → view (record g { table = t' }) ≡ view g
view-RowStep g t' (inl same) = rw (← same)
view-RowStep g t' (inr (i, sn, lt, q)) =
    rw (← q) (View-ext _ _ refl (λ j. ground (arith, ends-after (g.table i) sn)))

module _ ⦃o : ByteOrder⦄ ⦃k : Kernel⦄ ⦃s : Scanner⦄ where
  -- What a step asks for: a write that gets its memory and its bytes, the command that is in the
  -- first 255 of them; a packet, nothing.
  abbrev pub asked : (g g' : Globals) → Step g g' → List Request
  asked g g' (write true true user_buffer random_sn _ r) = request (take 255 user_buffer) ∷ []
  asked g g' (write true false user_buffer random_sn _ r) = []
  asked g g' (write false copied user_buffer random_sn _ r) = []
  asked g g' (packet mh skb _ r h bytes e) = []

  -- All that was asked for since the loading, the newest first.
  abbrev pub requests : (g : Globals) → Reachable g → List Request
  requests g (loaded nf_max_hooks success st) = []
  requests g (stepped before _ r step) = asked before g step ++ requests before r

  write_fails :
      (alloc copied : Bool) (user_buffer : List ℕ) (random_sn : ℕ) (g : Globals)
      → (alloc ≡ false) ⊎ (copied ≡ false)
      → (rtp_proxy_write alloc copied user_buffer random_sn g).0 ≡ g
  write_fails alloc copied user_buffer random_sn g h =
      elim (rtp_proxy_write_lem alloc copied user_buffer random_sn g) [
        | inl (same, _, _) ↦ same
        | inr (got, had, _, _, _) ↦ absurd (ground arith)
      ]

  Step-perform :
      (g g' : Globals) (step : Step g g') (qs : List Request)
      → view g ≡ replay qs
      → view g' ≡ replay (asked g g' step ++ qs)
  Step-perform g g' (write true true user_buffer random_sn _ r) qs e =
      elim (rtp_proxy_write_lem true true user_buffer random_sn g) [
        | inl (same, _, failed) ↦ absurd (ground arith)
        | inr (_, _, handled, _, _) ↦
            ap view handled
            ∙ handle_command-perform (take 255 user_buffer) random_sn g
            ∙ ap (perform (request (take 255 user_buffer))) e
      ]
  Step-perform g g' (write true false user_buffer random_sn _ r) qs e =
      ap view (write_fails true false user_buffer random_sn g (inr refl)) ∙ e
  Step-perform g g' (write false copied user_buffer random_sn _ r) qs e =
      ap view (write_fails false copied user_buffer random_sn g (inl refl)) ∙ e
  Step-perform g g' (packet mh skb _ r h bytes q) qs e =
      view-RowStep g r.table
        (generic_hook_func-RowStep mh skb mh.hooknum g.config g.table r h bytes q)
      ∙ e

  init-fresh :
      (nf_max_hooks : ℕ) (success : Bool) (st : ModuleState)
      → view (rtp_proxy_init nf_max_hooks success st).globals ≡ fresh
  unfolding config_init config_clr table_init
  init-fresh nf_max_hooks success st =
      rw (init-globals nf_max_hooks success st)
        (View-ext _ _ refl (λ i. ground (arith, table_clr_row i st.globals.table)))

  -- Whatever packets arrive in between, what is seen of the configuration and the table is what the
  -- commands that were written since the loading make, one after another.
  pub Reachable-replay : (g : Globals) (r : Reachable g) → view g ≡ replay (requests g r)
  Reachable-replay g (loaded nf_max_hooks success st) = init-fresh nf_max_hooks success st
  Reachable-replay g (stepped before _ r step) =
      Step-perform before g step (requests before r) (Reachable-replay before r)

valid-filled : (e : TableEntry) → is_entry_valid e ≡ is_filled (ends e)
unfolding is_entry_valid
valid-filled e = ground arith

-- The route of a row before it is joined to another.
init_routing-sides :
    (i : ℕ) (t : Table) (v : View)
    → v.rows i ≡ ends (t i)
    → init_routing i v.config (t i)
      ≡ routing_of
          (internal_side i v)
          (sbc_side i v)
          (if is_looped i v then 1 else 0)
          v.config.smoothing
unfolding init_routing
init_routing-sides i t v row = rw row (ground arith)

routing_of-if :
    (b : Bool) (int ext ext' : Side) (loops smooth : ℕ)
    → (if b then routing_of int ext loops smooth else routing_of int ext' loops smooth)
      ≡ routing_of int (if b then ext else ext') loops smooth
routing_of-if true int ext ext' loops smooth = refl
routing_of-if false int ext ext' loops smooth = refl

join_routing-sides :
    (i p : ℕ) (t : Table) (v : View) (loops smooth : ℕ)
    → v.rows p ≡ ends (t p)
    → join_routing p v.config t (routing_of (internal_side i v) (sbc_side i v) loops smooth)
      ≡ routing_of
          (internal_side i v)
          (if is_filled (ends (t p)) then internal_side p v else sbc_side i v)
          loops
          smooth
unfolding join_routing table_get
join_routing-sides i p t v loops smooth row =
    rw (init_routing-sides p t v row, valid-filled (t p))
      (routing_of-if (is_filled (ends (t p))) (internal_side i v) (internal_side p v) (sbc_side i v)
        loops smooth)

get_routing-route :
    (i : ℕ) (t : Table) (v : View)
    → v.rows i ≡ ends (t i)
    → v.rows (t i).sbc_port ≡ ends (t (t i).sbc_port)
    → (get_routing i v.config t).1 ≡ route i v
unfolding get_routing table_get
get_routing-route i t v row next =
    rw
      (
        init_routing-sides i t v row,
        join_routing-sides i (t i).sbc_port t v (if is_looped i v then 1 else 0) v.config.smoothing
            next,
        valid-filled (t i),
      )
      (ground arith)

get_routing-view :
    (i : ℕ) (g : Globals)
    → i < table_size
    → IsTable g.table
    → (get_routing i g.config g.table).1 ≡ route i (view g)
get_routing-view i g lt w =
    get_routing-route i g.table (view g) (ground arith) (ground (arith, (w.rows i lt).sbc_port-lt))

-- Whatever packets arrive in between, the route that a packet to a port finds is the one that
-- `route` of Spec.antt makes of the rows and the configuration that the commands since the loading
-- set, in terms of their addresses and ports alone; the sequence numbers have no part in it.
pub Reachable-route :
    ⦃o : ByteOrder⦄ ⦃k : Kernel⦄ ⦃s : Scanner⦄ (g : Globals) (r : Reachable g) (i : ℕ)
    → i < table_size
    → (get_routing i g.config g.table).1 ≡ route i (replay (requests g r))
Reachable-route g r i lt =
    get_routing-view i g lt (Reachable-IsGlobals g r).table ∙ ap (route i) (Reachable-replay g r)
