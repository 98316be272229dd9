-- ===== src/Threads/Hooks/Refinement.antt =====
-- Calls of hooks, access by access (src/mangle.c, src/table.c), among the runs of threads, where a
-- packet is no more than the note of a number.
use lbm_rtp_proxy.Base.{
  ℕ, List, [], ◌∷◌, ◌++◌, ◌==◌, ◌≡◌, inl, inr, refl, sym, ap, subst, ◌∙◌, arith, Bool-cases,
}
use lbm_rtp_proxy.Command.{Globals}
use lbm_rtp_proxy.Kernel.{Kernel}
use lbm_rtp_proxy.Net.ByteOrder.{ByteOrder}
use lbm_rtp_proxy.Rewrite.Smoothing.{sent, after}
use lbm_rtp_proxy.Table.{table_atomically, set_row}
use lbm_rtp_proxy.Threads
use lbm_rtp_proxy.Threads.{
  Access, change, defaults, entry, no_entry, noted, Pc, idle, Move, add, delete, read_config,
  write_config, clear_config, clear_row, clear_end, arrive, smoothing_row, take_note, System, pick,
  put, put-all,
}
use lbm_rtp_proxy.Threads.Hooks.{
  Local, writing, calling, IsCommand, next, Machine, Step, command, arrival, call, leave, entered,
  Reach, here, later,
}
use lbm_rtp_proxy.Threads.Hooks.Calls.{IsCall, next-IsCall, next-config, next-RowStep}

-- A thread at a call is idle as a writer.
abbrev pub writer : Local → Pc
writer (writing p) = p
writer (calling c) = idle

-- The accesses of writers among those of all.
unfoldable pub writes : List Access → List Access
writes [] = []
writes (noted index sn out ∷ log) = writes log
writes (change c ∷ log) = change c ∷ writes log
writes (defaults ∷ log) = defaults ∷ writes log
writes (entry index e ∷ log) = entry index e ∷ writes log
writes (no_entry index ∷ log) = no_entry index ∷ writes log

command-writes :
    {g g' : Globals} {p p' : Pc} {cs : List Access} (log : List Access) (mv : Move g p g' p' cs)
    → IsCommand mv
    → writes (cs ++ log) ≡ cs ++ writes log
unfolding writes
command-writes log (add index random_sn ent _ _ _) h = refl
command-writes log (delete index) h = refl
command-writes log (read_config c _) h = refl
command-writes log write_config h = refl
command-writes log clear_config h = refl
command-writes log clear_row h = refl
command-writes log clear_end h = refl
command-writes log (arrive index sn lt) h = absurd h
command-writes log take_note h = absurd h

-- A state that differs from another at most in the table.
globals : (g g' : Globals) → g'.config ≡ g.config → g.table ≡ g'.table → g ≡ g'
globals g g' config table =
    let config' = sym config in λ i. record { config = config' i; table = table i }

note-Move :
    (i index sn : ℕ) (g g' : Globals) (p : Pc) (pc : ℕ → Pc)
    → g'.config ≡ g.config
    → set_row index (after (g.table index) sn) g.table ≡ g'.table
    → p ≡ smoothing_row index sn
    → Move g (put i p pc i) g' idle (noted index sn (sent (g.table index) sn) ∷ [])
unfolding table_atomically
note-Move i index sn g g' p pc config table at =
    let own : put i p pc i ≡ smoothing_row index sn = ground arith in
    let changed : Globals = record g { table = set_row index (after (g.table index) sn) g.table } in
    rw (own, ← globals changed g' config table) (take_note {index = index} {sn = sn})

module _ ⦃o : ByteOrder⦄ ⦃k : Kernel⦄ where
  abbrev pub IsLocal : Local → Type 0
  IsLocal (writing p) = Unit
  IsLocal (calling c) = IsCall c

  -- The threads are in the same state, but for calls.
  record Matches (d : Machine) (s : System) : Type 0 where
    mem : s.mem ≡ d.mem
    pcs : (i : ℕ) → s.pc i ≡ writer (d.pc i)
    log : writes s.done ≡ d.done

  Step-IsLocal :
      {d e : Machine} → Step d e → ((j : ℕ) → IsLocal (d.pc j)) → (j : ℕ) → IsLocal (e.pc j)
  Step-IsLocal {d} (command i {p} {p'} at mv h) w = put-all IsLocal i (writing p') d.pc tt w
  Step-IsLocal {d} (arrival i mh skb at h packet) w =
      put-all IsLocal i (calling (entered mh skb)) d.pc (h, packet) w
  Step-IsLocal {d} (call i {c} at under) w =
      let own : IsCall c = subst IsLocal at (w i) in
      put-all IsLocal i (calling (next d.mem c).1) d.pc (next-IsCall d.mem c own) w
  Step-IsLocal {d} (leave i at) w = put-all IsLocal i (writing idle) d.pc tt w

  -- In every reachable state the calls are at hooks of the module, with packets in range.
  pub Reach-IsLocal : (g : Globals) (d : Machine) → Reach g d → (j : ℕ) → IsLocal (d.pc j)
  Reach-IsLocal g _ here j = tt
  Reach-IsLocal g _ (later {d} r st) j = Step-IsLocal st (Reach-IsLocal g d r) j

  -- A thread that begins a call, goes on with it or leaves it stays idle as a writer.
  stays_idle :
      (i : ℕ) (l : Local) (pc : ℕ → Local) (q : ℕ → Pc)
      → writer (pc i) ≡ idle
      → writer l ≡ idle
      → ((j : ℕ) → q j ≡ writer (pc j))
      → (j : ℕ) → q j ≡ writer (put i l pc j)
  stays_idle i l pc q before after same j = elim (Bool-cases (j == i)) [
    | inl own ↦ let at : j ≡ i = ground arith in rw (own, after, ← before, ← at) (same j)
    | inr other ↦ rw other (same j)
  ]

  match :
      {g : Globals} {d e : Machine} {s : System}
      → Threads.Reach g s
      → Matches d s
      → ((i : ℕ) → IsLocal (d.pc i))
      → Step d e
      → (s' : System) × Threads.Reach g s' × Matches e s'
  unfolding writes table_atomically
  match {d} {s} r m w (command i {p} {p'} {g = g'} {cs} at mv h) =
      let here' : s.pc i ≡ p = m.pcs i ∙ ap writer at in
      let own : Move s.mem (s.pc i) g' p' cs = rw (m.mem, here') mv in
      (
        _,
        Threads.later r (pick i own),
        record {
          mem = refl;
          pcs = λ j. elim (Bool-cases (j == i)) [
            | inl same ↦ rw same refl
            | inr other ↦ rw other (m.pcs j)
          ];
          log = command-writes s.done mv h ∙ ap (λ (l : List Access). cs ++ l) m.log;
        },
      )
  match {d} {s} r m w (arrival i mh skb at _ _) = (
    s,
    r,
    record {
      mem = m.mem;
      pcs = stays_idle i (calling (entered mh skb)) d.pc s.pc (ap writer at) refl m.pcs;
      log = m.log;
    },
  )
  match {d} {s} r m w (leave i at) = (
    s,
    r,
    record {
      mem = m.mem;
      pcs = stays_idle i (writing idle) d.pc s.pc (ap writer at) refl m.pcs;
      log = m.log;
    },
  )
  match {d} {s} r m w (call i {c} at under) =
      let own : IsCall c = subst IsLocal at (w i) in
      let pcs = stays_idle i (calling (next d.mem c).1) d.pc s.pc (ap writer at) refl m.pcs in
      let rest : s.pc i ≡ idle = m.pcs i ∙ ap writer at in
      elim (next-RowStep d.mem c own) [
        | inl same ↦ (
          s,
          r,
          record {
            mem = m.mem ∙ globals d.mem _ (next-config d.mem c) same;
            pcs = pcs;
            log = m.log;
          },
        )
        | inr (index, sn, lt, note) ↦
            let first : Move s.mem (s.pc i) d.mem (smoothing_row index sn) [] =
              rw (rest, m.mem) (arrive index sn lt) in
            let second =
              note-Move i index sn d.mem (next d.mem c).0 (smoothing_row index sn) s.pc
                (next-config d.mem c) note refl in
            (
              _,
              Threads.later (Threads.later r (pick i first)) (pick i second),
              record {
                mem = refl;
                pcs = λ j. elim (Bool-cases (j == i)) [
                  | inl own ↦ rw own refl
                  | inr other ↦ rw other (m.pcs j)
                ];
                log = m.log;
              },
            )
      ]

  Reach-Matches :
      (g : Globals) (d : Machine) → Reach g d → (s : System) × Threads.Reach g s × Matches d s
  unfolding writes
  Reach-Matches g _ here = (_, Threads.here, record { mem = refl; pcs = λ i. refl; log = refl })
  Reach-Matches g _ (later {d} r st) =
      let (s, reach, same) = Reach-Matches g d r in match reach same (Reach-IsLocal g d r) st

  -- However the accesses of writers and of hook calls interleave, each call with the configuration and
  -- the rows as it finds them one by one, the threads of Threads can bring about the same shared state,
  -- with the writers where they stand and the same accesses of writers.
  pub Reach-Reach :
      (g : Globals) (d : Machine)
      → Reach g d
      → (s : System) × Threads.Reach g s
        × (s.mem ≡ d.mem)
        × ((i : ℕ) → s.pc i ≡ writer (d.pc i))
        × (writes s.done ≡ d.done)
  Reach-Reach g d r = let (s, reach, m) = Reach-Matches g d r in (s, reach, m.mem, m.pcs, m.log)
