-- ===== src/Procfs/Ending.antt =====
-- The end of a read of the proc file in portions (src/procfs.c), where rtp_proxy_seq_start yields NULL.
use lbm_rtp_proxy.Base.{
  ℕ, zero, suc, ◌+◌, ◌≤◌, ◌<◌, none, some, List, [], ◌∷◌, ◌++◌, length, All, ◌≡◌, ◌⊎◌, inl, inr,
  refl, ap, ◌∙◌, arith, Option-cases, length-append,
}
use lbm_rtp_proxy.Table.{Table, table_size}
use lbm_rtp_proxy.Procfs.{rtp_proxy_seq_start}
use lbm_rtp_proxy.Procfs.Listing.{seq_next_cases}
use lbm_rtp_proxy.Procfs.Resume.{nth_from, seq_start-element}
use lbm_rtp_proxy.Procfs.Session.{portion, session}

-- The indices ascend with the calls of next.
nth_from-le :
    (m index j : ℕ) (t : Table)
    → index < table_size
    → nth_from m index t ≡ some j
    → (index + m ≤ j) × (j < table_size)
nth_from-le zero index j t lt e = ground arith
nth_from-le (suc m) index j t lt e = elim (seq_next_cases index t lt) [
  | inl (stop, none_left) ↦ let none_there = rw stop at e in cc
  | inr (i, next, above, below, row, skipped) ↦
      let rest = nth_from-le m i j t below (rw next at e) in omega arith
]

seq_start-ends : (p : ℕ) (t : Table) → table_size ≤ p → rtp_proxy_seq_start p t ≡ none
seq_start-ends zero t h = absurd (omega arith)
seq_start-ends (suc p) t h = elim (Option-cases (nth_from (suc (suc p)) 0 t)) [
  | inl e ↦ seq_start-element p t ∙ e
  | inr (j, e) ↦ absurd (let far = nth_from-le (suc (suc p)) 0 j t (omega arith) e in omega arith)
]

session-stuck :
    (ns : List ℕ) (p : ℕ) (t : Table)
    → All (λ n. 1 ≤ n) ns
    → rtp_proxy_seq_start p t ≡ none
    → session ns p t ≡ []
session-stuck [] p t h e = refl
session-stuck (zero ∷ ns) p t h e = absurd (omega arith)
session-stuck (suc n ∷ ns) p t h e =
    rw e (ap (λ (q : ℕ). session ns q t) (omega arith) ∙ session-stuck ns p t h.1 e)

-- A portion that shows an element moves on.
further :
    (n i : ℕ) (ns : List ℕ) (p : ℕ) (t : Table)
    → let shown = portion (suc n) (some i) t in
      let rest = session ns (p + length shown) t in
      (p + length shown + length ns ≤ p + length shown + length rest)
        ⊎ (rtp_proxy_seq_start (p + length shown + length rest) t ≡ none)
      → (p + length (suc n ∷ ns) ≤ p + length (shown ++ rest))
        ⊎ (rtp_proxy_seq_start (p + length (shown ++ rest)) t ≡ none)
further n i ns p t h =
    let shown = portion (suc n) (some i) t in
    let rest = session ns (p + length shown) t in
    let both : length (shown ++ rest) ≡ length shown + length rest = length-append shown rest in
    elim h [
      | inl far ↦ inl (omega (arith, both))
      | inr ended ↦ inr (ap (λ (q : ℕ). rtp_proxy_seq_start q t) (omega (arith, both)) ∙ ended)
    ]

session-advances :
    (ns : List ℕ) (p : ℕ) (t : Table)
    → All (λ n. 1 ≤ n) ns
    → (p + length ns ≤ p + length (session ns p t))
      ⊎ (rtp_proxy_seq_start (p + length (session ns p t)) t ≡ none)
session-advances [] p t h = inl (omega arith)
session-advances (zero ∷ ns) p t h = absurd (omega arith)
session-advances (suc n ∷ ns) p t h = elim (Option-cases (rtp_proxy_seq_start p t)) [
  | inl e ↦ inr (
      rw (session-stuck (suc n ∷ ns) p t h e)
        (ap (λ (q : ℕ). rtp_proxy_seq_start q t) (omega arith) ∙ e))
  | inr (i, e) ↦
      rw e
        (further n i ns p t (session-advances ns (p + length (portion (suc n) (some i) t)) t h.1))
]

-- Whatever the table, as long as it stays, a read of the proc file ends: after 65536 portions of at
-- least one line each
-- rtp_proxy_seq_start finds no element at the position that is reached.
pub session-ends :
    (ns : List ℕ) (t : Table)
    → All (λ n. 1 ≤ n) ns
    → table_size ≤ length ns
    → rtp_proxy_seq_start (length (session ns 0 t)) t ≡ none
session-ends ns t h enough = elim (session-advances ns 0 t h) [
  | inl far ↦ seq_start-ends (length (session ns 0 t)) t (omega arith)
  | inr ended ↦
      ap (λ (q : ℕ). rtp_proxy_seq_start q t) {y = 0 + length (session ns 0 t)} (omega arith)
      ∙ ended
]
