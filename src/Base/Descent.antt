-- ===== src/Base/Descent.antt =====
-- Something that gets smaller again and again comes to an end.
use mathlib.Core.Path.{◌≡◌, refl}
use mathlib.Core.Logic.{◌⊎◌, inl, inr}
use Prim.Native.Nat.{ℕ, zero, suc, ◌+◌, ◌-◌, ◌≤◌, ◌<◌}
use native.Mathlib.Omega.{arith}

module _ {ℓ ℓ'} (P : ℕ → Type ℓ) (Mine : ℕ → Type ℓ') (to_do : ℕ → ℕ)
    (nothing : (n : ℕ) → to_do n ≡ 0 → P n) (any : (n : ℕ) → P n ⊎ (to_do (n + 1) ≤ to_do n))
    (mine : (n : ℕ) → Mine n → P n ⊎ (to_do (n + 1) < to_do n))
    (served : (n : ℕ) → (m : ℕ) × (n ≤ m) × Mine m) where
  -- Some time from `n` on `P` holds.
  abbrev Ends : ℕ → Type ℓ
  Ends n = (m : ℕ) × (n ≤ m) × P m

  -- Until then there is no more to do than at the time `n`.
  waits : (d n m : ℕ) → m ≡ n + d → Ends n ⊎ (to_do m ≤ to_do n)
  waits zero n m e = let now : m ≡ n = omega arith in inr (rw now (omega arith))
  waits (suc d) n m e = elim (waits d n (n + d) refl) [
    | inl ended ↦ inl ended
    | inr so_far ↦ elim (any (n + d)) [
      | inl over ↦ inl (n + d, omega arith, over)
      | inr less ↦ let next : m ≡ n + d + 1 = omega arith in inr (rw next (omega arith))
    ]
  ]

  ends_by : (bound n : ℕ) → to_do n ≤ bound → Ends n
  ends_by zero n few = (n, omega arith, nothing n (omega arith))
  ends_by (suc bound) n few =
      let (m, later, turn) = served n in
      elim (waits (m - n) n m (omega arith)) [
        | inl ended ↦ ended
        | inr so_far ↦ elim (mine m turn) [
          | inl over ↦ (m, later, over)
          | inr less ↦
              let (k, after, over) = ends_by bound (m + 1) (omega arith) in (k, omega arith, over)
        ]
      ]

  -- What never grows, and gets smaller each time it is its turn, again and again, until `P` holds.
  pub descent-ends : (n : ℕ) → (m : ℕ) × (n ≤ m) × P m
  descent-ends n = ends_by (to_do n) n (omega arith)
