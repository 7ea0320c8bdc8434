-- ===== src/System/Overlap/Apart.antt =====
-- No two transactions hold the same row or key.
use velocity_dispatch.Prelude.{
  ℕ, ◌≡◌, ◌≢◌, sym, ◌∙◌, inl, inr, Bool, true, false, Bool-cases, ◌==◌, ==_iff,
}
use velocity_dispatch.Core.Model.{Uuid}
use velocity_dispatch.System.Overlap.{Phase, update}

-- A property of every phase, after an update.
pub Every-update :
    {F : Type 0} (P : Phase F → Type 0) (phase : ℕ → Phase F) (i : ℕ) (p : Phase F)
    → ((j : ℕ) → P (phase j))
    → P p
    → (j : ℕ) → P (update phase i p j)
Every-update P phase i p old new j = elim (Bool-cases (i == j)) [
  | inl this ↦ rw this new
  | inr other ↦ rw other (old j)
]

module _ {F : Type 0} (holds : Phase F → Uuid → Bool) where
  -- What one transaction holds no other one holds.
  abbrev pub Apart : (ℕ → Phase F) → Type 0
  Apart phase = (i j : ℕ) (k : Uuid) → i ≢ j → holds (phase i) k ≡ true → holds (phase j) k ≡ false

  -- One transaction moves on, and holds nothing that another one holds.
  pub Apart-update :
      (phase : ℕ → Phase F) (i : ℕ) (p : Phase F)
      → Apart phase
      → ((j : ℕ) (k : Uuid) → i ≢ j → holds p k ≡ true → holds (phase j) k ≡ false)
      → Apart (update phase i p)
  Apart-update phase i p apart new j l k ne mine = elim (Bool-cases (i == j)) [
    | inl e ↦ elim (Bool-cases (i == l)) [
      | inl h ↦ absurd (ne (sym ((==_iff i j).0 e) ∙ (==_iff i l).0 h))
      | inr h ↦ rw h (new l k (λ q. cc ((==_iff i l).1 q)) (rw e at mine))
    ]
    | inr e ↦ elim (Bool-cases (i == l)) [
      | inl h ↦ rw h (elim (Bool-cases (holds p k)) [
        | inl both ↦ cc (new j k (λ q. cc ((==_iff i j).1 q)) both, (rw e at mine))
        | inr free ↦ free
      ])
      | inr h ↦ rw h (apart j l k ne (rw e at mine))
    ]
  ]
