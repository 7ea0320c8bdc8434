-- ===== src/Store/Rows.antt =====
-- A table is the list of its rows. `WHERE` is a test on rows, `key` the primary key.
use mathlib.Core.Option
use velocity_dispatch.Prelude.{
  ℕ, ◌≡◌, ◌≢◌, refl, inl, inr, Bool, true, false, ◌&&◌, List, [], ◌∷◌, ◌++◌, Option, none, some,
  arith, find?, count, All, Bool-cases, if◌then◌else◌, ◌==◌, ==_refl,
}

module _ {ℓ} {R : Type ℓ} where
  -- `UPDATE … SET … WHERE …`
  abbrev pub update_where : (R → Bool) → (R → R) → List R → List R
  update_where q g [] = []
  update_where q g (x ∷ xs) = (if q x then g x else x) ∷ update_where q g xs

  pub All-update_where {κ} :
      (P : R → Type κ) (q : R → Bool) (g : R → R) (xs : List R)
      → ((x : R) → P x → P (g x))
      → All P xs
      → All P (update_where q g xs)
  All-update_where P q g [] keep h = tt
  All-update_where P q g (x ∷ xs) keep (h, hs) = elim (Bool-cases (q x)) [
    | inl e ↦ rw e (keep x h, All-update_where P q g xs keep hs)
    | inr e ↦ rw e (h, All-update_where P q g xs keep hs)
  ]

module _ {ℓ} {R : Type ℓ} (key : R → ℕ) where
  abbrev pub is_key : ℕ → R → Bool
  is_key k x = key x == k

  -- The row with that primary key, the first if there were several.
  abbrev pub row_of : ℕ → List R → Option R
  row_of k xs = find? (is_key k) xs

  abbrev pub has : ℕ → List R → Bool
  has k [] = false
  has k (x ∷ xs) = if is_key k x then true else has k xs

  -- `PRIMARY KEY`
  abbrev pub Distinct : List R → Type 0
  Distinct [] = Unit
  Distinct (x ∷ xs) = (has (key x) xs ≡ false) × Distinct xs

  pub has-append :
      (k : ℕ) (xs : List R) (r : R) → has k (xs ++ r ∷ []) ≡ (if has k xs then true else is_key k r)
  has-append k [] r = ground arith
  has-append k (x ∷ xs) r = ground (arith, has-append k xs r)

  pub Distinct-append :
      (xs : List R) (r : R) → has (key r) xs ≡ false → Distinct xs → Distinct (xs ++ r ∷ [])
  Distinct-append [] r new d = (refl, tt)
  Distinct-append (x ∷ xs) r new (h, d) =
      (rw (has-append (key x) xs r) (ground arith), Distinct-append xs r (ground arith) d)

  pub row_of-append :
      (k : ℕ) (xs : List R) (r : R)
      → row_of k (xs ++ r ∷ [])
        ≡ (if has k xs then row_of k xs else if is_key k r then some r else none)
  row_of-append k [] r = ground arith
  row_of-append k (x ∷ xs) r = ground (arith, row_of-append k xs r)

  pub row_of-none : (k : ℕ) (xs : List R) → has k xs ≡ false → row_of k xs ≡ none
  row_of-none k [] h = refl
  row_of-none k (x ∷ xs) h = ground (arith, row_of-none k xs)

  pub row_of-append_other :
      (k : ℕ) (xs : List R) (r : R) → k ≢ key r → row_of k (xs ++ r ∷ []) ≡ row_of k xs
  row_of-append_other k [] r ne = ground arith
  row_of-append_other k (x ∷ xs) r ne = ground (arith, row_of-append_other k xs r ne)

  pub has_of_row : (k : ℕ) (xs : List R) (r : R) → row_of k xs ≡ some r → has k xs ≡ true
  has_of_row k [] r h = cc
  has_of_row k (x ∷ xs) r h = ground (arith, has_of_row k xs r)

  pub row_of-has : (k : ℕ) (xs : List R) → has k xs ≡ true → (r : R) × (row_of k xs ≡ some r)
  row_of-has k [] h = cc
  row_of-has k (x ∷ xs) h = elim (Bool-cases (is_key k x)) [
    | inl e ↦ rw e (x, refl)
    | inr e ↦ rw e (row_of-has k xs (rw e at h))
  ]

  pub row_of-key : (k : ℕ) (xs : List R) (r : R) → row_of k xs ≡ some r → key r ≡ k
  row_of-key k [] r h = cc
  row_of-key k (x ∷ xs) r h = ground (arith, row_of-key k xs r)

  pub is_key_of_row : (k : ℕ) (xs : List R) (r : R) → row_of k xs ≡ some r → is_key k r ≡ true
  is_key_of_row k xs r h = rw (row_of-key k xs r h) (==_refl k)

  module _ (q : R → Bool) (g : R → R) (keeps : (x : R) → key (g x) ≡ key x) where
    pub has-update_where : (k : ℕ) (xs : List R) → has k (update_where q g xs) ≡ has k xs
    has-update_where k [] = refl
    has-update_where k (x ∷ xs) = ground (arith, keeps x, has-update_where k xs)

    pub Distinct-update_where : (xs : List R) → Distinct xs → Distinct (update_where q g xs)
    Distinct-update_where [] d = tt
    Distinct-update_where (x ∷ xs) (h, d) =
        (ground (arith, keeps x, has-update_where (key x) xs), Distinct-update_where xs d)

    pub row_of-update_where :
        (k : ℕ) (xs : List R)
        → row_of k (update_where q g xs) ≡ Option.map (λ x. if q x then g x else x) (row_of k xs)
    row_of-update_where k [] = refl
    row_of-update_where k (x ∷ xs) = ground (arith, keeps x, row_of-update_where k xs)

  -- `rows_affected` of an update by primary key and a further condition.
  abbrev pub matches : (R → Bool) → Option R → ℕ
  matches p none = 0
  matches p (some r) = if p r then 1 else 0

  count-none :
      (k : ℕ) (p : R → Bool) (xs : List R)
      → has k xs ≡ false
      → count (λ x. is_key k x && p x) xs ≡ 0
  count-none k p [] h = refl
  count-none k p (x ∷ xs) h = ground (arith, count-none k p xs)

  pub count-key :
      (k : ℕ) (p : R → Bool) (xs : List R)
      → Distinct xs
      → count (λ x. is_key k x && p x) xs ≡ matches p (row_of k xs)
  count-key k p [] d = refl
  count-key k p (x ∷ xs) (h, d) = elim (Bool-cases (is_key k x)) [
    | inl e ↦ ground (arith, count-none k p xs)
    | inr e ↦ ground (arith, count-key k p xs d)
  ]
