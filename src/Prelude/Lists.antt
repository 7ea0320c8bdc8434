-- ===== src/Prelude/Lists.antt =====
-- Lists: Boolean filters, counts in native numbers, predicates by recursion.
use Prim.Native.Nat.{ℕ, suc, ◌+◌, ◌≤◌}
use mathlib.Core.Path.{◌≡◌, refl, sym, ap, ◌∙◌}
use mathlib.Core.Logic.{◌⊎◌, inl, inr}
use mathlib.Core.Bool.{Bool, true}
use mathlib.Core.List.{List, [], ◌∷◌, ◌++◌, map, Memᴰ}
use mathlib.Core.Option.{Option, none, some}
use native.Mathlib.Omega.{arith}
use velocity_dispatch.Prelude.Tests.{if◌then◌else◌, Bool-cases}

module _ {ℓ} {A : Type ℓ} where
  abbrev pub length : List A → ℕ
  length [] = 0
  length (_ ∷ xs) = suc (length xs)

  abbrev pub filter : (A → Bool) → List A → List A
  filter p [] = []
  filter p (x ∷ xs) = let rest = filter p xs in if p x then x ∷ rest else rest

  abbrev pub find? : (A → Bool) → List A → Option A
  find? p [] = none
  find? p (x ∷ xs) = let rest = find? p xs in if p x then some x else rest

  abbrev pub count : (A → Bool) → List A → ℕ
  count p [] = 0
  count p (x ∷ xs) = let rest = count p xs in if p x then suc rest else rest

  abbrev pub All {κ} : (A → Type κ) → List A → Type κ
  All P [] = Unit
  All P (x ∷ xs) = P x × All P xs

  pub All-append {κ} : (P : A → Type κ) (xs ys : List A) → All P xs → All P ys → All P (xs ++ ys)
  All-append P [] ys hx hy = hy
  All-append P (x ∷ xs) ys (h, hx) hy = (h, All-append P xs ys hx hy)

  pub All-without {κ} :
      (P : A → Type κ) (x : A) (before after : List A)
      → All P (before ++ x ∷ after)
      → All P (before ++ after)
  All-without P x [] after (h, hs) = hs
  All-without P x (y ∷ before) after (h, hs) = (h, All-without P x before after hs)

  pub All-mono {κ μ} :
      (P : A → Type κ) (Q : A → Type μ) (xs : List A) → ((x : A) → P x → Q x) → All P xs → All Q xs
  All-mono P Q [] f h = tt
  All-mono P Q (x ∷ xs) f (h, hs) = (f x h, All-mono P Q xs f hs)

  pub count-append : (p : A → Bool) (xs ys : List A) → count p (xs ++ ys) ≡ count p xs + count p ys
  count-append p [] ys = omega arith
  count-append p (x ∷ xs) ys = ground (arith, count-append p xs ys)

  -- A property of what a filter keeps is one of the list, under the test.
  pub All-filter {κ} :
      (P : A → Type κ) (p : A → Bool) (xs : List A)
      → All (λ x. p x ≡ true → P x) xs
      → All P (filter p xs)
  All-filter P p [] h = tt
  All-filter P p (x ∷ xs) (h, hs) = elim (Bool-cases (p x)) [
    | inl kept ↦ rw kept (h kept, All-filter P p xs hs)
    | inr dropped ↦ rw dropped (All-filter P p xs hs)
  ]

  pub All-of_filter {κ} :
      (P : A → Type κ) (p : A → Bool) (xs : List A)
      → All P (filter p xs)
      → All (λ x. p x ≡ true → P x) xs
  All-of_filter P p [] h = tt
  All-of_filter P p (x ∷ xs) h = elim (Bool-cases (p x)) [
    | inl kept ↦
        let both : P x × All P (filter p xs) = rw kept at h in
        (λ _. both.0, All-of_filter P p xs both.1)
    | inr dropped ↦ (λ kept. cc, All-of_filter P p xs (rw dropped at h))
  ]

  pub All-mem : (xs : List A) → All (λ x. Memᴰ x xs) xs
  All-mem [] = tt
  All-mem (x ∷ xs) = (
    Memᴰ.head refl,
    All-mono (λ y. Memᴰ y xs) (λ y. Memᴰ y (x ∷ xs)) xs (λ y m. Memᴰ.tail m) (All-mem xs),
  )

  pub All-at {κ} : (P : A → Type κ) {x : A} (xs : List A) → Memᴰ x xs → All P xs → P x
  All-at P [] m h = elim m [ ]
  All-at P (y ∷ ys) (Memᴰ.head e) (h, hs) = rw e h
  All-at P (y ∷ ys) (Memᴰ.tail m) (h, hs) = All-at P ys m hs

  pub All-within {κ} :
      (P : A → Type κ) (xs ys : List A) → ((x : A) → Memᴰ x xs → Memᴰ x ys) → All P ys → All P xs
  All-within P xs ys sub h =
      All-mono (λ x. Memᴰ x xs) P xs (λ x m. All-at P ys (sub x m) h) (All-mem xs)

  -- An element in the middle of a list.
  pub mem_mid : (y : A) (xs ys : List A) → Memᴰ y (xs ++ y ∷ ys)
  mem_mid y [] ys = Memᴰ.head refl
  mem_mid y (x ∷ xs) ys = Memᴰ.tail (mem_mid y xs ys)

  pub mem_around : {z : A} (y : A) (xs ys : List A) → Memᴰ z (xs ++ ys) → Memᴰ z (xs ++ y ∷ ys)
  mem_around y [] ys m = Memᴰ.tail m
  mem_around y (x ∷ xs) ys (Memᴰ.head e) = Memᴰ.head e
  mem_around y (x ∷ xs) ys (Memᴰ.tail m) = Memᴰ.tail (mem_around y xs ys m)

  pub mem_mid_cases :
      {z : A} (y : A) (xs ys : List A) → Memᴰ z (xs ++ y ∷ ys) → (z ≡ y) ⊎ Memᴰ z (xs ++ ys)
  mem_mid_cases y [] ys (Memᴰ.head e) = inl e
  mem_mid_cases y [] ys (Memᴰ.tail m) = inr m
  mem_mid_cases y (x ∷ xs) ys (Memᴰ.head e) = inr (Memᴰ.head e)
  mem_mid_cases y (x ∷ xs) ys (Memᴰ.tail m) = elim (mem_mid_cases y xs ys m) [
    | inl this ↦ inl this
    | inr there ↦ inr (Memᴰ.tail there)
  ]

  pub mem_append_left : {z : A} (xs ys : List A) → Memᴰ z xs → Memᴰ z (xs ++ ys)
  mem_append_left [] ys m = elim m [ ]
  mem_append_left (x ∷ xs) ys (Memᴰ.head e) = Memᴰ.head e
  mem_append_left (x ∷ xs) ys (Memᴰ.tail m) = Memᴰ.tail (mem_append_left xs ys m)

  pub append-ne : (xs : List A) (x : A) → ¬ (xs ++ x ∷ [] ≡ xs)
  append-ne xs x e = omega (arith, count-append (λ _. true) xs (x ∷ []), ap (count (λ _. true)) e)

  pub count_mem : (p : A → Bool) (x : A) (xs : List A) → p x ≡ true → Memᴰ x xs → 1 ≤ count p xs
  count_mem p x [] h m = elim m [ ]
  count_mem p x (y ∷ ys) h (Memᴰ.head e) = rw (sym (ap p e) ∙ h) (omega arith)
  count_mem p x (y ∷ ys) h (Memᴰ.tail m) = ground (arith, count_mem p x ys h m)

  -- Where at most one element passes a test, two that pass it are equal.
  pub count_one :
      (p : A → Bool) (x y : A) (xs : List A)
      → count p xs ≤ 1
      → p x ≡ true
      → p y ≡ true
      → Memᴰ x xs
      → Memᴰ y xs
      → x ≡ y
  count_one p x y [] few px py mx my = elim mx [ ]
  count_one p x y (z ∷ zs) few px py (Memᴰ.head e) (Memᴰ.head h) = e ∙ sym h
  count_one p x y (z ∷ zs) few px py (Memᴰ.head e) (Memᴰ.tail m) =
      let pz = sym (ap p e) ∙ px in absurd (ground (arith, count_mem p y zs py m, pz, few))
  count_one p x y (z ∷ zs) few px py (Memᴰ.tail m) (Memᴰ.head h) =
      let pz = sym (ap p h) ∙ py in absurd (ground (arith, count_mem p x zs px m, pz, few))
  count_one p x y (z ∷ zs) few px py (Memᴰ.tail m) (Memᴰ.tail n) =
      count_one p x y zs (ground (arith, few)) px py m n

module _ {ℓ κ} {A : Type ℓ} {B : Type κ} where
  pub All-map {μ} :
      (P : B → Type μ) (g : A → B) (xs : List A) → All (λ x. P (g x)) xs → All P (map g xs)
  All-map P g [] h = tt
  All-map P g (x ∷ xs) (h, hs) = (h, All-map P g xs hs)

  pub All-of_map {μ} :
      (P : B → Type μ) (g : A → B) (xs : List A) → All P (map g xs) → All (λ x. P (g x)) xs
  All-of_map P g [] h = tt
  All-of_map P g (x ∷ xs) (h, hs) = (h, All-of_map P g xs hs)

  -- One more on both sides.
  pub count-append_one :
      (p : A → Bool) (q : B → Bool) (xs : List A) (ys : List B) (x : A) (y : B)
      → p x ≡ q y
      → count p xs ≤ count q ys
      → count p (xs ++ x ∷ []) ≤ count q (ys ++ y ∷ [])
  count-append_one p q xs ys x y e h =
      ground (arith, count-append p xs (x ∷ []), count-append q ys (y ∷ []))
