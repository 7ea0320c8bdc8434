-- ===== src/Float/Defs.antt =====
-- `f64`, as far as the source computes with it: a type with the operations that geo.rs, model.rs
-- and main.rs call, and the IEEE 754 laws that proofs rely on as named hypotheses.
use Prim.Native.Nat.{Ordering}
use velocity_dispatch.Prelude.{ℕ, ◌≤◌, ◌≡◌, ◌⊎◌, Bool, true, false}

pub record Float (F : Type 0) : Type 0 where
  -- `a <= b`
  pub le : F → F → Bool
  -- `a.total_cmp(&b)`
  pub total_cmp : F → F → Ordering
  pub neg : F → F
  pub add : F → F → F
  pub sub : F → F → F
  pub mul : F → F → F
  pub div : F → F → F
  -- `n as f64`, and a literal of that value
  pub of_ℕ : ℕ → F
  pub to_radians : F → F
  pub sin : F → F
  pub cos : F → F
  pub asin : F → F
  pub sqrt : F → F
  -- `x.powi(2)`
  pub square : F → F

infix 4 ◌≼◌ ◌⊑◌
abbrev pub ◌≼◌ : {F : Type 0} ⦃f : Float F⦄ → F → F → Type 0
◌≼◌ ⦃f⦄ x y = f.le x y ≡ true

-- `x.total_cmp(&y)` is not `Greater`.
abbrev pub not_gt : Ordering → Bool
not_gt Ordering.gt = false
not_gt _ = true

abbrev pub ◌⊑◌ : {F : Type 0} ⦃f : Float F⦄ → F → F → Type 0
◌⊑◌ ⦃f⦄ x y = not_gt (f.total_cmp x y) ≡ true

-- The orders. A value is a number, and not NaN, if it is `<=` itself. `total_cmp` is a total order
-- of all values, finer than `<=` on the numbers.
pub record IsOrdered (F : Type 0) ⦃f : Float F⦄ : Type 0 where
  pub refl_of_le : (x y : F) → x ≼ y → (x ≼ x) × (y ≼ y)
  pub le_trans : (x y z : F) → x ≼ y → y ≼ z → x ≼ z
  pub le_of_total : (x y : F) → x ≼ x → y ≼ y → x ⊑ y → x ≼ y
  pub total_refl : (x : F) → x ⊑ x
  pub total_trans : (x y z : F) → x ⊑ y → y ⊑ z → x ⊑ z
  pub total_total : (x y : F) → (x ⊑ y) ⊎ (y ⊑ x)
  pub of_ℕ_mono : (m n : ℕ) → m ≤ n → f.of_ℕ m ≼ f.of_ℕ n

-- Signs in the arithmetic that `haversine_km` uses. A difference changes its sign with its order,
-- unless it is the zero of two equal numbers; the sine is odd; products commute.
pub record IsSigned (F : Type 0) ⦃f : Float F⦄ : Type 0 where
  pub sub_swap : (x y : F) → (f.sub x y ≡ f.sub y x) ⊎ (f.sub x y ≡ f.neg (f.sub y x))
  pub div_neg : (x y : F) → f.div (f.neg x) y ≡ f.neg (f.div x y)
  pub sin_odd : (x : F) → f.sin (f.neg x) ≡ f.neg (f.sin x)
  pub square_even : (x : F) → f.square (f.neg x) ≡ f.square x
  pub mul_comm : (x y : F) → f.mul x y ≡ f.mul y x

-- Zeros in the arithmetic that `haversine_km` uses, for angles up to 180 degrees.
pub record IsExactAtZero (F : Type 0) ⦃f : Float F⦄ : Type 0 where
  pub sub_self :
      (n : ℕ) (x : F)
      → n ≤ 180
      → f.neg (f.of_ℕ n) ≼ x
      → x ≼ f.of_ℕ n
      → f.sub (f.to_radians x) (f.to_radians x) ≡ f.of_ℕ 0
  pub div_zero : f.div (f.of_ℕ 0) (f.of_ℕ 2) ≡ f.of_ℕ 0
  pub sin_zero : f.sin (f.of_ℕ 0) ≡ f.of_ℕ 0
  pub square_zero : f.square (f.of_ℕ 0) ≡ f.of_ℕ 0
  pub cos_mul_zero :
      (n : ℕ) (x : F)
      → n ≤ 180
      → f.neg (f.of_ℕ n) ≼ x
      → x ≼ f.of_ℕ n
      → f.mul (f.mul (f.cos (f.to_radians x)) (f.cos (f.to_radians x))) (f.of_ℕ 0) ≡ f.of_ℕ 0
  pub add_zero : f.add (f.of_ℕ 0) (f.of_ℕ 0) ≡ f.of_ℕ 0
  pub sqrt_zero : f.sqrt (f.of_ℕ 0) ≡ f.of_ℕ 0
  pub asin_zero : f.asin (f.of_ℕ 0) ≡ f.of_ℕ 0
  pub mul_zero : (n : ℕ) → f.mul (f.of_ℕ n) (f.of_ℕ 0) ≡ f.of_ℕ 0
