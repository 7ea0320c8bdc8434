-- ===== src/Float/Sample.antt =====
-- A concrete type of floats that meets the laws: whole numbers and NaN. The functions of
-- trigonometry are stand-ins; under them `haversine_km` is 12742 times the squared distance in the
-- plane.
use Prim.Native.Nat.{Ordering, compare}
use native.Mathlib.Nat.{mul_comm as mul_comm_ℕ}
use velocity_dispatch.Prelude.{
  ℕ, ◌≤◌, zero, suc, ◌+◌, ◌*◌, ◌≡◌, refl, Bool, true, false, leb, arith,
}
use velocity_dispatch.Prelude.Int.{ℤ, pos, negsuc, pos_part, neg_part, ◌-ℤ◌, sub_ℕ}
use velocity_dispatch.Float.Defs.{Float, IsOrdered, IsSigned, IsExactAtZero}

pub data Sample : Type 0 where
  nan : Sample
  num : ℤ → Sample

abbrev sample_le : Sample → Sample → Bool
sample_le (num a) (num b) = leb (pos_part a + neg_part b) (pos_part b + neg_part a)
sample_le nan _ = false
sample_le (num a) nan = false

abbrev sample_cmp : Sample → Sample → Ordering
sample_cmp (num a) (num b) = compare (pos_part a + neg_part b) (pos_part b + neg_part a)
sample_cmp (num a) nan = Ordering.lt
sample_cmp nan (num b) = Ordering.gt
sample_cmp nan nan = Ordering.eq

abbrev lift : (ℤ → ℤ → ℤ) → Sample → Sample → Sample
lift g (num a) (num b) = num (g a b)
lift g (num a) nan = nan
lift g nan _ = nan

abbrev mul_ℤ : ℤ → ℤ → ℤ
mul_ℤ a b =
    sub_ℕ (pos_part a * pos_part b + neg_part a * neg_part b)
      (pos_part a * neg_part b + neg_part a * pos_part b)

abbrev add_ℤ : ℤ → ℤ → ℤ
add_ℤ a b = sub_ℕ (pos_part a + pos_part b) (neg_part a + neg_part b)

abbrev neg_ℤ : ℤ → ℤ
neg_ℤ a = sub_ℕ (neg_part a) (pos_part a)

abbrev sample_neg : Sample → Sample
sample_neg (num a) = num (neg_ℤ a)
sample_neg nan = nan

abbrev sample_one : Sample → Sample
sample_one _ = num (pos 1)

abbrev square_ℤ : ℤ → ℤ
square_ℤ (pos n) = pos (n * n)
square_ℤ (negsuc n) = pos (suc n * suc n)

abbrev sample_square : Sample → Sample
sample_square (num a) = num (square_ℤ a)
sample_square nan = nan

instance abbrev pub sample_float : Float Sample
sample_float = record {
  le = sample_le;
  total_cmp = sample_cmp;
  neg = sample_neg;
  add = lift add_ℤ;
  sub = lift ◌-ℤ◌;
  mul = lift mul_ℤ;
  div = λ x _. x;
  of_ℕ = λ n. num (pos n);
  to_radians = λ x. x;
  sin = λ x. x;
  cos = sample_one;
  asin = λ x. x;
  sqrt = λ x. x;
  square = sample_square;
}

pub Sample-IsOrdered : IsOrdered Sample
Sample-IsOrdered = ground arith

mul_ℤ_comm : (a b : ℤ) → mul_ℤ a b ≡ mul_ℤ b a
mul_ℤ_comm a b = ground (
  arith,
  mul_comm_ℕ (pos_part a) (pos_part b),
  mul_comm_ℕ (neg_part a) (neg_part b),
  mul_comm_ℕ (pos_part a) (neg_part b),
  mul_comm_ℕ (neg_part a) (pos_part b),
)

sample_mul_comm : (x y : Sample) → lift mul_ℤ x y ≡ lift mul_ℤ y x
sample_mul_comm nan nan = refl
sample_mul_comm nan (num b) = refl
sample_mul_comm (num a) nan = refl
sample_mul_comm (num a) (num b) = rw (mul_ℤ_comm a b)

sample_square_even : (x : Sample) → sample_square (sample_neg x) ≡ sample_square x
sample_square_even nan = refl
sample_square_even (num (pos zero)) = refl
sample_square_even (num (pos (suc n))) = ground arith
sample_square_even (num (negsuc n)) = ground arith

pub Sample-IsSigned : IsSigned Sample
Sample-IsSigned = record {
  sub_swap = ground arith;
  div_neg = λ x y. refl;
  sin_odd = λ x. refl;
  square_even = sample_square_even;
  mul_comm = sample_mul_comm;
}

sample_sub_self :
    (n : ℕ) (x : Sample)
    → n ≤ 180
    → sample_le (sample_neg (num (pos n))) x ≡ true
    → sample_le x (num (pos n)) ≡ true
    → lift ◌-ℤ◌ x x ≡ num (pos 0)
sample_sub_self n nan small h k = cc
sample_sub_self n (num (pos a)) small h k = ground arith
sample_sub_self n (num (negsuc a)) small h k = ground arith

sample_mul_zero : (n : ℕ) → lift mul_ℤ (num (pos n)) (num (pos 0)) ≡ num (pos 0)
sample_mul_zero n = ground arith

pub Sample-IsExactAtZero : IsExactAtZero Sample
Sample-IsExactAtZero = record {
  sub_self = sample_sub_self;
  div_zero = refl;
  sin_zero = refl;
  square_zero = refl;
  cos_mul_zero = λ n x small h k. refl;
  add_zero = refl;
  sqrt_zero = refl;
  asin_zero = refl;
  mul_zero = sample_mul_zero;
}
