-- ===== src/Core/Codec/Sample.antt =====
-- A concrete codec that meets the law: the two numbers of a message in unary, with a letter of one
-- byte and a letter of two. The coordinates are dropped.
use Prim.Native.String.{len, count as count_chars, ◌++◌}
use text.Mathlib.TextPositions.{len-append}
use text.Mathlib.TextLemmas.{length-append}
use velocity_dispatch.Prelude.{
  ℕ, zero, suc, ◌+◌, ◌-◌, ◌*◌, ◌/◌, ◌%◌, ◌<◌, ◌≡◌, refl, ap, ◌∙◌, String, some, arith,
  if◌then◌else◌, ◌==◌,
}
use velocity_dispatch.Prelude.Int.{ℤ, pos, negsuc}
use velocity_dispatch.Float.Sample.{Sample, num, sample_float}
use velocity_dispatch.Core.Model.{GeoPoint}
use velocity_dispatch.Core.Events.{OrderCreated, DispatchAssigned}
use velocity_dispatch.Core.Codec.{Codec, IsFaithful}

abbrev repeat : String → ℕ → String
repeat t zero = ""
repeat t (suc n) = t ++ repeat t n

len-repeat_a : (n : ℕ) → len (repeat "a" n) ≡ n
len-repeat_a zero = refl
len-repeat_a (suc n) = rw (len-append "a" (repeat "a" n)) (rw (len-repeat_a n) (omega arith))

len-repeat_λ : (n : ℕ) → len (repeat "λ" n) ≡ 2 * n
len-repeat_λ zero = refl
len-repeat_λ (suc n) = rw (len-append "λ" (repeat "λ" n)) (rw (len-repeat_λ n) (omega arith))

count-repeat_a : (n : ℕ) → count_chars (repeat "a" n) ≡ n
count-repeat_a zero = refl
count-repeat_a (suc n) = rw (length-append "a" (repeat "a" n)) (rw (count-repeat_a n) (omega arith))

count-repeat_λ : (n : ℕ) → count_chars (repeat "λ" n) ≡ n
count-repeat_λ zero = refl
count-repeat_λ (suc n) = rw (length-append "λ" (repeat "λ" n)) (rw (count-repeat_λ n) (omega arith))

abbrev to_code : ℤ → ℕ
to_code (pos n) = 2 * n
to_code (negsuc n) = 2 * n + 1

abbrev of_code : ℕ → ℤ
of_code k = if k % 2 == 0 then pos (k / 2) else negsuc (k / 2)

of_code-to_code : (t : ℤ) → of_code (to_code t) ≡ t
of_code-to_code (pos n) = ground arith
of_code-to_code (negsuc n) = ground arith

abbrev print_pair : ℕ → ℕ → String
print_pair n k = repeat "a" n ++ repeat "λ" k

first : (n k : ℕ) → 2 * count_chars (print_pair n k) - len (print_pair n k) ≡ n
first n k = rw (len-append (repeat "a" n) (repeat "λ" k)) (
    rw (length-append (repeat "a" n) (repeat "λ" k))
      (rw (len-repeat_a n, len-repeat_λ k, count-repeat_a n, count-repeat_λ k) (omega arith)))

second : (n k : ℕ) → len (print_pair n k) - count_chars (print_pair n k) ≡ k
second n k = rw (len-append (repeat "a" n) (repeat "λ" k)) (
    rw (length-append (repeat "a" n) (repeat "λ" k))
      (rw (len-repeat_a n, len-repeat_λ k, count-repeat_a n, count-repeat_λ k) (omega arith)))

-- The two numbers that stand in a text.
abbrev first_number : String → ℕ
first_number s = 2 * count_chars s - len s

abbrev second_number : String → ℕ
second_number s = len s - count_chars s

abbrev origin : GeoPoint Sample
origin = record { lat = num (pos 0); lon = num (pos 0) }

abbrev pub read_order : String → OrderCreated Sample
read_order s = record {
  order_id = first_number s;
  pickup = origin;
  dropoff = origin;
  created_at = of_code (second_number s);
}

-- Two numbers as one: 2ⁿ(2k + 1).
abbrev code : ℕ → ℕ → ℕ
code zero k = 2 * k + 1
code (suc n) k = 2 * code n k

code_bound : (n k : ℕ) → n < code n k
code_bound zero k = omega arith
code_bound (suc n) k = omega (arith, code_bound n k)

abbrev uncode : ℕ → ℕ → ℕ × ℕ
uncode zero m = (0, 0)
uncode (suc fuel) m =
    let rest = uncode fuel (m / 2) in if m % 2 == 0 then (suc rest.0, rest.1) else (0, m / 2)

uncode-code : (n k fuel : ℕ) → n < fuel → uncode fuel (code n k) ≡ (n, k)
uncode-code zero k zero h = absurd (omega (arith, h))
uncode-code (suc n) k zero h = absurd (omega (arith, h))
uncode-code zero k (suc fuel) h =
    let odd : (2 * k + 1) % 2 ≡ 1 = omega arith in
    let half : (2 * k + 1) / 2 ≡ k = omega arith in rw (odd, half) refl
uncode-code (suc n) k (suc fuel) h =
    let even : (2 * code n k) % 2 ≡ 0 = omega arith in
    let half : (2 * code n k) / 2 ≡ code n k = omega arith in
    rw (even, half) (rw (uncode-code n k fuel (omega (arith, h))) refl)

abbrev pub sample_codec : Codec Sample
sample_codec = record {
  order_to_string = λ e. print_pair e.order_id (to_code e.created_at);
  order_from_str = λ s. some (read_order s);
  assigned_to_string = λ e. some (print_pair (code e.order_id e.driver_id) e.assignment_id);
}

pub sample_codec-IsFaithful : IsFaithful sample_codec
sample_codec-IsFaithful = record {
  order_round_trip = λ e p q. (
    _,
    refl,
    first e.order_id (to_code e.created_at),
    ap of_code (second e.order_id (to_code e.created_at)) ∙ of_code-to_code e.created_at,
  );
}

-- What a reader of the text finds. The distance is dropped.
abbrev pub read_assigned : String → DispatchAssigned Sample
read_assigned s =
    let ids = uncode (first_number s) (first_number s) in
    record {
      assignment_id = second_number s;
      order_id = ids.0;
      driver_id = ids.1;
      distance_km = num (pos 0);
      assigned_at = pos 0;
    }

abbrev pub print_assigned : DispatchAssigned Sample → String
print_assigned e = print_pair (code e.order_id e.driver_id) e.assignment_id

pub read-print_assigned :
    (e : DispatchAssigned Sample)
    → let d = read_assigned (print_assigned e) in
      (d.assignment_id ≡ e.assignment_id) × (d.order_id ≡ e.order_id) × (d.driver_id ≡ e.driver_id)
read-print_assigned e =
    let ids = code e.order_id e.driver_id in
    let back = uncode-code e.order_id e.driver_id ids (code_bound e.order_id e.driver_id) in
    let found : first_number (print_assigned e) ≡ ids = first ids e.assignment_id in
    let pair = ap (λ m. uncode m m) found ∙ back in
    (second ids e.assignment_id, ap (λ p. p.0) pair, ap (λ p. p.1) pair)
