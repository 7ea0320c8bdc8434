-- ===== src/Prelude/Actions.antt =====
-- Fallible code over a state: the result and the state after it, also after an error.
use mathlib.Core.Path.{◌≡◌, refl}
use mathlib.Core.Logic.{◌⊎◌, inl, inr}

pub data Result {ℓ κ} (E : Type ℓ) (A : Type κ) : Type (ℓ ⊔ κ) where
  ok : A → Result E A
  err : E → Result E A

abbrev pub Action : Type 0 → Type 0 → Type 0 → Type 0
Action S E A = S → Result E A × S

abbrev pub and_then :
    {S E A B : Type 0} → Result E A × S → (A → S → Result E B × S) → Result E B × S
and_then (ok a, s) f = f a s
and_then (err e, s) f = (err e, s)

-- `?` after a call: an error ends the caller, with the state that the call left.
infixl 5 ◌>>=◌ ◌>>◌
abbrev pub ◌>>=◌ :
    {S E A B : Type 0} → (S → Result E A × S) → (A → S → Result E B × S) → S → Result E B × S
◌>>=◌ m f s = and_then (m s) f

abbrev pub ◌>>◌ :
    {S E A B : Type 0} → (S → Result E A × S) → (S → Result E B × S) → S → Result E B × S
◌>>◌ m k s = and_then (m s) (λ _. k)

abbrev pub return : {S E A : Type 0} → A → S → Result E A × S
return a s = (ok a, s)

abbrev pub throw : {S E A : Type 0} → E → S → Result E A × S
throw e s = (err e, s)

-- The `From` conversion that `?` makes of an error.
abbrev pub map_result : {E D A : Type 0} → (E → D) → Result E A → Result D A
map_result f (ok a) = ok a
map_result f (err e) = err (f e)

abbrev pub map_err : {S E D A : Type 0} → (E → D) → (S → Result E A × S) → S → Result D A × S
map_err f m s = let (r, t) = m s in (map_result f r, t)

-- A call of another process, as its caller sees it: it answers; it fails with no effect; or it
-- takes effect and the answer is lost, so that the caller sees an error.
pub data Outcome : Type 0 where
  done failed lost : Outcome

abbrev pub attempt : {S E A : Type 0} → Outcome → E → S → Result E A × S → Result E A × S
attempt done e s r = r
attempt failed e s r = (err e, s)
attempt lost e s r = (err e, r.1)

pub Outcome-cases : (o : Outcome) → (o ≡ done) ⊎ (o ≡ failed) ⊎ (o ≡ lost)
Outcome-cases done = inl refl
Outcome-cases failed = inr (inl refl)
Outcome-cases lost = inr (inr refl)

-- A call answers, or fails in some state.
pub attempt_cases :
    {S E A : Type 0} (o : Outcome) (e : E) (s : S) (r : Result E A × S)
    → (attempt o e s r ≡ r) ⊎ ((t : S) × (attempt o e s r ≡ (err e, t)))
attempt_cases done e s r = inl refl
attempt_cases failed e s r = inr (s, refl)
attempt_cases lost e s r = inr (r.1, refl)

pub Result-cases {ℓ κ} :
    {E : Type ℓ} {A : Type κ} (r : Result E A) → ((a : A) × (r ≡ ok a)) ⊎ ((e : E) × (r ≡ err e))
Result-cases (ok a) = inl (a, refl)
Result-cases (err e) = inr (e, refl)
