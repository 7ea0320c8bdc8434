-- ===== src/Core/Geo/Nearest.antt =====
-- `nearest_driver` returns an available driver in the radius that no other one beats, and reports
-- failure only where there is none.
use velocity_dispatch.Prelude.{
  ℕ, ◌≡◌, refl, inl, inr, true, List, [], ◌∷◌, Memᴰ, none, some, Result, ok, err, All, All-mono,
  All-filter, All-of_filter, All-mem, All-map, All-of_map, Bool-cases, Option-cases, arith,
}
use mathlib.Core.Path.{subst}
use mathlib.Core.Option.{some-injective}
use velocity_dispatch.Float.{Float, ◌≼◌, ◌⊑◌, not_gt, IsOrdered}
use velocity_dispatch.Core.Model.{
  GeoPoint, Driver, DriverStatus, available, CoreError, no_driver_in_range, is_available,
}
use velocity_dispatch.Core.Geo.{
  haversine_km, closer, min_from, min_by, with_distance, in_radius, reachable, nearest_driver,
}

is_available→eq : (s : DriverStatus) → is_available s ≡ true → s ≡ available
is_available→eq s h = ground arith

module _ {F : Type 0} ⦃f : Float F⦄ (pickup : GeoPoint F) (radius_km : ℕ) where
  open f use {of_ℕ}

  abbrev dist : Driver F → F
  dist d = haversine_km pickup d.location

  -- The driver `x.0`, at the distance `x.1`, may serve the pickup.
  pub record IsEligible (candidates : List (Driver F)) (x : Driver F × F) : Type 0 where
    pub offered : Memᴰ x.0 candidates
    pub free : x.0.status ≡ available
    pub measured : x.1 ≡ dist x.0
    pub within : x.1 ≼ of_ℕ radius_km

  -- Every available candidate in the radius satisfies `P`, with its distance.
  abbrev pub AllEligible : (Driver F × F → Type 0) → List (Driver F) → Type 0
  AllEligible P candidates =
      All (λ c. c.status ≡ available → dist c ≼ of_ℕ radius_km → P (c, dist c)) candidates

  reachable-IsEligible :
      (candidates : List (Driver F))
      → All (IsEligible candidates) (reachable pickup candidates radius_km)
  reachable-IsEligible cs = All-filter (IsEligible cs) (in_radius radius_km) _ (
      All-map (λ x. in_radius radius_km x ≡ true → IsEligible cs x) (with_distance pickup) _
        (All-filter _ (λ d. is_available d.status) cs
          (All-mono _ _ cs
            (λ c m free near. record {
              offered = m;
              free = is_available→eq c.status free;
              measured = refl;
              within = near;
            })
            (All-mem cs))))

  AllEligible-of_reachable :
      (P : Driver F × F → Type 0) (candidates : List (Driver F))
      → All P (reachable pickup candidates radius_km)
      → AllEligible P candidates
  AllEligible-of_reachable P cs h =
      All-mono _ _ cs (λ c k free near. k (rw free) near)
        (All-of_filter _ (λ d. is_available d.status) cs
          (All-of_map _ (with_distance pickup) _ (All-of_filter P (in_radius radius_km) _ h)))

module _ {F : Type 0} ⦃f : Float F⦄ where
  -- The minimum is one of the elements.
  min_from-All :
      (P : Driver F × F → Type 0) (best : Driver F × F) (xs : List (Driver F × F))
      → P best
      → All P xs
      → P (min_from best xs)
  min_from-All P best [] h hs = h
  min_from-All P best (x ∷ xs) h (k, ks) = elim (Bool-cases (not_gt (f.total_cmp best.1 x.1))) [
    | inl keep ↦ rw keep (min_from-All P best xs h ks)
    | inr take ↦ rw take (min_from-All P x xs k ks)
  ]

  -- What a pickup is promised of a result.
  abbrev pub IsChosen :
      GeoPoint F → List (Driver F) → ℕ → Result (CoreError F) (Driver F × F) → Type 0
  IsChosen pickup cs r (ok x) = IsEligible pickup r cs x × AllEligible pickup r (λ y. x.1 ⊑ y.1) cs
  IsChosen pickup cs r (err e) = (e ≡ no_driver_in_range r) × AllEligible pickup r (λ _. ⊥) cs

  min_by-All :
      (P : Driver F × F → Type 0) (xs : List (Driver F × F)) {x : Driver F × F}
      → All P xs
      → min_by xs ≡ some x
      → P x
  min_by-All P [] h e = cc
  min_by-All P (y ∷ ys) (h, hs) e = rw (← some-injective _ _ e) (min_from-All P y ys h hs)

  min_by-none : (xs : List (Driver F × F)) → min_by xs ≡ none → All (λ _. ⊥) xs
  min_by-none [] e = tt
  min_by-none (y ∷ ys) e = cc

  pub nearest_driver-IsEligible :
      (pickup : GeoPoint F) (candidates : List (Driver F)) (radius_km : ℕ) (x : Driver F × F)
      → nearest_driver pickup candidates radius_km ≡ ok x
      → IsEligible pickup radius_km candidates x
  unfolding nearest_driver
  nearest_driver-IsEligible pickup cs r x h = elim (Option-cases (min_by (reachable pickup cs r))) [
    | inl nobody ↦ absurd (ground (arith, nobody))
    | inr (y, found) ↦
        let same : y ≡ x = ground (arith, found) in
        subst (λ z. IsEligible pickup r cs z) same
          (min_by-All _ _ (reachable-IsEligible pickup r cs) found)
  ]

  module _ (laws : IsOrdered F) where
    open laws use {total_refl, total_trans, total_total}

    closer-le : (x y : Driver F × F) → ((closer x y).1 ⊑ x.1) × ((closer x y).1 ⊑ y.1)
    closer-le x y = ground (arith, total_total x.1 y.1, total_refl x.1, total_refl y.1)

    min_from-le :
        (best : Driver F × F) (xs : List (Driver F × F))
        → ((min_from best xs).1 ⊑ best.1) × All (λ x. (min_from best xs).1 ⊑ x.1) xs
    min_from-le best [] = (total_refl best.1, tt)
    min_from-le best (x ∷ xs) =
        let (up, rest) = min_from-le (closer best x) xs in
        let (left, right) = closer-le best x in
        (total_trans _ _ _ up left, (total_trans _ _ _ up right, rest))

    min_by-Chosen :
        (xs : List (Driver F × F)) {x : Driver F × F} → min_by xs ≡ some x → All (λ y. x.1 ⊑ y.1) xs
    min_by-Chosen [] e = cc
    min_by-Chosen (y ∷ ys) e =
        subst (λ x. All (λ z. x.1 ⊑ z.1) (y ∷ ys)) (some-injective _ _ e) (min_from-le y ys)

    -- For floats with the laws of the two orders: a driver that is found is one of the candidates,
    -- available, at its measured distance, which is within the radius, and no available candidate
    -- within the radius comes before it by `total_cmp`. The only error is that no driver is in range,
    -- and then no available candidate is within the radius.
    pub nearest_driver-IsChosen :
        (pickup : GeoPoint F) (candidates : List (Driver F)) (radius_km : ℕ)
        → IsChosen pickup candidates radius_km (nearest_driver pickup candidates radius_km)
    unfolding nearest_driver
    nearest_driver-IsChosen pickup cs r = elim (Option-cases (min_by (reachable pickup cs r))) [
      | inl nobody ↦
          rw nobody (refl, AllEligible-of_reachable pickup r (λ _. ⊥) cs (min_by-none _ nobody))
      | inr (x, found) ↦ rw found (
        min_by-All _ _ (reachable-IsEligible pickup r cs) found,
        AllEligible-of_reachable pickup r (λ y. x.1 ⊑ y.1) cs (min_by-Chosen _ found),
      )
    ]

  -- The only error is that no driver is in range.
  pub nearest_driver-err :
      (pickup : GeoPoint F) (candidates : List (Driver F)) (radius_km : ℕ) (e : CoreError F)
      → nearest_driver pickup candidates radius_km ≡ err e
      → e ≡ no_driver_in_range radius_km
  unfolding nearest_driver
  nearest_driver-err pickup cs r e h = elim (Option-cases (min_by (reachable pickup cs r))) [
    | inl nobody ↦ ground (arith, nobody)
    | inr (x, found) ↦ absurd (ground (arith, found))
  ]
