-- ===== src/Core/Geo/Widen.antt =====
-- A wider radius never changes the driver that a narrower one already finds.
use mathlib.Core.Option.{some-injective}
use velocity_dispatch.Prelude.{
  ℕ, ◌≤◌, ◌≡◌, refl, sym, ap, ◌∙◌, inl, inr, true, false, List, [], ◌∷◌, some, ok, filter,
  Bool-cases, Option-cases, arith,
}
use velocity_dispatch.Float.{Float, ◌≼◌, ◌⊑◌, IsOrdered}
use velocity_dispatch.Core.Model.{GeoPoint, Driver}
use velocity_dispatch.Core.Geo.{closer, min_from, min_by, in_radius, reachable, nearest_driver}

module _ {F : Type 0} ⦃f : Float F⦄ (laws : IsOrdered F) (r s : ℕ) (wider : r ≤ s) where
  open f use {le, of_ℕ}
  open laws use {refl_of_le, le_trans, le_of_total, total_total, of_ℕ_mono}

  near_of_total :
      (x y : Driver F × F) → x.1 ≼ of_ℕ s → in_radius r y ≡ true → x.1 ⊑ y.1 → in_radius r x ≡ true
  near_of_total x y num near below =
      le_trans _ _ _ (le_of_total _ _ (refl_of_le _ _ num).0 (refl_of_le _ _ near).0 below) near

  widen : (x : Driver F × F) → in_radius r x ≡ true → in_radius s x ≡ true
  widen x near = le_trans _ _ _ near (of_ℕ_mono r s wider)

  -- A far value never replaces a near one.
  closer-keep :
      (b x : Driver F × F)
      → in_radius r b ≡ true
      → in_radius r x ≡ false
      → in_radius s x ≡ true
      → closer b x ≡ b
  closer-keep b x near far ins = ground (arith, total_total b.1 x.1, near_of_total x b ins near)

  -- A near value always replaces a far one.
  closer-take :
      (b x : Driver F × F)
      → in_radius r b ≡ false
      → in_radius s b ≡ true
      → in_radius r x ≡ true
      → closer b x ≡ x
  closer-take b x far ins near = ground (arith, near_of_total b x ins near)

  closer-far :
      (b x : Driver F × F)
      → in_radius r b ≡ false
      → in_radius s b ≡ true
      → in_radius r x ≡ false
      → in_radius s x ≡ true
      → (in_radius r (closer b x) ≡ false) × (in_radius s (closer b x) ≡ true)
  closer-far b x h i j k = ground arith

  closer-near :
      (b x : Driver F × F)
      → in_radius r b ≡ true
      → in_radius r x ≡ true
      → in_radius r (closer b x) ≡ true
  closer-near b x h i = ground arith

  abbrev scan : List (Driver F × F) → Driver F × F → Driver F × F
  scan xs b = min_from b (filter (in_radius s) xs)

  min_from-widen :
      (b : Driver F × F) (xs : List (Driver F × F))
      → in_radius r b ≡ true
      → min_from b (filter (in_radius r) xs) ≡ min_from b (filter (in_radius s) xs)
  min_from-widen b [] near = refl
  min_from-widen b (x ∷ xs) near = elim (Bool-cases (in_radius r x)) [
    | inl h ↦ rw (h, widen x h) (min_from-widen (closer b x) xs (closer-near b x near h))
    | inr h ↦ elim (Bool-cases (in_radius s x)) [
      | inl k ↦ rw (h, k) (min_from-widen b xs near ∙ ap (scan xs) (sym (closer-keep b x near h k)))
      | inr k ↦ rw (h, k) (min_from-widen b xs near)
    ]
  ]

  -- Before the first near value, the wider scan holds a far one.
  min_from-far :
      (b : Driver F × F) (xs : List (Driver F × F)) {x : Driver F × F}
      → in_radius r b ≡ false
      → in_radius s b ≡ true
      → min_by (filter (in_radius r) xs) ≡ some x
      → min_from b (filter (in_radius s) xs) ≡ x
  min_from-far b [] far ins e = cc
  min_from-far b (x ∷ xs) far ins e = elim (Bool-cases (in_radius r x)) [
    | inl h ↦ rw (widen x h) (
        ap (scan xs) (closer-take b x far ins h)
        ∙ sym (min_from-widen x xs h)
        ∙ some-injective _ _ (rw h at e))
    | inr h ↦ elim (Bool-cases (in_radius s x)) [
      | inl k ↦
          rw k (
            let (i, j) = closer-far b x far ins h k in min_from-far (closer b x) xs i j (rw h at e))
      | inr k ↦ rw k (min_from-far b xs far ins (rw h at e))
    ]
  ]

  min_by-widen :
      (xs : List (Driver F × F)) {x : Driver F × F}
      → min_by (filter (in_radius r) xs) ≡ some x
      → min_by (filter (in_radius s) xs) ≡ some x
  min_by-widen [] e = e
  min_by-widen (x ∷ xs) e = elim (Bool-cases (in_radius r x)) [
    | inl h ↦ rw (widen x h) (ap some (sym (min_from-widen x xs h)) ∙ rw h at e)
    | inr h ↦ elim (Bool-cases (in_radius s x)) [
      | inl k ↦ rw k (ap some (min_from-far x xs h k (rw h at e)))
      | inr k ↦ rw k (min_by-widen xs (rw h at e))
    ]
  ]

  -- For floats with the laws of the two orders: if a driver is found within r km, the same one is found, at the same distance, within any s km
  -- with r ≤ s.
  pub nearest_driver_widen :
      (pickup : GeoPoint F) (candidates : List (Driver F)) (x : Driver F × F)
      → nearest_driver pickup candidates r ≡ ok x
      → nearest_driver pickup candidates s ≡ ok x
  unfolding nearest_driver
  nearest_driver_widen pickup cs x e = elim (Option-cases (min_by (reachable pickup cs r))) [
    | inl nobody ↦ absurd (ground (arith, nobody))
    | inr (y, found) ↦ rw (min_by-widen _ found) (ground (arith, found))
  ]
