-- ===== src/System/Overlap/Shown.antt =====
-- The candidates of a transaction stay the same rows of the table while it holds them: with every
-- other row hidden, the table shows just these.
use velocity_dispatch.Prelude.{
  ◌≡◌, refl, sym, ◌∙◌, ap, inl, inr, Bool, true, false, not, ◌&&◌, List, [], ◌∷◌, ◌++◌, map, filter,
  Memᴰ, All, All-mem, All-mono, Bool-cases, ==_iff, ==_refl, arith,
}
use velocity_dispatch.Core.Model.{Uuid, DateTime, Driver}
use velocity_dispatch.Store.{DriverRow, has, is_key, update_where}
use velocity_dispatch.Api.Db.{driver_key, upsert_rows, moved}
use velocity_dispatch.Worker.Db.{selectable, candidate}
use velocity_dispatch.System.Overlap.{candidate_key}

and_false : (b : Bool) → (b && false) ≡ false
and_false b = ground arith

module _ {F : Type 0} where
  -- All rows but those of the candidates.
  abbrev pub others : List (Driver F) → Uuid → Bool
  others cs k = not (has candidate_key k cs)

  abbrev pub Shows : (Uuid → DateTime) → List (DriverRow F) → List (Driver F) → Type 0
  Shows clock rows cs = map (candidate clock) (filter (selectable (others cs)) rows) ≡ cs

  has-candidates :
      (clock : Uuid → DateTime) (k : Uuid) (rows : List (DriverRow F))
      → has candidate_key k (map (candidate clock) rows) ≡ has driver_key k rows
  has-candidates clock k [] = refl
  has-candidates clock k (r ∷ rs) = ground (arith, has-candidates clock k rs)

  unlocked :
      (locked : Uuid → Bool) (r : DriverRow F) → selectable locked r ≡ true → locked r.id ≡ false
  unlocked locked r h = ground arith

  -- A row that is kept is not locked.
  has-selectable :
      (locked : Uuid → Bool) (k : Uuid) (rows : List (DriverRow F))
      → has driver_key k (filter (selectable locked) rows) ≡ true
      → locked k ≡ false
  has-selectable locked k [] h = cc
  has-selectable locked k (r ∷ rs) h = elim (Bool-cases (selectable locked r)) [
    | inl kept ↦ elim (Bool-cases (is_key driver_key k r)) [
      | inl e ↦ rw (← (==_iff r.id k).0 e) (unlocked locked r kept)
      | inr e ↦ has-selectable locked k rs (rw e at (rw kept at h))
    ]
    | inr dropped ↦ has-selectable locked k rs (rw dropped at h)
  ]

  pub has-shown :
      (clock : Uuid → DateTime) (locked : Uuid → Bool) (k : Uuid) (rows : List (DriverRow F))
      → has candidate_key k (map (candidate clock) (filter (selectable locked) rows)) ≡ true
      → locked k ≡ false
  has-shown clock locked k rows h =
      has-selectable locked k rows
        (sym (has-candidates clock k (filter (selectable locked) rows)) ∙ h)

  has-own :
      (p : DriverRow F → Bool) (r : DriverRow F) (rows : List (DriverRow F))
      → Memᴰ r rows
      → p r ≡ true
      → has driver_key r.id (filter p rows) ≡ true
  has-own p r [] m h = elim m [ ]
  has-own p r (x ∷ xs) (Memᴰ.head e) h = rw (← e) (rw h (rw (==_refl r.id)))
  has-own p r (x ∷ xs) (Memᴰ.tail m) h = elim (Bool-cases (p x)) [
    | inl kept ↦ rw kept (ground (arith, has-own p r xs m h))
    | inr dropped ↦ rw dropped (has-own p r xs m h)
  ]

  filter-congr :
      (p q : DriverRow F → Bool) (rows : List (DriverRow F))
      → All (λ r. p r ≡ q r) rows
      → filter p rows ≡ filter q rows
  filter-congr p q [] h = refl
  filter-congr p q (r ∷ rs) (h, hs) = rw h (rw (filter-congr p q rs hs))

  -- What a select returns is shown.
  pub select-Shows :
      (clock : Uuid → DateTime) (locked : Uuid → Bool) (rows : List (DriverRow F))
      → Shows clock rows (map (candidate clock) (filter (selectable locked) rows))
  select-Shows clock locked rows = ap (map (candidate clock)) (
      filter-congr (selectable (others cs)) (selectable locked) rows
        (All-mono _ _ rows (λ r m. same r m) (All-mem rows)))
    where
      cs : List (Driver F)
      cs = map (candidate clock) (filter (selectable locked) rows)

      same : (r : DriverRow F) → Memᴰ r rows → selectable (others cs) r ≡ selectable locked r
      same r m = elim (Bool-cases (has driver_key r.id (filter (selectable locked) rows))) [
        | inl there ↦
            rw (has-candidates clock r.id (filter (selectable locked) rows))
              (rw (there, has-selectable locked r.id rows there))
        | inr absent ↦ rw (has-candidates clock r.id (filter (selectable locked) rows)) (
            rw absent (elim (Bool-cases (selectable locked r)) [
              | inl kept ↦ cc (has-own (selectable locked) r rows m kept)
              | inr dropped ↦ and_false _ ∙ sym dropped
            ]))
      ]

  filter-update_where :
      (p q : DriverRow F → Bool) (g : DriverRow F → DriverRow F) (rows : List (DriverRow F))
      → ((r : DriverRow F) → q r ≡ true → p r ≡ false)
      → ((r : DriverRow F) → q r ≡ true → p (g r) ≡ false)
      → filter p (update_where q g rows) ≡ filter p rows
  filter-update_where p q g [] out out' = refl
  filter-update_where p q g (r ∷ rs) out out' = elim (Bool-cases (q r)) [
    | inl e ↦ rw e (rw (out r e, out' r e) (filter-update_where p q g rs out out'))
    | inr e ↦ rw e (rw (filter-update_where p q g rs out out'))
  ]

  filter-append :
      (p : DriverRow F → Bool) (rows : List (DriverRow F)) (r : DriverRow F)
      → p r ≡ false
      → filter p (rows ++ r ∷ []) ≡ filter p rows
  filter-append p [] r out = rw out
  filter-append p (x ∷ xs) r out = rw (filter-append p xs r out)

  hidden :
      (cs : List (Driver F)) (id : Uuid) (r : DriverRow F)
      → has candidate_key id cs ≡ false
      → is_key driver_key id r ≡ true
      → selectable (others cs) r ≡ false
  hidden cs id r out e = rw ((==_iff r.id id).0 e) (rw out (and_false _))

  -- A change of a row that is no candidate.
  pub update-Shows :
      (clock : Uuid → DateTime) (id : Uuid) (g : DriverRow F → DriverRow F)
      (rows : List (DriverRow F)) (cs : List (Driver F))
      → ((r : DriverRow F) → (g r).id ≡ r.id)
      → has candidate_key id cs ≡ false
      → Shows clock rows cs
      → Shows clock (update_where (is_key driver_key id) g rows) cs
  update-Shows clock id g rows cs keeps out h =
      ap (map (candidate clock)) (
        filter-update_where (selectable (others cs)) (is_key driver_key id) g rows
          (λ r e. hidden cs id r out e) (λ r e. hidden cs id (g r) out (rw (keeps r) e)))
      ∙ h

  pub upsert-Shows :
      (clock : Uuid → DateTime) (r : DriverRow F) (rows : List (DriverRow F)) (cs : List (Driver F))
      → has candidate_key r.id cs ≡ false
      → Shows clock rows cs
      → Shows clock (upsert_rows r rows) cs
  unfolding upsert_rows
  upsert-Shows clock r rows cs out h = elim (Bool-cases (has driver_key r.id rows)) [
    | inl e ↦ rw e (update-Shows clock r.id (moved r) rows cs (λ _. refl) out h)
    | inr e ↦ rw e (
        ap (map (candidate clock))
          (filter-append (selectable (others cs)) rows r (hidden cs r.id r out (==_refl r.id)))
        ∙ h)
  ]
