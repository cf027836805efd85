-- ===== src/Core/Stations/Grouping.antt =====
-- What `group_nearby` returns, as a filter of the candidates for each mode.
use traintime_api.Common.{
  ◌≤◌, ◌≡◌, refl, sym, ap, ◌∙◌, ◌⊎◌, inl, inr, Bool, not, ◌&&◌, ◌||◌, List, [], ◌∷◌, ◌++◌,
  append-nil, append_assoc, arith, if◌then◌else◌, Bool-cases, length, Elem, All, All-of_Elem, Text,
  codes, text_eq, ◌≤ℤ◌, sort_by_key, IsSorted, sort_by_key-IsSorted, Elem-sort_by_key,
  Elem-of_sort_by_key, Elem-take, take-Elem_of_IsSorted, take-IsSorted, length-take-le,
}
use mathlib.Core.Path.{subst}
use traintime_api.Common.Float.{Float64}
use traintime_api.Core.Geo.{haversine_distance, max_distance}
use traintime_api.Core.Stations.{
  Station, NearbyStation, ModeGroups, entry_at, push, bucket, nearest, group_nearby,
}

abbrev pub is_bus : Text → Bool
is_bus mode = text_eq mode (codes "bus")

abbrev pub is_tram : Text → Bool
is_tram mode = text_eq mode (codes "tram") && not (is_bus mode)

abbrev pub is_special : Text → Bool
is_special mode = text_eq mode (codes "special") && not (is_bus mode || text_eq mode (codes "tram"))

-- Every mode but the other three counts as a train.
abbrev pub is_train : Text → Bool
is_train mode = not (is_bus mode || text_eq mode (codes "tram") || text_eq mode (codes "special"))

module _ (f : Float64) (lat lon : f.F) where
  abbrev is_near : Station f → Bool
  is_near row = not (f.gt (haversine_distance f lat lon row.lat row.lon) (max_distance f))

  -- The entries of the candidates in range whose mode passes the test, in their order.
  pub eligible : (Text → Bool) → List (Station f) → List (NearbyStation f)
  eligible test [] = []
  eligible test (row ∷ rows) =
      if is_near row && test row.mode
      then entry_at f lat lon row ∷ eligible test rows
      else eligible test rows

  -- One argument for the four groups: the loop appends to a group what the group's test selects.
  bucket-eligible :
      (group : ModeGroups f → List (NearbyStation f)) (test : Text → Bool)
      → ((g : ModeGroups f) (mode : Text) (e : NearbyStation f)
          → group (push f g mode e) ≡ (if test mode then group g ++ e ∷ [] else group g))
      → (g : ModeGroups f) (rows : List (Station f))
      → group (bucket f lat lon g rows) ≡ group g ++ eligible test rows
  unfolding bucket eligible
  bucket-eligible group test pushes g [] = sym (append-nil (group g))
  bucket-eligible group test pushes g (row ∷ rows) =
      let e : NearbyStation f = entry_at f lat lon row in
      let far = f.gt (haversine_distance f lat lon row.lat row.lon) (max_distance f) in
      bucket-eligible group test pushes (if far then g else push f g row.mode e) rows
      ∙ elim (Bool-cases far) [
        | inl out ↦ rw (out) refl
        | inr near ↦ rw near (elim (Bool-cases (test row.mode)) [
          | inl mine ↦ rw mine (
              ap (λ l. l ++ eligible test rows) (pushes g row.mode e ∙ (rw mine refl))
              ∙ append_assoc (group g) (e ∷ []) (eligible test rows))
          | inr other ↦
              rw other (ap (λ l. l ++ eligible test rows) (pushes g row.mode e ∙ (rw other refl)))
        ])
      ]

  push-bus :
      (g : ModeGroups f) (mode : Text) (e : NearbyStation f)
      → (push f g mode e).bus ≡ (if is_bus mode then g.bus ++ e ∷ [] else g.bus)
  unfolding push
  push-bus g mode e = ground arith

  push-tram :
      (g : ModeGroups f) (mode : Text) (e : NearbyStation f)
      → (push f g mode e).tram ≡ (if is_tram mode then g.tram ++ e ∷ [] else g.tram)
  unfolding push
  push-tram g mode e = ground arith

  push-special :
      (g : ModeGroups f) (mode : Text) (e : NearbyStation f)
      → (push f g mode e).special ≡ (if is_special mode then g.special ++ e ∷ [] else g.special)
  unfolding push
  push-special g mode e = ground arith

  push-train :
      (g : ModeGroups f) (mode : Text) (e : NearbyStation f)
      → (push f g mode e).train ≡ (if is_train mode then g.train ++ e ∷ [] else g.train)
  unfolding push
  push-train g mode e = ground arith

  -- Each group is the nearest five of the candidates in range that have its mode.
  group_nearby_lem :
      (rows : List (Station f))
      → ((group_nearby f rows lat lon).train ≡ nearest f (eligible is_train rows))
        × ((group_nearby f rows lat lon).bus ≡ nearest f (eligible is_bus rows))
        × ((group_nearby f rows lat lon).tram ≡ nearest f (eligible is_tram rows))
        × ((group_nearby f rows lat lon).special ≡ nearest f (eligible is_special rows))
  unfolding group_nearby
  group_nearby_lem rows = (
    ap (nearest f) (bucket-eligible (λ g. g.train) is_train push-train _ rows),
    ap (nearest f) (bucket-eligible (λ g. g.bus) is_bus push-bus _ rows),
    ap (nearest f) (bucket-eligible (λ g. g.tram) is_tram push-tram _ rows),
    ap (nearest f) (bucket-eligible (λ g. g.special) is_special push-special _ rows),
  )

  -- A group of five at most, by ascending distance, all of them eligible, from which an eligible
  -- station is missing only if all five are at most as far.
  pub record IsNearest (all group : List (NearbyStation f)) : Type 0 where
    pub short : length group ≤ 5
    pub ascending : IsSorted (λ (s : NearbyStation f). s.dist) group
    pub sound : All (λ (e : NearbyStation f). Elem e all) group
    pub best :
        All
          (λ (e : NearbyStation f).
            Elem e group
            ⊎ ((length group ≡ 5) × All (λ (s : NearbyStation f). s.dist ≤ℤ e.dist) group))
          all

  nearest-IsNearest : (all : List (NearbyStation f)) → IsNearest all (nearest f all)
  unfolding nearest
  nearest-IsNearest all =
      let key = λ (s : NearbyStation f). s.dist in
      let sorted = sort_by_key-IsSorted key all in
      record {
        short = length-take-le 5 (sort_by_key key all);
        ascending = take-IsSorted key 5 (sort_by_key key all) sorted;
        sound =
            All-of_Elem _ (nearest f all)
              λ e m. Elem-of_sort_by_key key e all (Elem-take 5 e (sort_by_key key all) m);
        best = All-of_Elem _ all λ e m.
            take-Elem_of_IsSorted key 5 e (sort_by_key key all) sorted
              (Elem-sort_by_key key e all m);
      }

  -- Each group has at most five stations by ascending distance, each of them a candidate in range and
  -- of the group's mode, and such a candidate is missing only if five stations at most as far are shown.
  pub group_nearby-IsNearest :
      (rows : List (Station f))
      → IsNearest (eligible is_train rows) (group_nearby f rows lat lon).train
        × IsNearest (eligible is_bus rows) (group_nearby f rows lat lon).bus
        × IsNearest (eligible is_tram rows) (group_nearby f rows lat lon).tram
        × IsNearest (eligible is_special rows) (group_nearby f rows lat lon).special
  group_nearby-IsNearest rows =
      let (train, bus, tram, special) = group_nearby_lem rows in
      (
        subst (IsNearest (eligible is_train rows)) (sym train) (nearest-IsNearest _),
        subst (IsNearest (eligible is_bus rows)) (sym bus) (nearest-IsNearest _),
        subst (IsNearest (eligible is_tram rows)) (sym tram) (nearest-IsNearest _),
        subst (IsNearest (eligible is_special rows)) (sym special) (nearest-IsNearest _),
      )
