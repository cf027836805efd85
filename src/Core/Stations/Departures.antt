-- ===== src/Core/Stations/Departures.antt =====
-- The station whose departures are embedded, and where they are attached.
use traintime_api.Common.{
  ◌≡◌, refl, ◌↔◌, ◌⊎◌, inl, inr, Option, none, some, List, [], ◌∷◌, arith, if◌then◌else◌,
  Bool-cases, Option-cases, Elem, Text, codes, text_eq, text_eq_iff,
}
use traintime_api.Common.Float.{Float64}
use traintime_api.Core.Ojp.{FlatDeparture}
use traintime_api.Core.Stations.{
  NearbyStation, ModeGroups, attach, attach_departures, first_id, default_station_id,
}

module _ (f : Float64) where
  -- One of the four groups holds the station.
  abbrev pub IsShown : ModeGroups f → NearbyStation f → Type 0
  IsShown g s = Elem s g.train ⊎ (Elem s g.bus ⊎ (Elem s g.tram ⊎ Elem s g.special))

  abbrev Stations : Type 0
  Stations = List (NearbyStation f)

  first_id-some :
      (a b c d : Stations) (id : Text)
      → first_id f (a ∷ b ∷ c ∷ d ∷ []) ≡ some id
      → (s : NearbyStation f) × (s.id ≡ id) × (Elem s a ⊎ (Elem s b ⊎ (Elem s c ⊎ Elem s d)))
  unfolding first_id
  first_id-some (s ∷ a) b c d id h = (s, ground arith, inl (inl refl))
  first_id-some [] (s ∷ b) c d id h = (s, ground arith, inr (inl (inl refl)))
  first_id-some [] [] (s ∷ c) d id h = (s, ground arith, inr (inr (inl (inl refl))))
  first_id-some [] [] [] (s ∷ d) id h = (s, ground arith, inr (inr (inr (inl refl))))
  first_id-some [] [] [] [] id h = absurd (cc)

  first_id-none :
      (a b c d : Stations) (s : NearbyStation f)
      → first_id f (a ∷ b ∷ c ∷ d ∷ []) ≡ none
      → ¬ (Elem s a ⊎ (Elem s b ⊎ (Elem s c ⊎ Elem s d)))
  unfolding first_id
  first_id-none [] [] [] [] s h m = ground arith
  first_id-none [] [] [] (x ∷ d) s h m = cc
  first_id-none [] [] (x ∷ c) d s h m = cc
  first_id-none [] (x ∷ b) c d s h m = cc
  first_id-none (x ∷ a) b c d s h m = cc

  default_station_id-some :
      (g : ModeGroups f) (mode : Option Text) (id : Text)
      → default_station_id f g mode ≡ some id
      → (s : NearbyStation f) × (s.id ≡ id) × IsShown g s
  unfolding default_station_id
  default_station_id-some g none id h = first_id-some g.train g.bus g.tram g.special id h
  default_station_id-some g (some mode) id h = elim (Bool-cases (text_eq mode (codes "bus"))) [
    | inl bus ↦
        let (s, same, m) = first_id-some g.bus g.train g.tram g.special id (rw bus at h) in
        (s, same, ground arith)
    | inr not_bus ↦ elim (Bool-cases (text_eq mode (codes "tram"))) [
      | inl tram ↦
          let (s, same, m) =
            first_id-some g.tram g.train g.bus g.special id (rw (not_bus, tram) at h) in
          (s, same, ground arith)
      | inr not_tram ↦ elim (Bool-cases (text_eq mode (codes "special"))) [
        | inl special ↦
            let (s, same, m) =
              first_id-some g.special g.train g.bus g.tram id
                (rw (not_bus, not_tram, special) at h) in
            (s, same, ground arith)
        | inr other ↦
            first_id-some g.train g.bus g.tram g.special id (rw (not_bus, not_tram, other) at h)
      ]
    ]
  ]

  default_station_id-none :
      (g : ModeGroups f) (mode : Option Text) (s : NearbyStation f)
      → default_station_id f g mode ≡ none
      → ¬ IsShown g s
  unfolding default_station_id
  default_station_id-none g none s h = first_id-none g.train g.bus g.tram g.special s h
  default_station_id-none g (some mode) s h = ground (
    arith,
    first_id-none g.train g.bus g.tram g.special s,
    first_id-none g.bus g.train g.tram g.special s,
    first_id-none g.tram g.train g.bus g.special s,
    first_id-none g.special g.train g.bus g.tram s,
  )

  -- Whatever mode is asked for, no station is chosen exactly if the groups show none.
  default_station_id-eq-none_iff :
      (g : ModeGroups f) (mode : Option Text)
      → (default_station_id f g mode ≡ none) ↔ ((s : NearbyStation f) → ¬ IsShown g s)
  default_station_id-eq-none_iff g mode = (
    (λ h s. default_station_id-none g mode s h),
    (λ nothing. elim (Option-cases (default_station_id f g mode)) [
      | inl e ↦ e
      | inr (id, e) ↦
          let (s, same, shown) = default_station_id-some g mode id e in absurd (nothing s shown)
    ]),
  )

  -- The station under an id gets the departures, every other station stays as it is.
  pub update : Text → List FlatDeparture → NearbyStation f → NearbyStation f
  update id ds s = if text_eq s.id id then record s { departures = some ds } else s

  attach-Elem :
      (id : Text) (ds : List FlatDeparture) (s : NearbyStation f) (l : Stations)
      → Elem s l
      → Elem (update id ds s) (attach f id ds l)
  unfolding attach update
  attach-Elem id ds s [] m = elim m [ ]
  attach-Elem id ds s (x ∷ l) (inl e) = inl (rw e refl)
  attach-Elem id ds s (x ∷ l) (inr m) = inr (attach-Elem id ds s l m)

  attach-Elem_inv :
      (id : Text) (ds : List FlatDeparture) (t : NearbyStation f) (l : Stations)
      → Elem t (attach f id ds l)
      → (s : NearbyStation f) × Elem s l × (t ≡ update id ds s)
  unfolding attach update
  attach-Elem_inv id ds t [] m = elim m [ ]
  attach-Elem_inv id ds t (x ∷ l) (inl e) = (x, inl refl, e)
  attach-Elem_inv id ds t (x ∷ l) (inr m) =
      let (s, here, e) = attach-Elem_inv id ds t l m in (s, inr here, e)

  attach_departures-IsShown :
      (g : ModeGroups f) (id : Text) (ds : List FlatDeparture) (s : NearbyStation f)
      → IsShown g s
      → IsShown (attach_departures f g id ds) (update id ds s)
  unfolding attach_departures
  attach_departures-IsShown g id ds s m = ground (
    arith,
    attach-Elem id ds s g.train,
    attach-Elem id ds s g.bus,
    attach-Elem id ds s g.tram,
    attach-Elem id ds s g.special,
  )

  -- What is shown after departures are attached is a station shown before, changed only if its id
  -- is the given one.
  attach_departures-IsShown_inv :
      (g : ModeGroups f) (id : Text) (ds : List FlatDeparture) (t : NearbyStation f)
      → IsShown (attach_departures f g id ds) t
      → (s : NearbyStation f) × IsShown g s × (t ≡ update id ds s)
  unfolding attach_departures
  attach_departures-IsShown_inv g id ds t (inl m) =
      let (s, here, e) = attach-Elem_inv id ds t g.train m in (s, inl here, e)
  attach_departures-IsShown_inv g id ds t (inr (inl m)) =
      let (s, here, e) = attach-Elem_inv id ds t g.bus m in (s, inr (inl here), e)
  attach_departures-IsShown_inv g id ds t (inr (inr (inl m))) =
      let (s, here, e) = attach-Elem_inv id ds t g.tram m in (s, inr (inr (inl here)), e)
  attach_departures-IsShown_inv g id ds t (inr (inr (inr m))) =
      let (s, here, e) = attach-Elem_inv id ds t g.special m in (s, inr (inr (inr here)), e)

  update_hit :
      (id : Text) (ds : List FlatDeparture) (s : NearbyStation f)
      → s.id ≡ id
      → ((update id ds s).id ≡ id) × ((update id ds s).departures ≡ some ds)
  unfolding update
  update_hit id ds s e = rw ((text_eq_iff s.id id).1 e, update) (e, refl)

  -- Departures attached under the chosen id land on a station that is shown.
  pub attach_departures-default_station_id :
      (g : ModeGroups f) (mode : Option Text) (id : Text) (ds : List FlatDeparture)
      → default_station_id f g mode ≡ some id
      → (t : NearbyStation f) × (t.id ≡ id)
        × (t.departures ≡ some ds)
        × IsShown (attach_departures f g id ds) t
  attach_departures-default_station_id g mode id ds h =
      let (s, same, shown) = default_station_id-some g mode id h in
      let (id_kept, attached) = update_hit id ds s same in
      (update id ds s, id_kept, attached, attach_departures-IsShown g id ds s shown)
