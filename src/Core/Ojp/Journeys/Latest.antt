-- ===== src/Core/Ojp/Journeys/Latest.antt =====
-- What the board of `keep_latest_per_journey` (core/src/ojp.rs) shows of a journey.
use traintime_api.Common.{
  ◌≡◌, refl, ◌∙◌, ◌⊎◌, inl, inr, true, Option, none, some, List, [], ◌∷◌, map, arith, if◌then◌else◌,
  Bool-cases, Elem, Text, text_eq, text_eq_iff, ltb_ℤ, ◌≤ℤ◌, Elem-sort_by_key, sort_by_key,
}
use traintime_api.Core.Ojp.{FlatDeparture}
use traintime_api.Core.Ojp.Journeys.{Event, keep_latest_per_journey}
use traintime_api.Core.Ojp.Journeys.Collapse.{later, row_of, latest_from}
use traintime_api.Core.Ojp.Journeys.Laws.{keep_latest_per_journey_lem}

later_bounds :
    (old e : FlatDeparture)
    → (old.departure ≤ℤ (later old e).departure) × (e.departure ≤ℤ (later old e).departure)
unfolding later
later_bounds old e = elim (Bool-cases (ltb_ℤ old.departure e.departure)) [
  | inl newer ↦ rw newer (ground arith, omega arith)
  | inr older ↦ rw older (omega arith, ground arith)
]

later_cases : (old e : FlatDeparture) → (later old e ≡ old) ⊎ (later old e ≡ e)
unfolding later
later_cases old e = elim (Bool-cases (ltb_ℤ old.departure e.departure)) [
  | inl newer ↦ inr (rw newer refl)
  | inr older ↦ inl (rw older refl)
]

-- The best so far is never given up for an earlier one.
latest_from-ge_best :
    (key : Text) (best : FlatDeparture) (events : List Event)
    → (d : FlatDeparture) × (latest_from key (some best) events ≡ some d)
      × (best.departure ≤ℤ d.departure)
unfolding latest_from
latest_from-ge_best key best [] = (best, refl, omega arith)
latest_from-ge_best key best ((none, e) ∷ events) = latest_from-ge_best key best events
latest_from-ge_best key best ((some j, e) ∷ events) = elim (Bool-cases (text_eq j key)) [
  | inl same ↦
      let (d, found, ge) = latest_from-ge_best key (later best e) events in
      (d, rw same found, omega (arith, (later_bounds best e).0))
  | inr other ↦ let (d, found, ge) = latest_from-ge_best key best events in (d, rw other found, ge)
]

latest_from-ge :
    (key : Text) (best : Option FlatDeparture) (e : FlatDeparture) (events : List Event)
    → Elem (some key, e) events
    → (d : FlatDeparture) × (latest_from key best events ≡ some d) × (e.departure ≤ℤ d.departure)
unfolding latest_from
latest_from-ge key best e [] m = elim m [ ]
latest_from-ge key best e ((none, f) ∷ events) m =
    latest_from-ge key best e events (elim m [ inl same ↦ absurd (cc) | inr rest ↦ rest ])
latest_from-ge key none e ((some j, f) ∷ events) (inl same) =
    let k : text_eq j key ≡ true = (text_eq_iff j key).1 (cc) in
    let g : e ≡ f = cc in
    let (d, found, ge) = latest_from-ge_best key f events in (d, rw k found, rw g ge)
latest_from-ge key (some best) e ((some j, f) ∷ events) (inl same) =
    let k : text_eq j key ≡ true = (text_eq_iff j key).1 (cc) in
    let g : e ≡ f = cc in
    let (d, found, ge) = latest_from-ge_best key (later best f) events in
    (d, rw k found, rw g (omega (arith, (later_bounds best f).1)))
latest_from-ge key best e ((some j, f) ∷ events) (inr rest) =
    latest_from-ge key
      (let better : Option FlatDeparture = elim best [
        | none ↦ some f
        | some d ↦ some (later d f)
      ] in
        if text_eq j key then better else best)
      e events rest

latest_from-Elem :
    (key : Text) (best : Option FlatDeparture) (d : FlatDeparture) (events : List Event)
    → latest_from key best events ≡ some d
    → (best ≡ some d) ⊎ Elem (some key, d) events
unfolding latest_from
latest_from-Elem key best d [] h = inl h
latest_from-Elem key best d ((none, f) ∷ events) h =
    ground (arith, latest_from-Elem key best d events)
latest_from-Elem key none d ((some j, f) ∷ events) h = elim (Bool-cases (text_eq j key)) [
  | inl same ↦ elim (latest_from-Elem key (some f) d events (rw same at h)) [
    | inl e ↦ let k : j ≡ key = (text_eq_iff j key).0 same in let g : f ≡ d = cc in inr (inl (cc))
    | inr m ↦ inr (inr m)
  ]
  | inr other ↦ elim (latest_from-Elem key none d events (rw other at h)) [
    | inl e ↦ absurd (cc)
    | inr m ↦ inr (inr m)
  ]
]
latest_from-Elem key (some best) d ((some j, f) ∷ events) h = elim (Bool-cases (text_eq j key)) [
  | inl same ↦ elim (latest_from-Elem key (some (later best f)) d events (rw same at h)) [
    | inl e ↦
        let k : j ≡ key = (text_eq_iff j key).0 same in
        elim (later_cases best f) [
          | inl old ↦ inl (cc)
          | inr new ↦ let g : f ≡ d = cc in inr (inl (cc))
        ]
    | inr m ↦ inr (inr m)
  ]
  | inr other ↦ elim (latest_from-Elem key (some best) d events (rw other at h)) [
    | inl e ↦ inl e
    | inr m ↦ inr (inr m)
  ]
]

row_of-Elem :
    (key : Text) (d : FlatDeparture) (rows : List Event)
    → row_of key rows ≡ some d
    → Elem d (map (λ (r : Event). r.1) rows)
unfolding row_of
row_of-Elem key d [] h = absurd (cc)
row_of-Elem key d ((none, f) ∷ rows) h = inr (row_of-Elem key d rows h)
row_of-Elem key d ((some j, f) ∷ rows) h = ground (arith, row_of-Elem key d rows)

-- For every event of a journey the board has a row that is an event of the same journey and
-- leaves no earlier.
keep_latest_per_journey-Elem :
    (events : List Event) (key : Text) (e : FlatDeparture)
    → Elem (some key, e) events
    → (board : List FlatDeparture) × (d : FlatDeparture) × (keep_latest_per_journey events
        ≡ some board)
      × Elem d board
      × Elem (some key, d) events
      × (e.departure ≤ℤ d.departure)
keep_latest_per_journey-Elem events key e m =
    let (rows, shown, c) = keep_latest_per_journey_lem events in
    let (d, found, ge) = latest_from-ge key none e events m in
    let row : row_of key rows ≡ some d = c.latest key ∙ found in
    let same : Elem (some key, d) events = elim (latest_from-Elem key none d events found) [
      | inl no_best ↦ absurd (cc)
      | inr y ↦ y
    ] in
    (
      sort_by_key (λ (d : FlatDeparture). d.departure) (map (λ (r : Event). r.1) rows),
      d,
      shown,
      Elem-sort_by_key (λ (d : FlatDeparture). d.departure) d _ (row_of-Elem key d rows row),
      same,
      ge,
    )
