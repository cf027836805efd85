-- ===== src/Core/Ojp/Journeys/Laws.antt =====
-- The loop of `keep_latest_per_journey` (core/src/ojp.rs) over indices, next to the collapse
-- without them.
use traintime_api.Common.{
  ℕ, ◌≡◌, refl, sym, ap, ◌∙◌, inl, inr, none, some, List, [], ◌∷◌, ◌++◌, map, arith, Bool-cases,
  Option-cases, Text, ltb_ℤ, map-append, length, get_elem?, set, lookup, insert, lookup-insert,
  sort_by_key,
}
use traintime_api.Core.Ojp.{FlatDeparture}
use traintime_api.Core.Ojp.Journeys.{Event, Board, keep, keep_all, keep_latest_per_journey}
use traintime_api.Core.Ojp.Journeys.Collapse.{
  later, add, collapse, row_of, latest_from, unkeyed, HasDistinctJourneys, row_of-collapse,
  unkeyed-collapse, HasDistinctJourneys-collapse,
}
use traintime_api.Core.Ojp.Journeys.Index.{
  departures, index_of, index_of-concat_none, place_new, place_old, index_of-place_old,
  index_of-concat_new, set_same,
}

-- The loop's variables against the rows with their keys.
record Tracks (b : Board) (rows : List Event) : Type 0 where
  kept : b.kept ≡ departures rows
  seen : (key : Text) → lookup key b.seen ≡ index_of key rows

keep_old :
    (b : Board) (key : Text) (e : FlatDeparture) (rows : List Event) (at : ℕ)
    → Tracks b rows
    → lookup key b.seen ≡ some at
    → (b' : Board) × (keep b (some key, e) ≡ some b') × Tracks b' (add rows (some key, e))
unfolding keep add later
keep_old b key e rows at t found =
    let here : index_of key rows ≡ some at = sym (t.seen key) ∙ found in
    let (old, present, placed) = place_old key e rows at here in
    let read : get_elem? b.kept at ≡ some old = ap (λ l. get_elem? l at) t.kept ∙ present in
    elim (Bool-cases (ltb_ℤ old.departure e.departure)) [
      | inl newer ↦ (
        record b { kept = set b.kept at e },
        rw (found, keep) (rw (read, keep) (rw newer refl)),
        record {
          kept =
              ap (λ l. set l at e) t.kept
              ∙ sym (placed ∙ ap (set (departures rows) at) (rw newer refl));
          seen = λ k. t.seen k ∙ sym (index_of-place_old key k e rows at here);
        },
      )
      | inr older ↦ (
        b,
        rw (found, keep) (rw (read, keep) (rw older refl)),
        record {
          kept =
              t.kept
              ∙ sym (
                  placed
                  ∙ ap (set (departures rows) at) (rw older refl)
                  ∙ set_same (departures rows) at old present);
          seen = λ k. t.seen k ∙ sym (index_of-place_old key k e rows at here);
        },
      )
    ]

keep_new :
    (b : Board) (key : Text) (e : FlatDeparture) (rows : List Event)
    → Tracks b rows
    → lookup key b.seen ≡ none
    → (b' : Board) × (keep b (some key, e) ≡ some b') × Tracks b' (add rows (some key, e))
unfolding keep add
keep_new b key e rows t missing =
    let new : index_of key rows ≡ none = sym (t.seen key) ∙ missing in
    (
      record { kept = b.kept ++ e ∷ []; seen = insert key (length b.kept) b.seen },
      rw (missing, keep) refl,
      rw (place_new key e rows new) (record {
        kept = ap (λ l. l ++ e ∷ []) t.kept ∙ sym (map-append (λ (r : Event). r.1) rows _);
        seen = λ k. ground (
          arith,
          lookup-insert key k (length b.kept) b.seen,
          index_of-concat_new key k e rows new,
          t.seen k,
          ap (λ l. length l) t.kept,
        );
      }),
    )

keep_lem :
    (b : Board) (e : Event) (rows : List Event)
    → Tracks b rows
    → (b' : Board) × (keep b e ≡ some b') × Tracks b' (add rows e)
unfolding keep add
keep_lem b (none, e) rows t = (
  record b { kept = b.kept ++ e ∷ [] },
  refl,
  record {
    kept = ap (λ l. l ++ e ∷ []) t.kept ∙ sym (map-append (λ (r : Event). r.1) rows _);
    seen = λ k. t.seen k ∙ sym (index_of-concat_none k e rows);
  },
)
keep_lem b (some key, e) rows t = elim (Option-cases (lookup key b.seen)) [
  | inl missing ↦ keep_new b key e rows t missing
  | inr (at, found) ↦ keep_old b key e rows at t found
]

keep_all_lem :
    (b : Board) (events rows : List Event)
    → Tracks b rows
    → (b' : Board) × (keep_all b events ≡ some b') × Tracks b' (collapse rows events)
unfolding keep_all collapse
keep_all_lem b [] rows t = (b, refl, t)
keep_all_lem b (e ∷ events) rows t =
    let (b₁, stepped, t₁) = keep_lem b e rows t in
    let (b₂, ran, t₂) = keep_all_lem b₁ events (add rows e) t₁ in
    (b₂, rw (stepped, keep_all) ran, t₂)

-- The collapse of a list of events: one row for a journey, its latest event, and every event
-- without a journey in its order.
pub record IsCollapse (events rows : List Event) : Type 0 where
  pub distinct : HasDistinctJourneys rows
  pub latest : (key : Text) → row_of key rows ≡ latest_from key none events
  pub loose : unkeyed rows ≡ unkeyed events

-- The board never panics, and shows exactly the rows of a collapse of the events, in the order of
-- their departure.
pub keep_latest_per_journey_lem :
    (events : List Event)
    → (rows : List Event) × (keep_latest_per_journey events
        ≡ some (sort_by_key (λ (d : FlatDeparture). d.departure) (map (λ (r : Event). r.1) rows)))
      × IsCollapse events rows
unfolding keep_latest_per_journey
keep_latest_per_journey_lem events =
    let (b, ran, t) = keep_all_lem (record { kept = []; seen = [] }) events [] tracks_nothing in
    (
      collapse [] events,
      rw (ran, keep_latest_per_journey)
          (ap (λ l. some (sort_by_key (λ (d : FlatDeparture). d.departure) l)) t.kept),
      record {
        distinct = HasDistinctJourneys-collapse [] events tt;
        latest = λ key. unfold row_of in row_of-collapse key [] events;
        loose = unfold unkeyed in unkeyed-collapse [] events;
      },
    )
  where
    tracks_nothing : Tracks (record { kept = []; seen = [] }) []
    tracks_nothing = unfold index_of lookup in record { kept = refl; seen = λ key. refl }
