-- ===== src/Core/Ojp/Journeys/Kept.antt =====
-- Properties of single events under `keep_latest_per_journey` (core/src/ojp.rs).
use mathlib.Core.Path.{subst}
use traintime_api.Common.{
  ℕ, zero, suc, ◌≡◌, ◌≢◌, refl, inl, inr, Bool-cases, Gives, none, some, List, [], ◌∷◌, get_elem?,
  set, All, All-append, Option-cases, lookup, ltb_ℤ, IsSorted, sort_by_key-IsSorted,
  sort_by_key-All,
}
use traintime_api.Core.Ojp.{FlatDeparture}
use traintime_api.Core.Ojp.Journeys.{Event, Board, keep, keep_all, keep_latest_per_journey}
use traintime_api.Core.Ojp.Journeys.Laws.{keep_latest_per_journey_lem}

module _ (P : FlatDeparture → Type 0) where
  set-All :
      (rows : List FlatDeparture) (i : ℕ) (d : FlatDeparture)
      → All P rows
      → P d
      → All P (set rows i d)
  set-All [] i d h p = tt
  set-All (x ∷ rows) zero d h p = (p, h.1)
  set-All (x ∷ rows) (suc i) d h p = (h.0, set-All rows i d h.1 p)

  keep-All :
      (b : Board) (e : Event)
      → keep b e ≢ none
      → All P b.kept
      → P e.1
      → Gives (keep b e) (λ b'. All P b'.kept)
  unfolding keep
  keep-All b (none, d) k h p = All-append P b.kept (d ∷ []) h (p, tt)
  keep-All b (some key, d) k h p = elim (Option-cases (lookup key b.seen)) [
    | inl e ↦ rw (keep, e) (All-append P b.kept (d ∷ []) h (p, tt))
    | inr (at, e) ↦ elim (Option-cases (get_elem? b.kept at)) [
      | inl e' ↦ absurd (k (rw (keep, e, e') refl))
      | inr (old, e') ↦ elim (Bool-cases (ltb_ℤ old.departure d.departure)) [
        | inl later ↦ rw (keep, e, e', later) (set-All b.kept at d h p)
        | inr other ↦ rw (keep, e, e', other) h
      ]
    ]
  ]

  keep_all-All :
      (b : Board) (events : List Event)
      → keep_all b events ≢ none
      → All P b.kept
      → All (λ (e : Event). P e.1) events
      → Gives (keep_all b events) (λ b'. All P b'.kept)
  unfolding keep_all
  keep_all-All b [] k h hs = h
  keep_all-All b (e ∷ events) k h hs = elim (Option-cases (keep b e)) [
    | inl stop ↦ absurd (k (rw (keep_all, stop) refl))
    | inr (next, kept) ↦
        let runs : keep b e ≢ none = λ stop. cc in
        let h' : All P next.kept =
          subst (λ o. Gives o (λ b'. All P b'.kept)) kept (keep-All b e runs h hs.0) in
        let rest : keep_all next events ≢ none = λ stop. k (rw (keep_all, kept) stop) in
        rw (keep_all, kept) (keep_all-All next events rest h' hs.1)
  ]

  -- The board of events that all have a property has it too, in the order of departure.
  pub keep_latest_per_journey-All :
      (events : List Event)
      → All (λ (e : Event). P e.1) events
      → Gives
          (keep_latest_per_journey events)
          (λ board. All P board × IsSorted (λ (d : FlatDeparture). d.departure) board)
  unfolding keep_latest_per_journey
  keep_latest_per_journey-All events h =
      elim (Option-cases (keep_all (record { kept = []; seen = [] }) events)) [
        | inl stop ↦ absurd (never stop)
        | inr (b, ran) ↦
            let kept : All P b.kept =
              subst (λ o. Gives o (λ b'. All P b'.kept)) ran
                (keep_all-All (record { kept = []; seen = [] }) events (λ stop. never stop) tt h) in
            rw (keep_latest_per_journey, ran)
              (sort_by_key-All _ P b.kept kept, sort_by_key-IsSorted _ b.kept)
      ]
    where
      never : keep_all (record { kept = []; seen = [] }) events ≢ none
      never stop =
          let (rows, shown, _) = keep_latest_per_journey_lem events in
          let panics : keep_latest_per_journey events ≡ none =
            rw (keep_latest_per_journey, stop) refl in
          cc
