-- ===== src/Core/Ojp/Journeys/Collapse.antt =====
-- What the collapse of a list of events is, stated without indices: rows that carry their key.
use traintime_api.Common.{
  ◌≡◌, refl, ap, ◌∙◌, false, Option, none, some, List, [], ◌∷◌, ◌++◌, arith, if◌then◌else◌, Text,
  text_eq, text_eq_iff, ltb_ℤ, append_assoc,
}
use traintime_api.Core.Ojp.{FlatDeparture}
use traintime_api.Core.Ojp.Journeys.{Event}

-- The later of two rows of one journey; the earlier arrival stays on a tie.
unfoldable pub later : FlatDeparture → FlatDeparture → FlatDeparture
later old event = if ltb_ℤ old.departure event.departure then event else old

-- A row goes to the place of its journey, or to the end.
unfoldable pub place : Text → FlatDeparture → List Event → List Event
unfolding later
place key event [] = (some key, event) ∷ []
place key event ((none, d) ∷ rows) = (none, d) ∷ place key event rows
place key event ((some j, d) ∷ rows) =
    if text_eq j key then (some j, later d event) ∷ rows else (some j, d) ∷ place key event rows

unfoldable pub add : List Event → Event → List Event
unfolding place
add rows (none, event) = rows ++ (none, event) ∷ []
add rows (some key, event) = place key event rows

unfoldable pub collapse : List Event → List Event → List Event
collapse rows [] = rows
collapse rows (e ∷ events) = collapse (add rows e) events

-- The row of a journey.
unfoldable pub row_of : Text → List Event → Option FlatDeparture
row_of key [] = none
row_of key ((none, d) ∷ rows) = row_of key rows
row_of key ((some j, d) ∷ rows) = if text_eq j key then some d else row_of key rows

-- The latest event of a journey, of equal ones the first.
unfoldable pub latest_from : Text → Option FlatDeparture → List Event → Option FlatDeparture
latest_from key best [] = best
latest_from key best ((none, e) ∷ events) = latest_from key best events
latest_from key best ((some j, e) ∷ events) =
    latest_from key
      (if text_eq j key then elim best [ none ↦ some e | some d ↦ some (later d e) ] else best)
      events

unfoldable pub unkeyed : List Event → List FlatDeparture
unkeyed [] = []
unkeyed ((none, d) ∷ rows) = d ∷ unkeyed rows
unkeyed ((some j, d) ∷ rows) = unkeyed rows

-- No journey has two rows.
abbrev IsNewJourney : Text → List Event → Type 0
IsNewJourney key [] = Unit
IsNewJourney key ((none, d) ∷ rows) = IsNewJourney key rows
IsNewJourney key ((some j, d) ∷ rows) = (text_eq j key ≡ false) × IsNewJourney key rows

abbrev pub HasDistinctJourneys : List Event → Type 0
HasDistinctJourneys [] = Unit
HasDistinctJourneys ((none, d) ∷ rows) = HasDistinctJourneys rows
HasDistinctJourneys ((some j, d) ∷ rows) = IsNewJourney j rows × HasDistinctJourneys rows

row_of-concat_none :
    (key : Text) (e : FlatDeparture) (rows : List Event)
    → row_of key (rows ++ (none, e) ∷ []) ≡ row_of key rows
unfolding row_of
row_of-concat_none key e [] = refl
row_of-concat_none key e ((none, d) ∷ rows) = row_of-concat_none key e rows
row_of-concat_none key e ((some j, d) ∷ rows) = ground (arith, row_of-concat_none key e rows)

row_of-place :
    (key k : Text) (e : FlatDeparture) (rows : List Event)
    → row_of k (place key e rows) ≡ (
        if text_eq key k
        then elim (row_of key rows) [ none ↦ some e | some d ↦ some (later d e) ]
        else row_of k rows)
unfolding row_of place
row_of-place key k e [] = ground arith
row_of-place key k e ((none, d) ∷ rows) = row_of-place key k e rows
row_of-place key k e ((some j, d) ∷ rows) =
    ground (arith, row_of-place key k e rows, text_eq_iff j key, text_eq_iff key k, text_eq_iff j k)

pub row_of-collapse :
    (key : Text) (rows events : List Event)
    → row_of key (collapse rows events) ≡ latest_from key (row_of key rows) events
unfolding collapse latest_from add
row_of-collapse key rows [] = refl
row_of-collapse key rows ((none, e) ∷ events) =
    row_of-collapse key (rows ++ (none, e) ∷ []) events
    ∙ ap (λ b. latest_from key b events) (row_of-concat_none key e rows)
row_of-collapse key rows ((some j, e) ∷ events) =
    row_of-collapse key (place j e rows) events
    ∙ ap (λ b. latest_from key b events)
        (ground (arith, row_of-place j key e rows, text_eq_iff j key))

unkeyed-concat :
    (e : FlatDeparture) (rows : List Event)
    → unkeyed (rows ++ (none, e) ∷ []) ≡ unkeyed rows ++ e ∷ []
unfolding unkeyed
unkeyed-concat e [] = refl
unkeyed-concat e ((none, d) ∷ rows) = ap (◌∷◌ d) (unkeyed-concat e rows)
unkeyed-concat e ((some j, d) ∷ rows) = unkeyed-concat e rows

unkeyed-place :
    (key : Text) (e : FlatDeparture) (rows : List Event) → unkeyed (place key e rows) ≡ unkeyed rows
unfolding unkeyed place
unkeyed-place key e [] = refl
unkeyed-place key e ((none, d) ∷ rows) = ap (◌∷◌ d) (unkeyed-place key e rows)
unkeyed-place key e ((some j, d) ∷ rows) = ground (arith, unkeyed-place key e rows)

append_nil : (xs : List FlatDeparture) → xs ≡ xs ++ []
append_nil [] = refl
append_nil (x ∷ xs) = ap (◌∷◌ x) (append_nil xs)

pub unkeyed-collapse :
    (rows events : List Event) → unkeyed (collapse rows events) ≡ unkeyed rows ++ unkeyed events
unfolding unkeyed collapse add
unkeyed-collapse rows [] = append_nil (unkeyed rows)
unkeyed-collapse rows ((none, e) ∷ events) =
    unkeyed-collapse (rows ++ (none, e) ∷ []) events
    ∙ ap (λ u. u ++ unkeyed events) (unkeyed-concat e rows)
    ∙ append_assoc (unkeyed rows) (e ∷ []) (unkeyed events)
unkeyed-collapse rows ((some j, e) ∷ events) =
    unkeyed-collapse (place j e rows) events
    ∙ ap (λ u. u ++ unkeyed events) (unkeyed-place j e rows)

IsNewJourney-concat :
    (k : Text) (e : FlatDeparture) (rows : List Event)
    → IsNewJourney k rows
    → IsNewJourney k (rows ++ (none, e) ∷ [])
IsNewJourney-concat k e [] h = tt
IsNewJourney-concat k e ((none, d) ∷ rows) h = IsNewJourney-concat k e rows h
IsNewJourney-concat k e ((some j, d) ∷ rows) h = (h.0, IsNewJourney-concat k e rows h.1)

IsNewJourney-place :
    (key k : Text) (e : FlatDeparture) (rows : List Event)
    → text_eq key k ≡ false
    → IsNewJourney k rows
    → IsNewJourney k (place key e rows)
unfolding place
IsNewJourney-place key k e [] n h = (n, tt)
IsNewJourney-place key k e ((none, d) ∷ rows) n h = IsNewJourney-place key k e rows n h
IsNewJourney-place key k e ((some j, d) ∷ rows) n h =
    ground (arith, IsNewJourney-place key k e rows n h.1)

HasDistinctJourneys-add :
    (rows : List Event) (e : Event) → HasDistinctJourneys rows → HasDistinctJourneys (add rows e)
unfolding add
HasDistinctJourneys-add [] (none, e) h = tt
HasDistinctJourneys-add ((none, d) ∷ rows) (none, e) h = HasDistinctJourneys-add rows (none, e) h
HasDistinctJourneys-add ((some j, d) ∷ rows) (none, e) h =
    (IsNewJourney-concat j e rows h.0, HasDistinctJourneys-add rows (none, e) h.1)
HasDistinctJourneys-add [] (some key, e) h = (tt, tt)
HasDistinctJourneys-add ((none, d) ∷ rows) (some key, e) h =
    HasDistinctJourneys-add rows (some key, e) h
HasDistinctJourneys-add ((some j, d) ∷ rows) (some key, e) h = ground (
  arith,
  HasDistinctJourneys-add rows (some key, e) h.1,
  IsNewJourney-place key j e rows,
  text_eq_iff key j,
  text_eq_iff j key,
)

pub HasDistinctJourneys-collapse :
    (rows events : List Event)
    → HasDistinctJourneys rows
    → HasDistinctJourneys (collapse rows events)
unfolding collapse
HasDistinctJourneys-collapse rows [] h = h
HasDistinctJourneys-collapse rows (e ∷ events) h =
    HasDistinctJourneys-collapse (add rows e) events (HasDistinctJourneys-add rows e h)
