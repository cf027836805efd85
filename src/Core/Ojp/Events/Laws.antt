-- ===== src/Core/Ojp/Events/Laws.antt =====
-- The rows that `parse_stop_events` (core/src/ojp.rs) makes of a text.
use traintime_api.Common.{
  ℕ, suc, ◌≡◌, refl, ap, ◌⊎◌, inl, inr, true, Bool-cases, Gives, Option, none, some, List, [], ◌∷◌,
  arith, All, first, unwrap_or, zero, Text, codes, ℤ, pos, negsuc, ltb_ℤ, IsSorted,
}
use traintime_api.Common.Float.{Float64}
use traintime_api.Core.Ojp.{FlatDeparture}
use traintime_api.Core.Ojp.Journeys.{Event}
use traintime_api.Core.Ojp.Journeys.Kept.{keep_latest_per_journey-All}
use traintime_api.Core.Ojp.Patterns.{RegexLib}
use traintime_api.Core.Ojp.Xml.{xml_blocks}
use traintime_api.Core.Ojp.Events.{
  ◌>>=◌, lang_in, category_in, call_block, call_in, delay_of, row_of, event_of, events_of,
  parse_stop_events,
}
use traintime_api.Core.Ojp.Xml.Laws.{IsBounded, gives_bind, gives_first, Any, blocks-Gives}

module _ (lib : RegexLib) (compiled : Text → lib.Regex) (bounded : IsBounded lib) where
  module _ (f : Float64) (iso_to_ms : Text → f.F) where
    lang_in-Gives : (xml tag : Text) → Gives (lang_in lib compiled f iso_to_ms xml tag) Any
    unfolding lang_in
    lang_in-Gives xml tag =
        gives_bind (xml_blocks lib compiled xml tag) _ Any Any
          (blocks-Gives lib compiled bounded xml tag) (λ bs _. gives_first bs _ Any tt (λ b. tt))

    category_in-Gives : (service : Text) → Gives (category_in lib compiled f iso_to_ms service) Any
    unfolding category_in
    category_in-Gives service =
        gives_bind (xml_blocks lib compiled service (codes "Mode")) _ Any Any
          (blocks-Gives lib compiled bounded service (codes "Mode"))
          (λ bs _. gives_first bs _ Any tt (λ b. lang_in-Gives b (codes "ShortName")))

    call_block-Gives :
        (stop_event : Text) → Gives (call_block lib compiled f iso_to_ms stop_event) Any
    unfolding call_block
    call_block-Gives stop_event =
        gives_bind (xml_blocks lib compiled stop_event (codes "ThisCall")) _ Any Any
          (blocks-Gives lib compiled bounded stop_event (codes "ThisCall")) within
      where
        within :
            (calls : List Text)
            → Any calls
            → Gives
                (elim (first calls) [
                  | none ↦ some stop_event
                  | some call ↦
                      xml_blocks lib compiled call (codes "CallAtStop")
                      >>= (λ stops. some (unwrap_or (first stops) call))
                ])
                Any
        within [] _ = tt
        within (call ∷ calls) _ =
            gives_bind (xml_blocks lib compiled call (codes "CallAtStop")) _ Any Any
              (blocks-Gives lib compiled bounded call (codes "CallAtStop")) (λ stops _. tt)

    call_in-Gives : (stop_event : Text) → Gives (call_in lib compiled f iso_to_ms stop_event) Any
    unfolding call_in
    call_in-Gives stop_event =
        gives_bind (call_block lib compiled f iso_to_ms stop_event) _ Any Any
          (call_block-Gives stop_event)
          λ call _.
            gives_bind (xml_blocks lib compiled call (codes "ServiceDeparture")) _ Any Any
              (blocks-Gives lib compiled bounded call (codes "ServiceDeparture"))
              λ departures _.
                gives_bind (lang_in lib compiled f iso_to_ms call (codes "PlannedQuay")) _ Any Any
                  (lang_in-Gives call (codes "PlannedQuay"))
                  λ planned _.
                    gives_bind (lang_in lib compiled f iso_to_ms call (codes "EstimatedQuay")) _ Any
                      Any (lang_in-Gives call (codes "EstimatedQuay")) λ quay _. tt

    -- A row's delay is above zero where it has one.
    abbrev pub IsRow : FlatDeparture → Type 0
    IsRow d = (d.delay ≡ none) ⊎ ((n : ℕ) × (d.delay ≡ some (pos (suc n))))

    positive : (z : ℤ) → ltb_ℤ (pos 0) z ≡ true → (n : ℕ) × (z ≡ pos (suc n))
    positive (pos zero) h = absurd (ground arith)
    positive (pos (suc n)) h = (n, refl)
    positive (negsuc n) h = absurd (ground arith)

    delay_of-positive :
        (estimated timetabled : Option Text)
        → (delay_of lib compiled f iso_to_ms estimated timetabled ≡ none)
          ⊎ ((n : ℕ) × (delay_of lib compiled f iso_to_ms estimated timetabled
                ≡ some (pos (suc n))))
    unfolding delay_of
    delay_of-positive none timetabled = inl refl
    delay_of-positive (some et) none = inl refl
    delay_of-positive (some et) (some tt') =
        let minutes =
          f.to_i64 (f.round (f.div (f.sub (iso_to_ms et) (iso_to_ms tt')) (f.lit 60_000))) in
        elim (Bool-cases (ltb_ℤ (pos 0) minutes)) [
          | inl above ↦
              let (n, e) = positive minutes above in inr (n, rw (delay_of, above) (ap some e))
          | inr other ↦ inl (rw (delay_of, other) refl)
        ]

    abbrev IsEvent : Event → Type 0
    IsEvent e = IsRow e.1

    row_of-Gives :
        (stop_event service : Text)
        → Gives (row_of lib compiled f iso_to_ms stop_event service) IsEvent
    unfolding row_of
    row_of-Gives stop_event service =
        gives_bind (lang_in lib compiled f iso_to_ms service (codes "DestinationText")) _ Any
          IsEvent (lang_in-Gives service (codes "DestinationText"))
          λ destination _.
            gives_bind (category_in lib compiled f iso_to_ms service) _ Any IsEvent
              (category_in-Gives service)
              λ category _.
                gives_bind (lang_in lib compiled f iso_to_ms service (codes "PublishedServiceName"))
                  _ Any IsEvent (lang_in-Gives service (codes "PublishedServiceName"))
                  λ number _.
                    gives_bind (call_in lib compiled f iso_to_ms stop_event) _ Any IsEvent
                      (call_in-Gives stop_event)
                      λ call _. delay_of-positive call.estimated call.timetabled

    abbrev IsFound : Option Event → Type 0
    IsFound none = Unit
    IsFound (some e) = IsEvent e

    event_of-Gives : (result : Text) → Gives (event_of lib compiled f iso_to_ms result) IsFound
    unfolding event_of
    event_of-Gives result =
        gives_bind (xml_blocks lib compiled result (codes "StopEvent")) _ Any IsFound
          (blocks-Gives lib compiled bounded result (codes "StopEvent"))
          λ stop_events _. gives_first stop_events _ IsFound tt λ stop_event.
            gives_bind (xml_blocks lib compiled stop_event (codes "Service")) _ Any IsFound
              (blocks-Gives lib compiled bounded stop_event (codes "Service"))
              λ services _. gives_first services _ IsFound tt λ service.
                gives_bind (row_of lib compiled f iso_to_ms stop_event service) _ IsEvent IsFound
                  (row_of-Gives stop_event service) λ event h. h

    events_of-Gives :
        (results : List Text) → Gives (events_of lib compiled f iso_to_ms results) (All IsEvent)
    unfolding events_of
    events_of-Gives [] = tt
    events_of-Gives (result ∷ results) =
        gives_bind (event_of lib compiled f iso_to_ms result) _ IsFound (All IsEvent)
          (event_of-Gives result)
          λ event h.
            gives_bind (events_of lib compiled f iso_to_ms results) _ (All IsEvent) (All IsEvent)
              (events_of-Gives results) λ events hs. listed event events h hs
      where
        listed :
            (event : Option Event) (events : List Event)
            → IsFound event
            → All IsEvent events
            → Gives (elim event [ none ↦ some events | some e ↦ some (e ∷ events) ]) (All IsEvent)
        listed none events h hs = hs
        listed (some e) events h hs = (h, hs)

    -- Where the matches of the regex library lie in the text, no text makes the parser panic: it
    -- answers with a board in the order of departure, on which every delay is above zero.
    pub parse_stop_events-Gives :
        (xml : Text)
        → Gives
            (parse_stop_events lib compiled f iso_to_ms xml)
            (λ board. All IsRow board × IsSorted (λ (d : FlatDeparture). d.departure) board)
    unfolding parse_stop_events
    parse_stop_events-Gives xml =
        let Shown = λ (board : List FlatDeparture).
          All IsRow board × IsSorted (λ (d : FlatDeparture). d.departure) board in
        gives_bind (xml_blocks lib compiled xml (codes "StopEventResult")) _ Any Shown
          (blocks-Gives lib compiled bounded xml (codes "StopEventResult"))
          λ results _.
            gives_bind (events_of lib compiled f iso_to_ms results) _ (All IsEvent) Shown
              (events_of-Gives results) λ events h. keep_latest_per_journey-All IsRow events h
