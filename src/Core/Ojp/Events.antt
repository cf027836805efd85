-- ===== src/Core/Ojp/Events.antt =====
-- core/src/ojp.rs, `parse_stop_events`: from the XML of a response to the rows of a board. The
-- outer option of a reading is the panic of a slice.
pub mod Laws
use traintime_api.Common.{
  ℕ, Bool, false, not, Option, none, some, List, [], ◌∷◌, ◌++◌, if◌then◌else◌, first, unwrap_or,
  Text, codes, text_eq, ℤ, pos, ltb_ℤ,
}
use traintime_api.Common.Float.{Float64}
use traintime_api.Core.Ojp.{FlatDeparture}
use traintime_api.Core.Ojp.Journeys.{Event, keep_latest_per_journey}
use traintime_api.Core.Ojp.Patterns.{RegexLib}
use traintime_api.Core.Ojp.Xml.{xml_text, xml_lang_text, xml_blocks}

infixl 5 ◌>>=◌
abbrev pub ◌>>=◌ : {A B : Type 0} → Option A → (A → Option B) → Option B
none >>= k = none
some a >>= k = k a

-- `first()` and what is made of it, if there is one.
abbrev pub on_first : {A : Type 0} → List Text → (Text → Option (Option A)) → Option (Option A)
on_first [] k = some none
on_first (b ∷ bs) k = k b

-- What one call says of its time and its platform.
pub record Call : Type 0 where
  pub timetabled : Option Text
  pub estimated : Option Text
  pub planned_quay : Text
  pub estimated_quay : Option Text

module _ (lib : RegexLib) (compiled : Text → lib.Regex) (f : Float64) (iso_to_ms : Text → f.F) where
  open f use {lit, sub, div, round, to_i64}

  abbrev text_of : Text → Text → Option Text
  text_of xml tag = xml_text lib compiled xml tag

  abbrev blocks_of : Text → Text → Option (List Text)
  blocks_of xml tag = xml_blocks lib compiled xml tag

  -- The text of the first block of a tag.
  unfoldable pub lang_in : Text → Text → Option (Option Text)
  lang_in xml tag = do
    blocks ← blocks_of xml tag
    on_first blocks (λ b. some (xml_lang_text lib compiled b))

  unfoldable pub category_in : Text → Option (Option Text)
  unfolding lang_in
  category_in service = do
    modes ← blocks_of service (codes "Mode")
    on_first modes (λ m. lang_in m (codes "ShortName"))

  -- The operating day and the journey.
  journey_key : Text → Option Text
  journey_key service = elim (text_of service (codes "JourneyRef")) [
    | none ↦ none
    | some journey ↦
        some (unwrap_or (text_of service (codes "OperatingDayRef")) [] ++ (codes "|" ++ journey))
  ]

  -- The call at the stop, else the first call, else the whole event.
  unfoldable pub call_block : Text → Option Text
  call_block stop_event = do
    calls ← blocks_of stop_event (codes "ThisCall")
    elim (first calls) [
      | none ↦ some stop_event
      | some call ↦ do
        stops ← blocks_of call (codes "CallAtStop")
        some (unwrap_or (first stops) call)
    ]

  unfoldable pub call_in : Text → Option Call
  unfolding call_block lang_in
  call_in stop_event = do
    call ← call_block stop_event
    departures ← blocks_of call (codes "ServiceDeparture")
    planned ← lang_in call (codes "PlannedQuay")
    quay ← lang_in call (codes "EstimatedQuay")
    let dep = unwrap_or (first departures) call
    some (record {
      timetabled = text_of dep (codes "TimetabledTime");
      estimated = text_of dep (codes "EstimatedTime");
      planned_quay = unwrap_or planned [];
      estimated_quay = quay;
    })

  departure_of : Option Text → ℤ
  departure_of none = pos 0
  departure_of (some tt) = to_i64 (div (iso_to_ms tt) (lit 1000))

  -- A delay in minutes, if it is above zero.
  unfoldable pub delay_of : Option Text → Option Text → Option ℤ
  delay_of (some et) (some tt) =
      let delay_min = to_i64 (round (div (sub (iso_to_ms et) (iso_to_ms tt)) (lit 60_000))) in
      if ltb_ℤ (pos 0) delay_min then some delay_min else none
  delay_of (some et) none = none
  delay_of none timetabled = none

  abbrev is_changed : Option Text → Text → Bool
  is_changed none planned = false
  is_changed (some quay) planned = not (text_eq quay planned)

  -- The event of a service and its call.
  unfoldable pub row_of : Text → Text → Option Event
  unfolding lang_in category_in journey_key call_in departure_of delay_of
  row_of stop_event service = do
    destination ← lang_in service (codes "DestinationText")
    category ← category_in service
    number ← lang_in service (codes "PublishedServiceName")
    call ← call_in stop_event
    some (
      journey_key service,
      record {
        to = unwrap_or destination (codes "?");
        category = unwrap_or category [];
        number = unwrap_or number [];
        departure = departure_of call.timetabled;
        delay = delay_of call.estimated call.timetabled;
        platform = unwrap_or call.estimated_quay call.planned_quay;
        platform_changed = is_changed call.estimated_quay call.planned_quay;
        train_number = text_of service (codes "TrainNumber");
        operator_ref = text_of service (codes "OperatorRef");
      },
    )

  -- The event of one result; one without an event or without a service is passed over.
  unfoldable pub event_of : Text → Option (Option Event)
  unfolding row_of
  event_of result = do
    stop_events ← blocks_of result (codes "StopEvent")
    on_first stop_events (λ stop_event. do
      services ← blocks_of stop_event (codes "Service")
      on_first services (λ service. do event ← row_of stop_event service; some (some event)))

  unfoldable pub events_of : List Text → Option (List Event)
  unfolding event_of
  events_of [] = some []
  events_of (result ∷ results) = do
    event ← event_of result
    events ← events_of results
    elim event [ none ↦ some events | some e ↦ some (e ∷ events) ]

  unfoldable pub parse_stop_events : Text → Option (List FlatDeparture)
  unfolding events_of
  parse_stop_events xml = do
    results ← blocks_of xml (codes "StopEventResult")
    events ← events_of results
    keep_latest_per_journey events
