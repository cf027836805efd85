-- ===== src/Core/Ojp/Request.antt =====
-- core/src/ojp.rs, `build_stop_event_request_xml`: the body of a departure request.
pub mod Markup
use traintime_api.Common.{ℕ, List, [], ◌∷◌, ◌++◌, String, Text, codes}
use traintime_api.Common.Decimal.{print}

abbrev pub ojp_endpoint : Text
ojp_endpoint = codes "https://api.opentransportdata.swiss/ojp20"

-- A line of the literal with its line end.
abbrev pub line : String → Text
line s = codes s ++ b'\n' ∷ []

-- A line with a value between two parts.
abbrev pub around : String → Text → String → Text
around before value after = codes before ++ (value ++ (codes after ++ b'\n' ∷ []))

abbrev pub join : List Text → Text
join [] = []
join (t ∷ ts) = t ++ join ts

-- The lines of the request.
abbrev pub lines_of : Text → ℕ → Text → ℕ → List Text
lines_of stop_ref limit now_iso message_id =
    line "<?xml version=\"1.0\" encoding=\"UTF-8\"?>"
    ∷ line
        "<OJP xmlns=\"http://www.vdv.de/ojp\" xmlns:siri=\"http://www.siri.org.uk/siri\" version=\"2.0\">"
    ∷ line "  <OJPRequest>"
    ∷ line "    <siri:ServiceRequest>"
    ∷ around "      <siri:RequestTimestamp>" now_iso "</siri:RequestTimestamp>"
    ∷ line "      <siri:RequestorRef>traintime_prod</siri:RequestorRef>"
    ∷ line "      <OJPStopEventRequest>"
    ∷ around "        <siri:RequestTimestamp>" now_iso "</siri:RequestTimestamp>"
    ∷ around "        <siri:MessageIdentifier>SER-" (print message_id) "</siri:MessageIdentifier>"
    ∷ line "        <Location>"
    ∷ line "          <PlaceRef>"
    ∷ around "            <siri:StopPointRef>" stop_ref "</siri:StopPointRef>"
    ∷ line "          </PlaceRef>"
    ∷ line "        </Location>"
    ∷ line "        <Params>"
    ∷ around "          <NumberOfResults>" (print limit) "</NumberOfResults>"
    ∷ line "          <StopEventType>departure</StopEventType>"
    ∷ line "        </Params>"
    ∷ line "      </OJPStopEventRequest>"
    ∷ line "    </siri:ServiceRequest>"
    ∷ line "  </OJPRequest>"
    ∷ codes "</OJP>"
    ∷ []

unfoldable pub build_stop_event_request_xml : Text → ℕ → Text → ℕ → Text
build_stop_event_request_xml stop_ref limit now_iso message_id =
    join (lines_of stop_ref limit now_iso message_id)
