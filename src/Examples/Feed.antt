-- ===== src/Examples/Feed.antt =====
-- The OJP feed and the upstream calls at concrete inputs, with a stand-in for the regex library that
-- finds one block in every text, the whole of it, and one group, the text of its first characters.
use traintime_api.Common.{
  lookup, ◌≡◌, refl, true, Option, none, some, [], ◌∷◌, map, arith, if◌then◌else◌, leb, length, All,
  Gives, ok, Text, codes, IsSorted, Lacks, ◌↔◌,
}
use traintime_api.Core.Formation.{Wagon}
use traintime_api.Core.Formation.Response.{Json}
use traintime_api.Core.Formation.Scan.{Captures}
use traintime_api.Core.Formation.Scan.Sectors.{
  IsDistinct, IsListed, parse_formation_short_string-IsListed,
}
use traintime_api.Core.Formation.Wagons.{parse_formation_short_string}
use traintime_api.Core.Ojp.{FlatDeparture}
use traintime_api.Core.Ojp.Events.{parse_stop_events}
use traintime_api.Core.Ojp.Xml.Laws.{IsBounded}
use traintime_api.Core.Ojp.Events.Laws.{IsRow, parse_stop_events-Gives}
use traintime_api.Core.Ojp.Patterns.{RegexLib, Compiled, compile_all, IsCoherent, compile_all-new}
use traintime_api.Core.Ojp.Request.{build_stop_event_request_xml}
use traintime_api.Core.Ojp.Request.Markup.{count, count-build_stop_event_request_xml}
use traintime_api.Examples.Nearby.{grid}
use traintime_api.Worker.Upstream.{Runtime, left}

abbrev whole : RegexLib
whole = record {
  Regex = Text;
  new = λ pattern. some pattern;
  captures = λ re xml. some (codes "7");
  find_iter = λ re xml. (0, 0) ∷ [];
  find_at = λ re xml from. if leb from (length xml) then some (length xml, length xml) else none;
}

whole-IsBounded : IsBounded whole
whole-IsBounded = record {
  iter = λ re xml. ((omega arith, omega arith), tt);
  at = λ re xml from m h. ground arith;
}

abbrev feed : Text
feed = codes "<OJP/>"

parse_stop_events-Gives_example :
    Gives (parse_stop_events whole (λ p. p) grid length feed) (λ board.
      All (IsRow whole (λ p. p) whole-IsBounded grid length) board
      × IsSorted (λ (d : FlatDeparture). d.departure) board)
parse_stop_events-Gives_example =
    parse_stop_events-Gives whole (λ p. p) whole-IsBounded grid length feed

abbrev empty : Compiled whole
empty = record { patterns = []; compiles = 0 }

nothing_known : (p re : Text) → lookup p empty.patterns ≡ some re → ⊥
unfolding lookup
nothing_known p re h = cc

compile_all-new_example :
    ((compile_all whole (codes "a" ∷ codes "b" ∷ codes "a" ∷ []) empty).0
      ≡ map (λ p. some p) (codes "a" ∷ codes "b" ∷ codes "a" ∷ []))
    × IsCoherent whole (compile_all whole (codes "a" ∷ codes "b" ∷ codes "a" ∷ []) empty).1
compile_all-new_example =
    compile_all-new whole (codes "a" ∷ codes "b" ∷ codes "a" ∷ []) empty
      (record { faithful = λ p re h. absurd (nothing_known p re h); distinct = tt; counted = refl })
      ((codes "a", refl), ((codes "b", refl), ((codes "a", refl), tt)))

-- A worker runtime that answers every request with a body.
abbrev prompt : Runtime
prompt = record {
  set = λ name value. ok true;
  new = λ req. ok true;
  send = λ req. left (ok (record { status = 200; text = ok feed }));
}

abbrev json : Json
json = record {
  Value = Text;
  get = λ v key. none;
  pointer = λ v path. none;
  as_array = λ v. none;
  as_i64 = λ v. none;
  as_str = λ v. none;
}

abbrev no_match : Text → Option Captures
no_match token = none

-- Every token is a second-class car.
abbrev car : Text → Option Captures
car token = some (record {
  opening = none;
  status = none;
  opening_inner = none;
  kind = codes "2";
  closing = none;
  number = none;
  offers = none;
})

parse_formation_short_string-IsListed_example :
    IsDistinct (parse_formation_short_string car (codes "@A,1:3,2@B,2")).0
    × All
        (λ (w : Wagon).
          IsListed (parse_formation_short_string car (codes "@A,1:3,2@B,2")).0 w.sector)
        (parse_formation_short_string car (codes "@A,1:3,2@B,2")).1
parse_formation_short_string-IsListed_example =
    parse_formation_short_string-IsListed car (codes "@A,1:3,2@B,2")

-- An id that ends its element and begins another one.
abbrev markup : Text
markup = codes "8507000</siri:StopPointRef><x>"

count-build_stop_event_request_xml_example :
    (count b'<' (build_stop_event_request_xml markup 10 (codes "2026-09-17T12:00:00Z") 1)
      ≡ count b'<' (build_stop_event_request_xml [] 10 (codes "2026-09-17T12:00:00Z") 1))
    ↔ Lacks b'<' markup
count-build_stop_event_request_xml_example =
    count-build_stop_event_request_xml b'<' markup 10 (codes "2026-09-17T12:00:00Z") 1
