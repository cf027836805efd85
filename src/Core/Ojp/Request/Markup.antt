-- ===== src/Core/Ojp/Request/Markup.antt =====
-- The markup of a departure request (core/src/ojp.rs).
use traintime_api.Common.{
  ℕ, suc, ◌+◌, ◌≡◌, ◌↔◌, refl, List, [], ◌∷◌, ◌++◌, arith, if◌then◌else◌, ◌==◌, ==_iff, take, drop,
  Text, codes, Lacks,
}
use traintime_api.Core.Ojp.Request.{join, lines_of, build_stop_event_request_xml}

-- How often a character stands in a text.
unfoldable pub count : ℕ → Text → ℕ
count c [] = 0
count c (d ∷ s) = let rest = count c s in if d == c then suc rest else rest

count-append : (c : ℕ) (s t : Text) → count c (s ++ t) ≡ count c s + count c t
unfolding count
count-append c [] t = omega arith
count-append c (d ∷ s) t = ground (arith, count-append c s t)

count-eq-zero_iff : (c : ℕ) (s : Text) → (count c s ≡ 0) ↔ Lacks c s
unfolding count
count-eq-zero_iff c [] = ((λ e. tt), (λ h. refl))
count-eq-zero_iff c (d ∷ s) = ground (arith, count-eq-zero_iff c s, ==_iff d c)

count_nil : (c : ℕ) → count c [] ≡ 0
unfolding count
count_nil c = refl

count-join :
    (c : ℕ) (ts us : List Text) (t : Text)
    → count c (join (ts ++ t ∷ us)) ≡ count c t + (count c (join ts) + count c (join us))
count-join c [] us t = omega (arith, count-append c t (join us), count_nil c)
count-join c (s ∷ ts) us t = omega (
  arith,
  count-append c s (join (ts ++ t ∷ us)),
  count-append c s (join ts),
  count-join c ts us t,
)

-- A text between two parts of a line.
count-between :
    (c : ℕ) (ts us : List Text) (a s b : Text)
    → count c (join (ts ++ (a ++ (s ++ b)) ∷ us)) ≡ count c (join (ts ++ (a ++ b) ∷ us)) + count c s
count-between c ts us a s b = omega (
  arith,
  count-join c ts us (a ++ (s ++ b)),
  count-join c ts us (a ++ b),
  count-append c a (s ++ b),
  count-append c s b,
  count-append c a b,
)

count-build :
    (c : ℕ) (stop_ref : Text) (limit : ℕ) (now_iso : Text) (message_id : ℕ)
    → count c (build_stop_event_request_xml stop_ref limit now_iso message_id)
      ≡ count c (build_stop_event_request_xml [] limit now_iso message_id) + count c stop_ref
unfolding build_stop_event_request_xml
count-build c stop_ref limit now_iso message_id =
    let ts = take 11 (lines_of [] limit now_iso message_id) in
    let us = drop 12 (lines_of [] limit now_iso message_id) in
    count-between c ts us (codes "            <siri:StopPointRef>") stop_ref
      (codes "</siri:StopPointRef>" ++ b'\n' ∷ [])

-- For each character, such as `<` or `&`, the request for a stop id has as many of it as the request
-- for the empty id exactly if the id has none.
pub count-build_stop_event_request_xml :
    (c : ℕ) (stop_ref : Text) (limit : ℕ) (now_iso : Text) (message_id : ℕ)
    → (count c (build_stop_event_request_xml stop_ref limit now_iso message_id)
        ≡ count c (build_stop_event_request_xml [] limit now_iso message_id))
      ↔ Lacks c stop_ref
count-build_stop_event_request_xml c stop_ref limit now_iso message_id =
    let more = count-build c stop_ref limit now_iso message_id in
    let iff = count-eq-zero_iff c stop_ref in
    ((λ e. iff.0 (omega (arith, more, e))), (λ h. omega (arith, more, iff.1 h)))
