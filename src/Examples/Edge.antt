-- ===== src/Examples/Edge.antt =====
-- The edge cache of the Worker at a concrete input: an API that gives back the last text that it was
-- handed under a URL until its `max-age` has passed.
use traintime_api.Common.{
  ℕ, ◌+◌, ◌*◌, ◌<◌, ◌≡◌, refl, inl, inr, true, Option, none, some, List, [], ◌∷◌, Bool-cases, arith,
  Elem, Result, ok, err, if◌then◌else◌, ◌&&◌, ltb, Text, codes, text_eq, text_eq_iff,
}
use traintime_api.Core.Cache.{CachedPayload, classify}
use traintime_api.Http.{Serde}
use traintime_api.Worker.Cache.{stale, Filed, CacheApi, IsHonest, get, put, read}
use traintime_api.Worker.Cache.Laws.{Handed, puts, IsOfPut, get-IsOfPut}

unfoldable pub read_payload : Text → Result CachedPayload Text
read_payload [] = err (codes "EOF")
read_payload (n ∷ payload) = ok (record { fetched_at = n; payload = payload })

abbrev pub payload_json : Serde CachedPayload
payload_json = record { to_string = λ e. ok (e.fetched_at ∷ e.payload); from_str = read_payload }

-- The first text of the URL that is young enough.
unfoldable pub last_of : List Filed → Text → ℕ → Option Text
last_of [] url now_ms = none
last_of (f ∷ fs) url now_ms =
    if text_eq f.url url && ltb now_ms (f.filed_ms + f.max_age * 1000)
    then some f.raw
    else last_of fs url now_ms

abbrev pub keeping : CacheApi
keeping = record { set = λ name value. true; response = λ body. true; get = last_of }

keeping-filed :
    (log : List Filed) (url raw : Text) (now_ms : ℕ)
    → last_of log url now_ms ≡ some raw
    → (f : Filed) × Elem f log
      × (f.url ≡ url)
      × (f.raw ≡ raw)
      × (now_ms < f.filed_ms + f.max_age * 1000)
unfolding last_of
keeping-filed [] url raw now_ms e = absurd (cc)
keeping-filed (f ∷ fs) url raw now_ms e =
    elim (Bool-cases (text_eq f.url url && ltb now_ms (f.filed_ms + f.max_age * 1000))) [
      | inl fits ↦
          let e' = rw fits at e in
          (f, inl refl, ground (arith, text_eq_iff f.url url), cc, ground arith)
      | inr old ↦
          let (g, there, at, same, young) = keeping-filed fs url raw now_ms (rw old at e) in
          (g, inr there, at, same, young)
    ]

keeping-IsHonest : IsHonest keeping
keeping-IsHonest = record { filed = keeping-filed }

-- Two puts of one key and one of another.
abbrev three_puts : List Handed
three_puts =
    record { key = codes "k"; payload = codes "v"; ttl_secs = 60; at_ms = 5_000; filed_ms = 5_040 }
    ∷ record {
      key = codes "l";
      payload = codes "x";
      ttl_secs = 60;
      at_ms = 4_000;
      filed_ms = 4_000;
    }
    ∷ record {
      key = codes "k";
      payload = codes "u";
      ttl_secs = 60;
      at_ms = 1_000;
      filed_ms = 1_000;
    }
    ∷ []

-- The last put of the key is read back with its age.
old_read :
    get
      (λ key. key)
      payload_json
      keeping
      (puts (λ key. key) payload_json keeping three_puts)
      (codes "k")
      60
      95_500
      95_500
    ≡ stale (codes "v") 90
unfolding get puts put read last_of read_payload classify
old_read = refl

get-IsOfPut_example :
    IsOfPut
      (λ key. key)
      payload_json
      keeping
      three_puts
      (codes "k")
      60
      95_500
      95_500
      (get
        (λ key. key)
        payload_json
        keeping
        (puts (λ key. key) payload_json keeping three_puts)
        (codes "k")
        60
        95_500
        95_500)
unfolding read_payload
get-IsOfPut_example =
    get-IsOfPut (λ key. key) payload_json keeping three_puts (codes "k") 60 95_500 95_500
      keeping-IsHonest (λ e. (e.fetched_at ∷ e.payload, refl, refl)) (λ a b e. e) (omega arith)
