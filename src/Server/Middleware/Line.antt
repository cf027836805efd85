-- ===== src/Server/Middleware/Line.antt =====
-- The line that the middleware of the server (server/src/main.rs) prints for a request.
use traintime_api.Common.{
  ℕ, ◌≡◌, sym, ap, ◌∙◌, inl, inr, Option, none, some, List, [], ◌∷◌, suc, zero, take, Bool-cases,
  Option-cases, All, Elem, unwrap_or, Text, codes, text_eq, split, Lacks, arith,
}
use mathlib.Core.Path.{subst}
use traintime_api.Core.Auth.{ApiKeys, matched, label}
use traintime_api.Core.Auth.Laws.{matched-Elem, label-take}
use traintime_api.Core.Reqlog.{route_template}
use traintime_api.Core.Reqlog.Fields.{words, split-format_line}
use traintime_api.Http.{Request, Response}
use traintime_api.Server.Middleware.{Answered, auth, logged, log_request}

Lacks-take : (n c : ℕ) (s : Text) → Lacks c s → Lacks c (take n s)
Lacks-take (suc n) c (d ∷ s) (own, h) = (own, Lacks-take n c s h)
Lacks-take zero c (d ∷ s) h = tt
Lacks-take zero c [] h = tt
Lacks-take (suc n) c [] h = tt

All-Elem : (P : Text → Type 0) (k : Text) (ks : List Text) → All P ks → Elem k ks → P k
All-Elem P k [] h m = elim m [ ]
All-Elem P k (x ∷ ks) (own, h) m = elim m [
  | inl e ↦ subst P (sym e) own
  | inr m' ↦ All-Elem P k ks h m'
]

-- What may stand for the key in the line.
abbrev IsKeyField : ApiKeys → Option Text → Type 0
IsKeyField api_keys none = Unit
IsKeyField api_keys (some field) = (k : Text) × Elem k api_keys.keys × (field ≡ take 4 k)

-- The words of the line that belongs to a response.
abbrev pub IsLineOf : {B : Type 0} → ApiKeys → ℕ → Request → Response B → Text → Type 0
IsLineOf api_keys ms req resp line =
    (key : Option Text) × IsKeyField api_keys key
    × (split b' ' line ≡ words req.method (route_template req.path) resp.status ms resp.cache key)

abbrev HasWords : {B : Type 0} → ApiKeys → ℕ → Request → Answered B → Type 0
HasWords api_keys ms req answered =
    (line : Text) → answered.line ≡ some line → IsLineOf api_keys ms req answered.response line

some_inj : {A : Type 0} (a b : A) → some a ≡ some b → a ≡ b
some_inj a b h = cc

logged-HasWords :
    {B : Type 0} (api_keys : ApiKeys) (ms : ℕ) (req : Request) (resp : Response B)
    (key : Option Text)
    → Lacks b' ' req.method
    → Lacks b' ' (unwrap_or key (codes "-"))
    → IsKeyField api_keys key
    → HasWords api_keys ms req (logged req resp ms key)
unfolding log_request
logged-HasWords api_keys ms req resp key hm hk field line e = (
  key,
  field,
  ap (split b' ') (sym (some_inj (log_request req.method req.path resp ms key) line e))
      ∙ split-format_line req.method req.path resp.status ms resp.cache key hm hk,
)

auth-HasWords :
    {B : Type 0} (api_keys : ApiKeys) (ms : ℕ) (next : Request → Response B) (req : Request)
    → Lacks b' ' req.method
    → All (Lacks b' ') api_keys.keys
    → HasWords api_keys ms req (auth api_keys ms next req)
unfolding auth
auth-HasWords api_keys ms next req hm hk =
    elim (Bool-cases (text_eq req.method (codes "OPTIONS"))) [
      | inl m ↦ rw (auth, m) (λ line e. absurd (cc))
      | inr m ↦ elim (Bool-cases (text_eq req.path (codes "/health"))) [
        | inl p ↦ rw (auth, m, p) (logged-HasWords api_keys ms req _ none hm (omega arith) tt)
        | inr p ↦ elim (Option-cases (matched api_keys (unwrap_or req.api_key []))) [
          | inl n ↦ rw (auth, m, p, n) (logged-HasWords api_keys ms req _ none hm (omega arith) tt)
          | inr (key, n) ↦
              let found = matched-Elem api_keys (unwrap_or req.api_key []) key n in
              rw (auth, m, p, n)
                (logged-HasWords api_keys ms req _ (some (label key)) hm
                  (subst (Lacks b' ') (sym (label-take key))
                    (Lacks-take 4 b' ' key (All-Elem (Lacks b' ') key api_keys.keys hk found)))
                  (key, found, label-take key))
        ]
      ]
    ]

-- The line that is printed for a request, cut at its blanks, is the seven words of the format: the
-- method, the path as the template of its route, the status and the cache mark of the answer, the
-- time, and for the key a dash or the first four characters of a configured key. The method and the
-- configured keys hold no blank.
pub auth-line :
    {B : Type 0} (api_keys : ApiKeys) (ms : ℕ) (next : Request → Response B) (req : Request)
    (line : Text)
    → Lacks b' ' req.method
    → All (Lacks b' ') api_keys.keys
    → (auth api_keys ms next req).line ≡ some line
    → IsLineOf api_keys ms req (auth api_keys ms next req).response line
auth-line api_keys ms next req line hm hk e = auth-HasWords api_keys ms next req hm hk line e
