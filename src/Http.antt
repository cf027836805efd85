-- ===== src/Http.antt =====
-- What the routes of both runtimes read and answer: requests, responses with their headers, the
-- JSON library as a parameter, and the query strings of the three routes.
use traintime_api.Common.{ℕ, ◌≡◌, Bool, Option, List, Result, ok, err, Text, codes}
use traintime_api.Common.Float.{Float64}
use traintime_api.Core.Reqlog.{CacheStatus}

pub data Body (B : Type 0) : Type 0 where
  no_content : Body B
  health_ok : Body B
  error : Text → Body B
  payload : B → Body B

pub record Response (B : Type 0) : Type 0 where
  pub status : ℕ
  pub body : Body B
  pub headers : List (Text × Text)
  pub cache : CacheStatus

-- The parts of a request that the entry points read; `api_key` is the header's value if it is text.
pub record Request : Type 0 where
  pub method : Text
  pub path : Text
  pub api_key : Option Text

-- `serde_json::to_string` and `from_str` at one type; an error is its text.
pub record Serde (A : Type 0) : Type 0 where
  pub to_string : A → Result Text Text
  pub from_str : Text → Result A Text

-- Every value of the type has a text.
abbrev pub IsTotal : {A : Type 0} → Serde A → Type 0
IsTotal {A} serde = (a : A) → (t : Text) × (serde.to_string a ≡ ok t)

-- What is written is read back: every value of the type has a text.
abbrev pub IsLossless : {A : Type 0} → Serde A → Type 0
IsLossless {A} serde = (a : A) → (t : Text) × (serde.to_string a ≡ ok t) × (serde.from_str t ≡ ok a)

abbrev pub stale_header : Text
stale_header = codes "x-traintime-stale"

pub record DeparturesQuery : Type 0 where
  pub id : Option Text
  pub limit : Option ℕ
  pub favourites : Option Text

pub record FormationQuery : Type 0 where
  pub train : Option Text
  pub date : Option Text
  pub stop : Option Text
  pub evu : Option Text
  pub operator_ref : Option Text

module _ (f : Float64) where
  open f use {F}

  pub record NearbyQuery : Type 0 where
    pub lat : Option F
    pub lon : Option F
    pub query : Option Text
    pub mode : Option Text

-- A request to an upstream, and its response: the status and the body, or why it cannot be read.
pub record Outgoing : Type 0 where
  pub post : Bool
  pub url : Text
  pub headers : List (Text × Text)
  pub body : Text

pub record Incoming : Type 0 where
  pub status : ℕ
  pub text : Result Text Text

-- `?`.
abbrev pub try : {A B E : Type 0} → Result A E → (A → Result B E) → Result B E
try (ok a) k = k a
try (err e) k = err e
