-- ===== src/Server/Cache/Shared.antt =====
-- server/src/cache.rs, `lookup` and `store` over the client of server/src/memcached.rs: a pod's cache
-- in front of the shared one. A call of the client runs here without others in between.
use traintime_api.Common.{
  ℕ, ◌+◌, ◌<◌, ◌≡◌, ◌≢◌, refl, ap, ◌∙◌, Bool, Option, none, some, List, [], ◌∷◌, arith, All, Result,
  err, Text,
}
use traintime_api.Server.Cache.{Entries, get, put_at}
use traintime_api.Server.Memcached.{
  Client, Start, skipped, pooled, connects, skip_for, skipping, begin, finish, mark_failed,
  begin_get, begin_set,
}

-- `Cache`: the entries of the pod, and the client where one is configured.
pub record Cache : Type 0 where
  pub entries : Entries
  pub shared : Option Client

-- What a call meets: the clock where it starts and where it ends, the connection that it opens if
-- none is idle, and the outcome of connecting and of the command, the timeout included.
pub record Met (T : Type 0) : Type 0 where
  pub started : ℕ
  pub ended : ℕ
  pub opened : ℕ
  pub outcome : Result T Text

-- `Memcached::call` behind its start.
unfoldable pub complete : {T : Type 0} → Met T → Start × Client → Option T × Client
unfolding finish
complete m (skipped, c) = (none, c)
complete m (pooled conn, c) = finish c m.ended conn m.outcome
complete m (connects, c) = finish c m.ended m.opened m.outcome

abbrev flatten : {T : Type 0} → Option (Option T) → Option T
flatten none = none
flatten (some o) = o

unfoldable pub shared_get : Client → Text → Met (Option Text) → Option Text × Client
unfolding begin_get complete
shared_get c key m = let (out, c') = complete m (begin_get c key m.started) in (flatten out, c')

unfoldable pub shared_set : Client → Text → ℕ → Met Bool → Client
unfolding begin_set complete
shared_set c key ttl_secs m = (complete m (begin_set c key ttl_secs m.started)).1

-- What the client found, else the pod's own entry.
abbrev pub found_or : Entries → Text → ℕ → Option Text × Client → Option Text × Cache
found_or entries key now (some v, c) = (some v, record { entries = entries; shared = some c })
found_or entries key now (none, c) =
    (get entries key now, record { entries = entries; shared = some c })

unfoldable pub lookup : Cache → Text → ℕ → Met (Option Text) → Option Text × Cache
unfolding shared_get
lookup c key now m = elim c.shared [
  | none ↦ (get c.entries key now, c)
  | some client ↦ found_or c.entries key now (shared_get client key m)
]

-- `fetched_at` and `sweep` are the readings of the clock in `put`.
unfoldable pub store : Cache → Text → Text → ℕ → ℕ → ℕ → Met Bool → Cache
unfolding shared_set
store c key value ttl_secs fetched_at sweep m =
    let entries = put_at c.entries key value ttl_secs fetched_at sweep in
    elim c.shared [
      | none ↦ record c { entries = entries }
      | some client ↦ record { entries = entries; shared = some (shared_set client key ttl_secs m) }
    ]

-- What the requests of a pod do with its cache.
pub data Use : Type 0 where
  looks : Text → ℕ → Met (Option Text) → Use
  stores : Text → Text → ℕ → ℕ → ℕ → Met Bool → Use

abbrev started_of : Use → ℕ
started_of (looks key now m) = m.started
started_of (stores key value ttl_secs fetched_at sweep m) = m.started

-- The answers of the lookups, a use after another.
unfoldable pub answers : Cache → List Use → List (Option Text)
unfolding lookup store
answers c [] = []
answers c (looks key now m ∷ uses) = let (out, c') = lookup c key now m in out ∷ answers c' uses
answers c (stores key value ttl_secs fetched_at sweep m ∷ uses) =
    answers (store c key value ttl_secs fetched_at sweep m) uses

shared_get-skipped :
    (c : Client) (until : ℕ) (key : Text) (m : Met (Option Text))
    → c.skip_until ≡ some until
    → m.started < until
    → shared_get c key m ≡ (none, c)
unfolding shared_get complete begin_get begin skipping
shared_get-skipped c until key m window early = ground arith

shared_set-skipped :
    (c : Client) (until : ℕ) (key : Text) (ttl_secs : ℕ) (m : Met Bool)
    → c.skip_until ≡ some until
    → m.started < until
    → shared_set c key ttl_secs m ≡ c
unfolding shared_set complete begin_set begin skipping
shared_set-skipped c until key ttl_secs m window early = ground arith

-- A lookup to which the shared cache gives nothing.
lookup-own :
    (entries : Entries) (c c' : Client) (key : Text) (now : ℕ) (m : Met (Option Text))
    → shared_get c key m ≡ (none, c')
    → lookup (record { entries = entries; shared = some c }) key now m
      ≡ (get entries key now, record { entries = entries; shared = some c' })
unfolding lookup
lookup-own entries c c' key now m nothing = ap (found_or entries key now) nothing

-- Within the window a pod uses its own entries alone.
answers-skipped :
    (entries : Entries) (c : Client) (until : ℕ) (uses : List Use)
    → c.skip_until ≡ some until
    → All (λ u. started_of u < until) uses
    → answers (record { entries = entries; shared = some c }) uses
      ≡ answers (record { entries = entries; shared = none }) uses
unfolding answers lookup store
answers-skipped entries c until [] window h = refl
answers-skipped entries c until (looks key now m ∷ uses) window (early, h) =
    ap (λ (r : Option Text × Cache). r.0 ∷ answers r.1 uses)
      (lookup-own entries c c key now m (shared_get-skipped c until key m window early))
    ∙ ap (λ (rest : List (Option Text)). get entries key now ∷ rest)
        (answers-skipped entries c until uses window h)
answers-skipped entries c until (stores key value ttl_secs fetched_at sweep m ∷ uses) window
      (early, h) =
    let entries' = put_at entries key value ttl_secs fetched_at sweep in
    ap (λ (c' : Client). answers (record { entries = entries'; shared = some c' }) uses)
      (shared_set-skipped c until key ttl_secs m window early)
    ∙ answers-skipped entries' c until uses window h

-- A call that fails gives nothing and opens the window.
shared_get-failed :
    (c : Client) (key : Text) (m : Met (Option Text)) (e : Text)
    → (begin_get c key m.started).0 ≢ skipped
    → m.outcome ≡ err e
    → ((shared_get c key m).0 ≡ none)
      × ((shared_get c key m).1.skip_until ≡ some (m.ended + skip_for))
unfolding shared_get complete begin_get begin skipping finish mark_failed
shared_get-failed c key m e started failed = ground arith

-- Where a lookup of the shared cache fails or times out, the pod answers it and every lookup begun
-- in the thirty seconds behind it as a pod without a shared cache, through any stores in between.
pub answers-outage :
    (entries : Entries) (c : Client) (key : Text) (now : ℕ) (m : Met (Option Text)) (e : Text)
    (uses : List Use)
    → (begin_get c key m.started).0 ≢ skipped
    → m.outcome ≡ err e
    → All (λ u. started_of u < m.ended + skip_for) uses
    → answers (record { entries = entries; shared = some c }) (looks key now m ∷ uses)
      ≡ answers (record { entries = entries; shared = none }) (looks key now m ∷ uses)
unfolding answers lookup
answers-outage entries c key now m e uses started failed early =
    let c' = (shared_get c key m).1 in
    let (nothing, window) = shared_get-failed c key m e started failed in
    ap (λ (r : Option Text × Cache). r.0 ∷ answers r.1 uses)
      (lookup-own entries c c' key now m (ap (λ (o : Option Text). (o, c')) nothing))
    ∙ ap (λ (rest : List (Option Text)). get entries key now ∷ rest)
        (answers-skipped entries c' (m.ended + skip_for) uses window early)
