-- ===== src/Examples/Replicas.antt =====
-- Three pods at a concrete run: the first has its own entries alone, the others share a Memcached.
use traintime_api.Common.{
  ℕ, zero, suc, ◌≡◌, refl, some, none, List, [], ◌∷◌, arith, Text, codes, lookup, insert,
}
use traintime_api.Common.Utf8.{as_bytes}
use traintime_api.Server.Cache.{get, put_at}
use traintime_api.Server.Cache.Shared.{Cache}
use traintime_api.Server.Cache.Replicas.{PodUse, looks, stores, pod_answers, ideal_answers}
use traintime_api.Server.Cache.Replication.{pod_answers-ideal}
use traintime_api.Server.Cache.Replicas.Steps.{IsHealthy, is_joined}
use traintime_api.Server.Memcached.{valid_key}
use traintime_api.Server.Memcached.Exchange.{view, IsKey}

abbrev key : Text
key = codes "k"

abbrev value : Text
value = codes "[]"

abbrev caches : ℕ → Cache
caches zero = record { entries = []; shared = none }
caches (suc i) = record { entries = []; shared = some (record { idle = []; skip_until = none }) }

-- A pod reads what another one stored; the pod without a client does not.
abbrev uses : List PodUse
uses =
    looks 1 key 1 ∷ stores 2 key value 60 1 2 3 ∷ looks 1 key 4 ∷ looks 0 key 5 ∷ looks 1 [] 6 ∷ []

key_plain : IsKey key
key_plain = (omega arith, (refl, tt))

healthy : (i : ℕ) → IsHealthy (caches i).shared
healthy zero = tt
healthy (suc i) = refl

pod_answers-ideal_example :
    pod_answers caches [] uses
    ≡ ideal_answers (λ i. (caches i).entries) (λ i. is_joined (caches i).shared) (view []) uses
pod_answers-ideal_example = pod_answers-ideal caches [] uses healthy tt (
  key_plain,
  (
    (key_plain, (omega arith, unfold as_bytes in omega arith), omega arith),
    (key_plain, (key_plain, ((tt, tt), tt))),
  ),
)

uses_run :
    ideal_answers (λ i. (caches i).entries) (λ i. is_joined (caches i).shared) (view []) uses
    ≡ none ∷ some value ∷ none ∷ none ∷ []
unfolding ideal_answers valid_key as_bytes get put_at lookup insert
uses_run = refl
