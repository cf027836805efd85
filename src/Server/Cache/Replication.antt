-- ===== src/Server/Cache/Replication.antt =====
-- The lookups and writes of all pods one after another (server/src/cache.rs), next to the pods'
-- entries and one map.
use mathlib.Core.Path.{ap₂, subst}
use traintime_api.Common.{
  at, at_lem, at_self, ℕ, ◌≡◌, refl, sym, ap, ◌∙◌, Bool, true, false, Option, List, [], ◌∷◌,
  if◌then◌else◌, ◌&&◌, ◌==◌, ltb, All, Text,
}
use traintime_api.Server.Cache.{Entries, put_at}
use traintime_api.Server.Cache.Shared.{Cache}
use traintime_api.Server.Memcached.{valid_key}
use traintime_api.Server.Memcached.Fake.{Store}
use traintime_api.Server.Memcached.Exchange.{Ideal, set_at, view, IsStorable, HasValue}
use traintime_api.Server.Memcached.Refinement.{stored_by-HasValue, view-stored_by}
use traintime_api.Server.Cache.Replicas.{
  Left, lookup_over, store_over, PodUse, looks, stores, pod_answers, looked_up, ideal_answers,
  IsSound,
}
use traintime_api.Server.Cache.Replicas.Steps.{
  is_joined, IsHealthy, Steps, lookup_over-Steps, kept, store_over-Steps,
}

-- The pods with their Memcached, next to the entries, the clients and the map.
record Follows (caches : ℕ → Cache) (held : Store) (entries : ℕ → Entries) (joined : ℕ → Bool)
    (m : Ideal) : Type 0 where
  owns : (i : ℕ) → (caches i).entries ≡ entries i
  joins : (i : ℕ) → is_joined (caches i).shared ≡ joined i
  healthy : (i : ℕ) → IsHealthy (caches i).shared
  values : All HasValue held
  same : view held ≡ m

-- One pod takes a step; the others stay.
step-Follows :
    {A : Type 0} {caches : ℕ → Cache} {held : Store} {entries : ℕ → Entries} {joined : ℕ → Bool}
    {m : Ideal} (i : ℕ) (r : Left A) (a : A) (e : Entries) (b : Bool) (held' : Store)
    (entries' : ℕ → Entries) (m' : Ideal)
    → Follows caches held entries joined m
    → Steps r a e b held'
    → b ≡ joined i
    → e ≡ entries' i
    → ((j : ℕ) → i == j ≡ false → entries j ≡ entries' j)
    → All HasValue held'
    → view held' ≡ m'
    → Follows (at i r.cache caches) r.store entries' joined m'
step-Follows {caches = caches} {joined = joined} i r a e b held' entries' m' f step eb own others
      values same =
    record {
      owns =
          at_lem (λ j c. c.entries ≡ entries' j) i r.cache caches (step.own ∙ own)
            (λ j o. f.owns j ∙ others j o);
      joins =
          at_lem (λ j c. is_joined c.shared ≡ joined j) i r.cache caches (step.joins ∙ eb)
            (λ j o. f.joins j);
      healthy =
          at_lem (λ j c. IsHealthy c.shared) i r.cache caches step.healthy (λ j o. f.healthy j);
      values = subst (λ (s : Store). All HasValue s) (sym step.stored) values;
      same = ap view step.stored ∙ same;
    }

kept-HasValue :
    (joined : Bool) (held : Store) (key value : Text) (ttl_secs : ℕ)
    → IsStorable value
    → All HasValue held
    → All HasValue (kept joined held key value ttl_secs)
kept-HasValue true held key value ttl_secs new h = stored_by-HasValue held key value ttl_secs new h
kept-HasValue false held key value ttl_secs new h = h

view-kept :
    (joined : Bool) (held : Store) (key value : Text) (ttl_secs : ℕ)
    → view (kept joined held key value ttl_secs) ≡ (
        if joined && (valid_key key && ltb 0 ttl_secs)
        then set_at key value (view held)
        else view held)
view-kept true held key value ttl_secs = view-stored_by held key value ttl_secs
view-kept false held key value ttl_secs = refl

pod_answers-Follows :
    (caches : ℕ → Cache) (held : Store) (entries : ℕ → Entries) (joined : ℕ → Bool) (m : Ideal)
    (uses : List PodUse)
    → Follows caches held entries joined m
    → All IsSound uses
    → pod_answers caches held uses ≡ ideal_answers entries joined m uses
unfolding pod_answers ideal_answers
pod_answers-Follows caches held entries joined m [] f sound = refl
pod_answers-Follows caches held entries joined m (looks i key now ∷ uses) f (k, sound) =
    let r = lookup_over (caches i) held key now in
    let step =
      lookup_over-Steps (caches i).entries (caches i).shared held key now (f.healthy i) k
        f.values in
    let said : r.out ≡ looked_up (joined i) (entries i) m key now = step.answered ∙ alike f in
    ap₂ (λ (o : Option Text) (rest : List (Option Text)). o ∷ rest) said
      (pod_answers-Follows (at i r.cache caches) r.store entries joined m uses
        (step-Follows i r _ _ _ held entries m f step (f.joins i) (f.owns i) (λ j o. refl) f.values
          f.same)
        sound)
  where
    alike :
        Follows caches held entries joined m
        → looked_up (is_joined (caches i).shared) (caches i).entries (view held) key now
          ≡ looked_up (joined i) (entries i) m key now
    alike g =
        rw (g.joins i, g.owns i)
          (ap (λ (n : Ideal). looked_up (joined i) (entries i) n key now) g.same)
pod_answers-Follows caches held entries joined m
      (stores i key value ttl_secs fetched_at sweep now ∷ uses) f ((k, storable, life), sound) =
    let c = caches i in
    let r = store_over c held key value ttl_secs fetched_at sweep now in
    let e = put_at (entries i) key value ttl_secs fetched_at sweep in
    let step =
      store_over-Steps c.entries c.shared held key value ttl_secs fetched_at sweep now (f.healthy i)
        k storable life in
    pod_answers-Follows (at i r.cache caches) r.store (at i e entries) joined _ uses
      (step-Follows i r tt _ _ (kept (is_joined c.shared) held key value ttl_secs) (at i e entries)
        _ f step (f.joins i)
        (ap (λ (x : Entries). put_at x key value ttl_secs fetched_at sweep) (f.owns i)
          ∙ sym (at_self i e entries))
        (λ j o. rw o refl)
        (kept-HasValue (is_joined c.shared) held key value ttl_secs storable f.values)
        (view-kept (is_joined c.shared) held key value ttl_secs
          ∙ rw (f.joins i) (
              ap
                (λ (n : Ideal).
                  if joined i && (valid_key key && ltb 0 ttl_secs) then set_at key value n else n)
                f.same)))
      sound

-- Pods whose clients are outside their skip windows, over one Memcached that answers in time and lets
-- nothing expire, answer every lookup of every pod, in any order, as their own entries and one map: a
-- lookup of a pod with a client gives what any such pod stored last under the key with a TTL above
-- zero, or what the Memcached held before, if the key is sent, and else its own entry; a pod without
-- a client knows its own entries alone. The keys have no white space, the texts are made of
-- characters, a TTL is one of 64 bits, and the buffer of a value with its line end has at most
-- `isize::MAX` bytes.
pub pod_answers-ideal :
    (caches : ℕ → Cache) (held : Store) (uses : List PodUse)
    → ((i : ℕ) → IsHealthy (caches i).shared)
    → All HasValue held
    → All IsSound uses
    → pod_answers caches held uses
      ≡ ideal_answers (λ i. (caches i).entries) (λ i. is_joined (caches i).shared) (view held) uses
pod_answers-ideal caches held uses healthy values sound =
    pod_answers-Follows caches held _ _ _ uses
      (record {
        owns = λ i. refl;
        joins = λ i. refl;
        healthy = healthy;
        values = values;
        same = refl;
      })
      sound
