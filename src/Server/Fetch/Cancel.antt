-- ===== src/Server/Fetch/Cancel.antt =====
-- A call of `cached` (server/src/fetch.rs) whose future is dropped while it fetches.
use mathlib.Core.Path.{subst}
use traintime_api.Common.{
  ℕ, ◌≡◌, refl, sym, ap, ◌∙◌, ◌≢◌, ◌⊎◌, inl, inr, none, some, List, [], ◌∷◌, arith, Option-cases,
  Result, ok, err, Text, text_eq_iff, lookup, remove, lookup-insert, lookup-remove,
}
use traintime_api.Server.Cache.{lookup_with}
use traintime_api.Server.Fetch.{
  Task, idle, arrived, missed, waiting, woken, fetching, settled, removed, reporting, finished,
  dropped, Pod, Env, update, advance, arrive, Event, request, run, cancel, step, steps, booted,
}
use traintime_api.Server.Fetch.Invariant.{carrier, holder, IsSafe, carrier-wake}
use traintime_api.Server.Fetch.Flight.{steps-IsSafe, step-IsSafe, booted-IsSafe}

-- The key is in flight, and nobody carries its notify.
pub record IsOrphan (p : Pod) (key : Text) (n : ℕ) : Type 0 where
  pub listed : lookup key p.keys ≡ some n
  pub unclaimed : (i : ℕ) → carrier (p.tasks i) ≢ some n

cancel-IsOrphan :
    (p : Pod) (i ttl n : ℕ) (key : Text)
    → IsSafe p
    → p.tasks i ≡ fetching key ttl n
    → IsOrphan (step p (cancel i)) key n
unfolding step
cancel-IsOrphan p i ttl n key s here = record {
  listed = s.held i n key (ap holder here);
  unclaimed = λ j h. ground (arith, s.single i j n (ap carrier here));
}

-- A step after which nobody carries a notify anew.
still-IsOrphan :
    (p q : Pod) (i n : ℕ) (key : Text) (t : Task)
    → q.keys ≡ p.keys
    → q.tasks ≡ update i t p.tasks
    → (carrier t ≡ none) ⊎ (carrier t ≡ carrier (p.tasks i))
    → IsOrphan p key n
    → IsOrphan q key n
still-IsOrphan p q i n key t k e c o = record {
  listed = ap (lookup key) k ∙ o.listed;
  unclaimed = λ j h.
      let h' : carrier (update i t p.tasks j) ≡ some n =
        subst (λ (f : ℕ → Task). carrier (f j) ≡ some n) e h in
      ground (arith, o.unclaimed j, o.unclaimed i);
}

miss-IsOrphan :
    (p : Pod) (i ttl n : ℕ) (env : Env) (key k : Text)
    → IsSafe p
    → IsOrphan p key n
    → IsOrphan (advance p i env (missed k ttl)) key n
unfolding advance
miss-IsOrphan p i ttl n env key k s o = elim (Option-cases (lookup k p.keys)) [
  | inr (m, found) ↦
      rw (found, advance) (still-IsOrphan p _ i n key (waiting k m) refl refl (inl refl) o)
  | inl new ↦
      rw (new, advance)
        (record {
          listed = ground (arith, lookup-insert k key p.next p.keys, text_eq_iff k key, o.listed);
          unclaimed = λ j h. ground (arith, o.unclaimed j, s.listed_used key n o.listed);
        })
]

look-IsOrphan :
    (p : Pod) (i ttl n : ℕ) (env : Env) (key k : Text)
    → IsOrphan p key n
    → IsOrphan (advance p i env (arrived k ttl)) key n
unfolding advance
look-IsOrphan p i ttl n env key k o =
    elim (Option-cases (lookup_with env.shared p.cache k env.now)) [
      | inl miss ↦
          rw (miss, advance) (still-IsOrphan p _ i n key (missed k ttl) refl refl (inl refl) o)
      | inr (v, hit) ↦ rw (hit, advance) (still-IsOrphan p _ i n key _ refl refl (inl refl) o)
    ]

release-IsOrphan :
    (p : Pod) (i m n : ℕ) (key k : Text) (r : Result Text Text)
    → IsSafe p
    → p.tasks i ≡ settled k m r
    → IsOrphan p key n
    → IsOrphan (record p { keys = remove k p.keys; tasks = update i (removed k m r) p.tasks }) key n
release-IsOrphan p i m n key k r s here o = record {
  listed = ground (
    arith,
    lookup-remove k key p.keys,
    text_eq_iff k key,
    o.listed,
    s.held i m k (ap holder here),
    o.unclaimed i,
    ap carrier here,
  );
  unclaimed = λ j h. ground (arith, o.unclaimed j, o.unclaimed i, ap carrier here);
}

advance-IsOrphan :
    (p : Pod) (i n : ℕ) (env : Env) (key : Text) (t : Task)
    → p.tasks i ≡ t
    → IsSafe p
    → IsOrphan p key n
    → IsOrphan (advance p i env t) key n
unfolding advance
advance-IsOrphan p i n env key (arrived k ttl) e s o = look-IsOrphan p i ttl n env key k o
advance-IsOrphan p i n env key (missed k ttl) e s o = miss-IsOrphan p i ttl n env key k s o
advance-IsOrphan p i n env key (woken k) e s o = still-IsOrphan p _ i n key _ refl refl (inl refl) o
advance-IsOrphan p i n env key (fetching k ttl m) e s o = go env.outcome
  where
    go :
        (r : Result Text Text)
        → IsOrphan (advance p i (record env { outcome = r }) (fetching k ttl m)) key n
    go (ok v) =
        still-IsOrphan p _ i n key (settled k m (ok v)) refl refl (inr (sym (ap carrier e))) o
    go (err x) =
        still-IsOrphan p _ i n key (settled k m (err x)) refl refl (inr (sym (ap carrier e))) o
advance-IsOrphan p i n env key (settled k m r) e s o = release-IsOrphan p i m n key k r s e o
advance-IsOrphan p i n env key (removed k m r) e s o = record {
  listed = o.listed;
  unclaimed = λ j h.
      let h' : carrier (update i (reporting k r) p.tasks j) ≡ some n =
        sym (carrier-wake m (update i (reporting k r) p.tasks j)) ∙ h in
      ground (arith, o.unclaimed j);
}
advance-IsOrphan p i n env key (reporting k (ok v)) e s o =
    still-IsOrphan p _ i n key _ refl refl (inl refl) o
advance-IsOrphan p i n env key (reporting k (err x)) e s o =
    still-IsOrphan p _ i n key _ refl refl (inl refl) o
advance-IsOrphan p i n env key idle e s o = o
advance-IsOrphan p i n env key (waiting k m) e s o = o
advance-IsOrphan p i n env key (finished r) e s o = o
advance-IsOrphan p i n env key dropped e s o = o

arrive-IsOrphan :
    (p : Pod) (i ttl n : ℕ) (key k : Text) (t : Task)
    → IsOrphan p key n
    → IsOrphan (arrive p i k ttl t) key n
unfolding arrive
arrive-IsOrphan p i ttl n key k idle o =
    still-IsOrphan p _ i n key (arrived k ttl) refl refl (inl refl) o
arrive-IsOrphan p i ttl n key k _ o = o

step-IsOrphan :
    (p : Pod) (e : Event) (key : Text) (n : ℕ)
    → IsSafe p
    → IsOrphan p key n
    → IsOrphan (step p e) key n
unfolding step
step-IsOrphan p (request i k ttl) key n s o = arrive-IsOrphan p i ttl n key k (p.tasks i) o
step-IsOrphan p (run i env) key n s o = advance-IsOrphan p i n env key (p.tasks i) refl s o
step-IsOrphan p (cancel i) key n s o = still-IsOrphan p _ i n key dropped refl refl (inl refl) o

steps-IsOrphan :
    (p : Pod) (events : List Event) (key : Text) (n : ℕ)
    → IsSafe p
    → IsOrphan p key n
    → IsSafe (steps p events) × IsOrphan (steps p events) key n
unfolding steps
steps-IsOrphan p [] key n s o = (s, o)
steps-IsOrphan p (e ∷ events) key n s o =
    steps-IsOrphan (step p e) events key n (step-IsSafe p e s) (step-IsOrphan p e key n s o)

-- Once the call that fetches a key is dropped, no call ever fetches that key again, whatever
-- happens afterwards, and a call that asks for it waits for a notify that nobody fires.
pub steps-cancel-IsOrphan :
    (before after : List Event) (i j ttl ttl' n m : ℕ) (key : Text)
    → (steps booted before).tasks i ≡ fetching key ttl n
    → IsOrphan (steps (step (steps booted before) (cancel i)) after) key n
      × ((steps (step (steps booted before) (cancel i)) after).tasks j ≢ fetching key ttl' m)
steps-cancel-IsOrphan before after i j ttl ttl' n m key here =
    let safe = steps-IsSafe booted before booted-IsSafe in
    let p = step (steps booted before) (cancel i) in
    let (s, o) =
      steps-IsOrphan p after key n (step-IsSafe (steps booted before) (cancel i) safe)
        (cancel-IsOrphan (steps booted before) i ttl n key safe here) in
    (
      o,
      (λ again.
          let listed = s.held j m key (ap holder again) in
          let same : m ≡ n = ground (arith, listed, o.listed) in
          o.unclaimed j (ap carrier again ∙ ap some same)),
    )
