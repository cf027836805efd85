-- ===== src/Server/Fetch/Live.antt =====
-- Who waits and who will wake them, across the changes of one task (server/src/fetch.rs).
use mathlib.Core.Path.{subst}
use traintime_api.Common.{
  ℕ, suc, ◌≡◌, refl, sym, ap, ◌∙◌, ◌⊎◌, inl, inr, none, some, List, arith, ◌==◌, ==_iff, Bool-cases,
  Result, Text, text_eq, text_eq_iff, lookup, insert, remove, lookup-insert, lookup-remove,
}
use traintime_api.Server.Fetch.{Task, missed, fetching, settled, removed, Pod, update}
use traintime_api.Server.Fetch.Invariant.{carrier, holder, awaits, Narrows}

pub record IsLive (p : Pod) : Type 0 where
  pub awaited : (i n : ℕ) → awaits (p.tasks i) ≡ some n → (j : ℕ) × (carrier (p.tasks j) ≡ some n)
  pub listed :
      (key : Text) (n : ℕ)
      → lookup key p.keys ≡ some n
      → (j : ℕ) × (holder (p.tasks j) ≡ some (key, n))

-- What a task waits for afterwards, it waited for before, or a task carries it.
abbrev Awaits : Pod → Task → Task → Type 0
Awaits p t u =
    (awaits t ≡ none)
    ⊎ ((awaits t ≡ awaits u)
        ⊎ ((n : ℕ) × (j : ℕ) × (awaits t ≡ some n) × (carrier (p.tasks j) ≡ some n)))

keep-carrier : (t u : Task) (n : ℕ) → Narrows t u → carrier t ≡ some n → carrier u ≡ some n
keep-carrier t u n (inl e, _) h = absurd (cc)
keep-carrier t u n (inr e, _) h = sym e ∙ h

keep-holder : (t u : Task) (r : Text × ℕ) → Narrows t u → holder t ≡ some r → holder u ≡ some r
keep-holder t u r (_, inl e) h = absurd (cc)
keep-holder t u r (_, inr e) h = sym e ∙ h

awaited_by :
    (p : Pod) (t u : Task) (n : ℕ)
    → ((m : ℕ) → awaits u ≡ some m → (j : ℕ) × (carrier (p.tasks j) ≡ some m))
    → Awaits p t u
    → awaits t ≡ some n
    → (j : ℕ) × (carrier (p.tasks j) ≡ some n)
awaited_by p t u n old (inl e) h = absurd (cc)
awaited_by p t u n old (inr (inl e)) h = old n (sym e ∙ h)
awaited_by p t u n old (inr (inr (m, j, e, c))) h = (j, c ∙ sym e ∙ h)

-- A step that takes no notify and no entry from anyone keeps the pod live.
pub widen-IsLive :
    (p q : Pod) (i : ℕ) (t : Task)
    → q.keys ≡ p.keys
    → q.tasks ≡ update i t p.tasks
    → Narrows (p.tasks i) t
    → Awaits p t (p.tasks i)
    → IsLive p
    → IsLive q
widen-IsLive p q i t same_keys e kept waits l = record {
  awaited = λ a n h.
      let (j, c) =
        awaited_by p (update i t p.tasks a) (p.tasks a) n (l.awaited a) (waits_at a)
          (subst (λ (f : ℕ → Task). awaits (f a) ≡ some n) e h) in
      (
        j,
        subst (λ (f : ℕ → Task). carrier (f j) ≡ some n) (sym e)
            (keep-carrier (p.tasks j) (update i t p.tasks j) n (kept_at j) c),
      );
  listed = λ key n h.
      let (j, c) = l.listed key n (ap (lookup key) (sym same_keys) ∙ h) in
      (
        j,
        subst (λ (f : ℕ → Task). holder (f j) ≡ some (key, n)) (sym e)
            (keep-holder (p.tasks j) (update i t p.tasks j) (key, n) (kept_at j) c),
      );
}
  where
    kept_at : (j : ℕ) → Narrows (p.tasks j) (update i t p.tasks j)
    kept_at j = elim (Bool-cases (i == j)) [
      | inl same ↦ rw same (subst (λ (k : ℕ). Narrows (p.tasks k) t) ((==_iff i j).0 same) kept)
      | inr other ↦ rw other (inr refl, inr refl)
    ]

    waits_at : (j : ℕ) → Awaits p (update i t p.tasks j) (p.tasks j)
    waits_at j = elim (Bool-cases (i == j)) [
      | inl same ↦ rw same (subst (λ (k : ℕ). Awaits p t (p.tasks k)) ((==_iff i j).0 same) waits)
      | inr other ↦ rw other (inr (inl refl))
    ]

pub lead-IsLive :
    (p : Pod) (i ttl : ℕ) (key : Text) (fetches : List Text)
    → p.tasks i ≡ missed key ttl
    → IsLive p
    → IsLive (record p {
      keys = insert key p.next p.keys;
      next = suc p.next;
      tasks = update i (fetching key ttl p.next) p.tasks;
      fetches = fetches;
    })
lead-IsLive p i ttl key fetches here l = record {
  awaited = λ a n h. elim (Bool-cases (i == a)) [
    | inl same ↦ absurd (cc (rw same at h))
    | inr other ↦ let (j, c) = l.awaited a n (rw other at h) in (j, ground (arith, ap carrier here))
  ];
  listed = λ k n h. elim (Bool-cases (text_eq key k)) [
    | inl same ↦
        let e : key ≡ k = (text_eq_iff key k).0 same in
        let f : some p.next ≡ some n = ground (arith, lookup-insert key k p.next p.keys) in
        (i, ground arith)
    | inr other ↦
        let (j, c) = l.listed k n (ground (arith, lookup-insert key k p.next p.keys)) in
        (j, ground (arith, ap holder here))
  ];
}

pub release-IsLive :
    (p : Pod) (i n : ℕ) (key : Text) (r : Result Text Text)
    → p.tasks i ≡ settled key n r
    → IsLive p
    → IsLive (record p { keys = remove key p.keys; tasks = update i (removed key n r) p.tasks })
release-IsLive p i n key r here l = record {
  awaited = λ a m h. elim (Bool-cases (i == a)) [
    | inl same ↦ absurd (cc (rw same at h))
    | inr other ↦ let (j, c) = l.awaited a m (rw other at h) in (j, ground (arith, ap carrier here))
  ];
  listed = λ k m h.
      let (j, c) = l.listed k m (ground (arith, lookup-remove key k p.keys)) in
      (j, ground (arith, ap holder here, lookup-remove key k p.keys, text_eq_iff key k));
}
