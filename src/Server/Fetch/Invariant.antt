-- ===== src/Server/Fetch/Invariant.antt =====
-- Who carries a notify and who waits for it (server/src/fetch.rs), and the invariant of a pod.
use traintime_api.Common.{
  ℕ, suc, ◌<◌, ◌≡◌, refl, sym, ap, ◌∙◌, ◌⊎◌, inl, inr, Option, none, some, List, arith, ◌==◌,
  ==_iff, Bool-cases, Result, Text, text_eq_iff, lookup, insert, remove, lookup-insert,
  lookup-remove,
}
use mathlib.Core.Path.{subst}
use traintime_api.Server.Fetch.{Task, waiting, fetching, settled, removed, Pod, update, wake}

-- The notify that a task will fire.
abbrev pub carrier : Task → Option ℕ
carrier (fetching key ttl n) = some n
carrier (settled key n r) = some n
carrier (removed key n r) = some n
carrier _ = none

-- The entry of the table that a task will remove.
abbrev pub holder : Task → Option (Text × ℕ)
holder (fetching key ttl n) = some (key, n)
holder (settled key n r) = some (key, n)
holder _ = none

-- The notify that a task waits for.
abbrev pub awaits : Task → Option ℕ
awaits (waiting key n) = some n
awaits _ = none

pub carrier-holder : (t : Task) (key : Text) (n : ℕ) → holder t ≡ some (key, n) → carrier t ≡ some n
carrier-holder (fetching k ttl m) key n h = ground arith
carrier-holder (settled k m r) key n h = ground arith
carrier-holder _ key n h = absurd (cc)

pub carrier-wake : (n : ℕ) (t : Task) → carrier (wake n t) ≡ carrier t
unfolding wake
carrier-wake n (waiting key m) = ground arith
carrier-wake n _ = refl

pub holder-wake : (n : ℕ) (t : Task) → holder (wake n t) ≡ holder t
unfolding wake
holder-wake n (waiting key m) = ground arith
holder-wake n _ = refl

pub record IsSafe (p : Pod) : Type 0 where
  pub single : (i j n : ℕ) → carrier (p.tasks i) ≡ some n → carrier (p.tasks j) ≡ some n → i ≡ j
  pub held :
      (i n : ℕ) (key : Text) → holder (p.tasks i) ≡ some (key, n) → lookup key p.keys ≡ some n
  pub used : (i n : ℕ) → carrier (p.tasks i) ≡ some n → n < p.next
  pub listed_used : (key : Text) (n : ℕ) → lookup key p.keys ≡ some n → n < p.next

-- A task that carries and holds nothing new.
abbrev pub Narrows : Task → Task → Type 0
Narrows t u =
    ((carrier t ≡ none) ⊎ (carrier t ≡ carrier u)) × ((holder t ≡ none) ⊎ (holder t ≡ holder u))

carrier-Narrows : (t u : Task) (n : ℕ) → Narrows t u → carrier t ≡ some n → carrier u ≡ some n
carrier-Narrows t u n (inl e, _) h = absurd (cc)
carrier-Narrows t u n (inr e, _) h = sym e ∙ h

holder-Narrows : (t u : Task) (r : Text × ℕ) → Narrows t u → holder t ≡ some r → holder u ≡ some r
holder-Narrows t u r (_, inl e) h = absurd (cc)
holder-Narrows t u r (_, inr e) h = sym e ∙ h

pub Narrows-update :
    (i : ℕ) (t : Task) (tasks : ℕ → Task)
    → Narrows t (tasks i)
    → (j : ℕ) → Narrows (update i t tasks j) (tasks j)
Narrows-update i t tasks h j = elim (Bool-cases (i == j)) [
  | inl same ↦
      let e : i ≡ j = (==_iff i j).0 same in rw same (subst (λ (k : ℕ). Narrows t (tasks k)) e h)
  | inr other ↦ rw other (inr refl, inr refl)
]

-- A step after which no task carries or holds anything new keeps the invariant.
pub narrow-IsSafe :
    (p q : Pod)
    → q.keys ≡ p.keys
    → q.next ≡ p.next
    → ((j : ℕ) → Narrows (q.tasks j) (p.tasks j))
    → IsSafe p
    → IsSafe q
narrow-IsSafe p q same_keys same_next h s = record {
  single = λ i j n a b.
      s.single i j n (carrier-Narrows (q.tasks i) (p.tasks i) n (h i) a)
        (carrier-Narrows (q.tasks j) (p.tasks j) n (h j) b);
  held = λ i n key a.
      ap (lookup key) same_keys
      ∙ s.held i n key (holder-Narrows (q.tasks i) (p.tasks i) (key, n) (h i) a);
  used = λ i n a.
      subst (λ (m : ℕ). n < m) (sym same_next)
        (s.used i n (carrier-Narrows (q.tasks i) (p.tasks i) n (h i) a));
  listed_used = λ key n a.
      subst (λ (m : ℕ). n < m) (sym same_next)
        (s.listed_used key n (ap (lookup key) (sym same_keys) ∙ a));
}

-- The first miss of a key: it gets an entry with an unused notify.
pub lead-IsSafe :
    (p : Pod) (i ttl : ℕ) (key : Text) (fetches : List Text)
    → lookup key p.keys ≡ none
    → IsSafe p
    → IsSafe (record p {
      keys = insert key p.next p.keys;
      next = suc p.next;
      tasks = update i (fetching key ttl p.next) p.tasks;
      fetches = fetches;
    })
lead-IsSafe p i ttl key fetches new s = record {
  single = λ a b n ca cb. ground (arith, s.single a b n, s.used a n, s.used b n);
  held =
      λ a n k h. ground (arith, s.held a n k, lookup-insert key k p.next p.keys, text_eq_iff key k);
  used = λ a n h. ground (arith, s.used a n);
  listed_used = λ k n h. ground (arith, s.listed_used k n, lookup-insert key k p.next p.keys);
}

-- The leader of a key removes its entry, which is the only one it holds.
pub release-IsSafe :
    (p : Pod) (i n : ℕ) (key : Text) (r : Result Text Text)
    → p.tasks i ≡ settled key n r
    → IsSafe p
    → IsSafe (record p { keys = remove key p.keys; tasks = update i (removed key n r) p.tasks })
release-IsSafe p i n key r here s = record {
  single = λ a b m ca cb.
      ground (arith, s.single a b m, s.single i b m, s.single a i m, ap carrier here);
  held = λ a m k h. ground (
    arith,
    s.held a m k,
    s.held i n key,
    lookup-remove key k p.keys,
    text_eq_iff key k,
    carrier-holder (p.tasks a) k m,
    s.single a i m,
    ap carrier here,
    ap holder here,
  );
  used = λ a m h. ground (arith, s.used a m, s.used i m, ap carrier here);
  listed_used = λ k m h. ground (arith, s.listed_used k m, lookup-remove key k p.keys);
}
