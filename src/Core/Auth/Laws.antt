-- ===== src/Core/Auth/Laws.antt =====
-- What the key check of core/src/auth.rs accepts.
use traintime_api.Common.{
  ℕ, ◌≤◌, ◌≡◌, refl, sym, ap, ◌≢◌, ◌↔◌, ◌⊎◌, inl, inr, true, Option, none, some, List, [], ◌∷◌,
  ◌++◌, map, arith, if◌then◌else◌, Bool-cases, length, filter, Elem, All, All-append, is_empty, ok,
  err, Text, trim, split, unwrap_or, take, drop, ◌∙◌,
}
use Prim.Native.Nat.{bit_or, bit_xor}
use traintime_api.Common.Bits.{bit_xor-eq-zero_iff, bit_or-eq-zero_iff}
use traintime_api.Common.Utf8.{Bytes, IsChar, as_bytes, as_bytes_inj, as_bytes-nil, as_bytes_nil}
use mathlib.Core.Path.{subst}
use traintime_api.Core.Auth.{
  ApiKeys, is_filled, entries, legacy, parse, diff_from, constant_time_eq, matched_from, matched,
  label, no_keys,
}

diff_from-eq-zero :
    (d : ℕ) (a b : Bytes) → length a ≡ length b → (diff_from d a b ≡ 0) ↔ ((d ≡ 0) × (a ≡ b))
unfolding diff_from
diff_from-eq-zero d [] [] h = ((λ e. (e, refl)), (λ p. p.0))
diff_from-eq-zero d [] (y ∷ b) h = absurd (omega arith)
diff_from-eq-zero d (x ∷ a) [] h = absurd (omega arith)
diff_from-eq-zero d (x ∷ a) (y ∷ b) h = ground (
  arith,
  diff_from-eq-zero (bit_or d (bit_xor x y)) a b,
  bit_or-eq-zero_iff d (bit_xor x y),
  bit_xor-eq-zero_iff x y,
)

-- The comparison that looks at every byte decides equality of the two byte strings.
constant_time_eq_iff : (a b : Bytes) → (constant_time_eq a b ≡ true) ↔ (a ≡ b)
unfolding constant_time_eq
constant_time_eq_iff a b = (
  (λ h. ground (arith, diff_from-eq-zero 0 a b)),
  (λ e. rw e (ground (arith, (diff_from-eq-zero 0 b b refl).1 (refl, refl)))),
)

abbrev pub HasChars : Text → Type 0
HasChars s = All IsChar s

matches_iff :
    (k p : Text)
    → HasChars k
    → HasChars p
    → (constant_time_eq (as_bytes k) (as_bytes p) ≡ true) ↔ (k ≡ p)
matches_iff k p hk hp = (
  (λ h. as_bytes_inj k p hk hp ((constant_time_eq_iff (as_bytes k) (as_bytes p)).0 h)),
  (λ e. (constant_time_eq_iff (as_bytes k) (as_bytes p)).1 (ap as_bytes e)),
)

matched_from_lem :
    (found : Option Text) (ks : List Text) (p : Text)
    → All HasChars ks
    → HasChars p
    → (Elem p ks × (matched_from found ks p ≡ some p))
      ⊎ ((¬ Elem p ks) × (matched_from found ks p ≡ found))
unfolding matched_from
matched_from_lem found [] p h hp = inr ((λ m. m), refl)
matched_from_lem found (k ∷ ks) p h hp =
    elim (Bool-cases (constant_time_eq (as_bytes k) (as_bytes p))) [
      | inl hit ↦
          let same : k ≡ p = (matches_iff k p h.0 hp).0 hit in
          rw hit (elim (matched_from_lem (some k) ks p h.1 hp) [
            | inl (m, e) ↦ inl (inr m, e)
            | inr (no_more, e) ↦ inl (inl (sym same), rw e (ap some same))
          ])
      | inr miss ↦ rw miss (elim (matched_from_lem found ks p h.1 hp) [
        | inl (m, e) ↦ inl (inr m, e)
        | inr (no_more, e) ↦ inr (ground (arith, matches_iff k p h.0 hp), e)
      ])
    ]

pub matched-cases :
    (ks : ApiKeys) (p : Text)
    → All HasChars ks.keys
    → HasChars p
    → (Elem p ks.keys × (matched ks p ≡ some p)) ⊎ ((¬ Elem p ks.keys) × (matched ks p ≡ none))
unfolding matched
matched-cases ks p h hp = elim (matched_from_lem none ks.keys p h hp) [
  | inl (m, e) ↦ inl (m, e)
  | inr (m, e) ↦ inr (m, e)
]

-- A request's key is accepted exactly if it is one of the configured keys, and then the key that
-- is reported is the request's own.
pub matched_iff :
    (ks : ApiKeys) (p : Text)
    → All HasChars ks.keys
    → HasChars p
    → ((matched ks p ≡ some p) ↔ Elem p ks.keys) × ((matched ks p ≡ none) ↔ (¬ Elem p ks.keys))
unfolding matched
matched_iff ks p h hp = elim (matched_from_lem none ks.keys p h hp) [
  | inl (m, e) ↦ (((λ _. m), (λ _. e)), ((λ n. absurd (cc)), (λ n. absurd (n m))))
  | inr (m, e) ↦ (((λ s. absurd (cc)), (λ n. absurd (m n))), ((λ _. m), (λ _. e)))
]

matched_from-Elem :
    (found : Option Text) (ks : List Text) (p k : Text)
    → matched_from found ks p ≡ some k
    → (found ≡ some k) ⊎ Elem k ks
unfolding matched_from
matched_from-Elem found [] p k h = inl h
matched_from-Elem found (key ∷ ks) p k h =
    elim (matched_from-Elem
      (if constant_time_eq (as_bytes key) (as_bytes p) then some key else found) ks p k h) [
        | inr m ↦ inr (inr m)
        | inl e ↦ ground arith
      ]

-- What is matched is one of the keys.
pub matched-Elem : (ks : ApiKeys) (p k : Text) → matched ks p ≡ some k → Elem k ks.keys
unfolding matched
matched-Elem ks p k h = elim (matched_from-Elem none ks.keys p k h) [
  | inl e ↦ absurd (cc)
  | inr m ↦ m
]

filter-filled : (ks : List Text) → All (λ k. is_filled k ≡ true) (filter is_filled ks)
filter-filled [] = tt
filter-filled ([] ∷ ks) = filter-filled ks
filter-filled ((c ∷ k) ∷ ks) = (refl, filter-filled ks)

entries-filled : (list : Option Text) → All (λ k. is_filled k ≡ true) (entries list)
unfolding entries
entries-filled list = filter-filled (map trim (split b',' (unwrap_or list [])))

legacy-filled : (s : Option Text) → All (λ k. is_filled k ≡ true) (legacy s)
unfolding legacy
legacy-filled none = tt
legacy-filled (some k) = filter-filled (trim k ∷ [])

-- The last two lines of `parse`: the chosen keys, refused if there is none.
finish_parse :
    (keys : List Text) {ks : ApiKeys}
    → All (λ k. is_filled k ≡ true) keys
    → (if is_empty keys then err no_keys else ok (record { keys = keys })) ≡ ok ks
    → (ks.keys ≢ []) × All (λ k. is_filled k ≡ true) ks.keys
finish_parse [] h e = absurd (cc)
finish_parse (k ∷ keys) {ks} h e =
    let same : k ∷ keys ≡ ks.keys = ground arith in
    ((λ none_left. cc), subst (All (λ v. is_filled v ≡ true)) same h)

parse-eq-ok :
    (list single : Option Text) {ks : ApiKeys}
    → parse list single ≡ ok ks
    → (ks.keys ≢ []) × All (λ k. is_filled k ≡ true) ks.keys
unfolding parse
parse-eq-ok list single e = elim (Bool-cases (is_empty (entries list))) [
  | inl blank ↦
      finish_parse (entries list ++ legacy single)
        (All-append _ (entries list) (legacy single) (entries-filled list) (legacy-filled single))
        (rw blank at e)
  | inr found ↦ finish_parse (entries list) (entries-filled list) (rw found at e)
]

no_empty_match :
    (ks : List Text) → All (λ k. is_filled k ≡ true) ks → matched_from none ks [] ≡ none
unfolding matched_from
no_empty_match [] h = refl
no_empty_match ([] ∷ ks) h = cc
no_empty_match ((c ∷ k) ∷ ks) h =
    elim (Bool-cases (constant_time_eq (as_bytes (c ∷ k)) (as_bytes []))) [
      | inl hit ↦ absurd (
          cc (
            as_bytes-nil (c ∷ k)
              ((constant_time_eq_iff (as_bytes (c ∷ k)) (as_bytes [])).0 hit ∙ as_bytes_nil)))
      | inr miss ↦ rw miss (no_empty_match ks h.1)
    ]

-- A server that boots has a key, and refuses the empty key.
pub parse-matched_empty :
    (list single : Option Text) {ks : ApiKeys}
    → parse list single ≡ ok ks
    → (ks.keys ≢ []) × (matched ks [] ≡ none)
unfolding matched
parse-matched_empty list single {ks} e =
    let (some_key, filled) = parse-eq-ok list single e in (some_key, no_empty_match ks.keys filled)

-- A label is the key's first four characters.
pub label-take : (key : Text) → label key ≡ take 4 key
unfolding label
label-take (a ∷ b ∷ c ∷ d ∷ e ∷ key) = refl
label-take (a ∷ b ∷ c ∷ d ∷ []) = refl
label-take (a ∷ b ∷ c ∷ []) = refl
label-take (a ∷ b ∷ []) = refl
label-take (a ∷ []) = refl
label-take [] = refl

-- A label is the key's beginning, of four characters at most.
label-append-drop : (key : Text) → (label key ++ drop 4 key ≡ key) × (length (label key) ≤ 4)
unfolding label
label-append-drop (a ∷ b ∷ c ∷ d ∷ e ∷ key) = (refl, omega arith)
label-append-drop (a ∷ b ∷ c ∷ d ∷ []) = (refl, omega arith)
label-append-drop (a ∷ b ∷ c ∷ []) = (refl, omega arith)
label-append-drop (a ∷ b ∷ []) = (refl, omega arith)
label-append-drop (a ∷ []) = (refl, omega arith)
label-append-drop [] = (refl, omega arith)
