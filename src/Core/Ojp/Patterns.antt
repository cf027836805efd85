-- ===== src/Core/Ojp/Patterns.antt =====
-- core/src/ojp.rs, `compile`: the patterns that a thread has compiled. The regex library is a
-- parameter.
use traintime_api.Common.{
  ℕ, suc, ◌≡◌, refl, sym, ap, ◌∙◌, inl, inr, Option, none, some, List, [], ◌∷◌, map, arith, length,
  All, Option-cases, Text, lookup, insert, lookup-insert, text_eq_iff, HasDistinctKeys,
  insert-HasDistinctKeys,
}
use mathlib.Core.Path.{ap₂}

-- What the program uses of the regex library: a compiled pattern, the first group of the first
-- match, all matches, and the first match from a place on. A match is its start and its end.
pub record RegexLib : Type 1 where
  pub Regex : Type 0
  pub new : Text → Option Regex
  pub captures : Regex → Text → Option Text
  pub find_iter : Regex → Text → List (ℕ × ℕ)
  pub find_at : Regex → Text → ℕ → Option (ℕ × ℕ)

module _ (lib : RegexLib) where
  open lib use {Regex, new}

  -- `PATTERNS`, and `COMPILES`, the number of compilations.
  pub record Compiled : Type 0 where
    pub patterns : List (Text × Regex)
    pub compiles : ℕ

  unfoldable pub compile : Text → Compiled → Option Regex × Compiled
  compile pattern st = elim (lookup pattern st.patterns) [
    | some re ↦ (some re, st)
    | none ↦ elim (new pattern) [
      | none ↦ (none, record st { compiles = suc st.compiles })
      | some re ↦
          (some re, record { patterns = insert pattern re st.patterns; compiles = suc st.compiles })
    ]
  ]

  unfoldable pub compile_all : List Text → Compiled → List (Option Regex) × Compiled
  unfolding compile
  compile_all [] st = ([], st)
  compile_all (p ∷ ps) st =
      let (re, st') = compile p st in let (res, st'') = compile_all ps st' in (re ∷ res, st'')

  -- One entry for a pattern, which is what the library makes of it, and one compilation for each.
  pub record IsCoherent (st : Compiled) : Type 0 where
    pub faithful : (p : Text) (re : Regex) → lookup p st.patterns ≡ some re → new p ≡ some re
    pub distinct : HasDistinctKeys st.patterns
    pub counted : st.compiles ≡ length st.patterns

  length-insert_new :
      (p : Text) (re : Regex) (m : List (Text × Regex))
      → lookup p m ≡ none
      → length (insert p re m) ≡ suc (length m)
  unfolding lookup insert
  length-insert_new p re [] h = refl
  length-insert_new p re (entry ∷ m) h = ground (arith, length-insert_new p re m)

  compile_lem :
      (p : Text) (re : Regex) (st : Compiled)
      → IsCoherent st
      → new p ≡ some re
      → ((compile p st).0 ≡ some re) × IsCoherent (compile p st).1
  unfolding compile
  compile_lem p re st c h = elim (Option-cases (lookup p st.patterns)) [
    | inr (found, e) ↦ rw (compile, e) (ground (arith, c.faithful p found e), c)
    | inl e ↦
        rw (compile, e, h)
          (
            refl,
            record {
              faithful = λ q re' e'. known q re' e';
              distinct = insert-HasDistinctKeys p re st.patterns c.distinct;
              counted = ap suc c.counted ∙ sym (length-insert_new p re st.patterns e);
            },
          )
  ]
    where
      known :
          (q : Text) (re' : Regex)
          → lookup q (insert p re st.patterns) ≡ some re'
          → new q ≡ some re'
      known q re' e' =
          ground (arith, lookup-insert p q re st.patterns, c.faithful q re', text_eq_iff p q)

  -- Where every pattern is one that the library accepts, a run of calls gives what the library
  -- makes of each, whatever was compiled before; and it keeps one compilation for each pattern.
  pub compile_all-new :
      (ps : List Text) (st : Compiled)
      → IsCoherent st
      → All (λ p. (re : Regex) × (new p ≡ some re)) ps
      → ((compile_all ps st).0 ≡ map new ps) × IsCoherent (compile_all ps st).1
  unfolding compile_all
  compile_all-new [] st c h = (refl, c)
  compile_all-new (p ∷ ps) st c h =
      let (re, accepted) = h.0 in
      let (same, c') = compile_lem p re st c accepted in
      let (rest, c'') = compile_all-new ps (compile p st).1 c' h.1 in
      (ap₂ (λ x (xs : List (Option Regex)). x ∷ xs) (same ∙ sym accepted) rest, c'')
