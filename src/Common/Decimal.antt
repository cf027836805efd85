-- ===== src/Common/Decimal.antt =====
-- Decimal numbers as text: what `{}` prints for an unsigned integer, and `str::parse`.
use Prim.Native.Nat.{ℕ, zero, suc, ◌^◌, ◌+◌, ◌-◌, ◌*◌, ◌/◌, ◌%◌, ◌≤◌, ◌<◌}
use mathlib.Core.Path.{◌≡◌, refl, ◌∙◌, ap, sym, subst}
use mathlib.Core.Logic.{inl, inr}
use mathlib.Core.Bool.{◌&&◌}
use mathlib.Core.Option.{Option, none, some}
use mathlib.Core.List.{[], ◌∷◌, ◌++◌, append-nil}
use native.Mathlib.Omega.{arith}
use traintime_api.Common.Int.{ℤ, pos, negsuc}
use traintime_api.Common.Tests.{◌==◌, ltb, leb, if◌then◌else◌, Bool-cases}
use traintime_api.Common.Lists.{length, All, All-append}
use traintime_api.Common.Texts.{Text, is_ascii_digit}

-- The digits of a number, most significant first, on fuel.
digits_from : ℕ → ℕ → Text
digits_from zero n = []
digits_from (suc f) n =
    let more = digits_from f (n / 10) ++ (n % 10 + b'0') ∷ [] in
    if ltb n 10 then (n + b'0') ∷ [] else more

-- Fuel `n + 1` is enough for `n`.
unfoldable pub print : ℕ → Text
unfolding digits_from
print n = digits_from (suc n) n

-- The value of the text that follows, after what is read so far; `none` at any other character.
value_from : ℕ → Text → Option ℕ
value_from acc [] = some acc
value_from acc (c ∷ s) = if is_ascii_digit c then value_from (acc * 10 + (c - b'0')) s else none

-- `str::parse::<usize>` and its kin with a given modulus: at least one digit, an optional plus
-- sign, and a value below the modulus.
unfoldable pub parse_below : ℕ → Text → Option ℕ
unfolding value_from
parse_below modulus [] = none
parse_below modulus (c ∷ s) =
    elim (if leb 43 c && leb c 43
      then (if ltb (length s) 1 then none else value_from 0 s)
      else value_from 0 (c ∷ s)) [ none ↦ none | some v ↦ if ltb v modulus then some v else none ]

append_assoc_one : (xs : Text) (d : ℕ) (rest : Text) → (xs ++ d ∷ []) ++ rest ≡ xs ++ d ∷ rest
append_assoc_one [] d rest = refl
append_assoc_one (x ∷ xs) d rest = ap (◌∷◌ x) (append_assoc_one xs d rest)

value_from_digit :
    (acc d : ℕ) (rest : Text)
    → d < 10
    → value_from acc ((d + b'0') ∷ rest) ≡ value_from (acc * 10 + d) rest
unfolding value_from
value_from_digit acc d rest h = let e : (d + b'0') - b'0' ≡ d = omega arith in ground (arith, e)

value_from-digits_from :
    (f n : ℕ) (rest : Text) → n < f → value_from 0 (digits_from f n ++ rest) ≡ value_from n rest
unfolding digits_from
value_from-digits_from zero n rest h = absurd (omega arith)
value_from-digits_from (suc f) n rest h = elim (Bool-cases (ltb n 10)) [
  | inl small ↦
      let e : 0 * 10 + n ≡ n = omega arith in
      rw small (value_from_digit 0 n rest (ground arith) ∙ ap (λ (m : ℕ). value_from m rest) e)
  | inr large ↦
      let big : ¬ (n < 10) = ground arith in
      let e : n / 10 * 10 + n % 10 ≡ n = omega arith in
      rw (large, append_assoc_one (digits_from f (n / 10)) (n % 10 + b'0') rest)
        (value_from-digits_from f (n / 10) ((n % 10 + b'0') ∷ rest) (omega arith)
          ∙ value_from_digit (n / 10) (n % 10) rest (omega arith)
          ∙ ap (λ (m : ℕ). value_from m rest) e)
]

-- Reading what was printed gives the number back, before whatever follows.
value_from-print : (n : ℕ) (rest : Text) → value_from 0 (print n ++ rest) ≡ value_from n rest
unfolding print
value_from-print n rest = value_from-digits_from (suc n) n rest (omega arith)

abbrev pub IsDigit : ℕ → Type 0
IsDigit d = (b'0' ≤ d) × (d ≤ b'9')

digits_from-IsDigit : (f n : ℕ) → All IsDigit (digits_from f n)
unfolding digits_from
digits_from-IsDigit zero n = tt
digits_from-IsDigit (suc f) n = elim (Bool-cases (ltb n 10)) [
  | inl small ↦ rw small (ground arith, tt)
  | inr large ↦ rw large (
      All-append IsDigit (digits_from f (n / 10)) _ (digits_from-IsDigit f (n / 10))
        (omega arith, tt))
]

pub print-IsDigit : (n : ℕ) → All IsDigit (print n)
unfolding print
print-IsDigit n = digits_from-IsDigit (suc n) n

-- A printed number begins with a digit.
print-cons_from : (f n : ℕ) → n < f → (c : ℕ) × (s : Text) × (digits_from f n ≡ c ∷ s)
unfolding digits_from
print-cons_from zero n h = absurd (omega arith)
print-cons_from (suc f) n h = elim (Bool-cases (ltb n 10)) [
  | inl small ↦ (n + b'0', [], rw small)
  | inr large ↦
      let big : ¬ (n < 10) = ground arith in
      let (c, s, e) = print-cons_from f (n / 10) (omega arith) in
      (c, s ++ (n % 10 + b'0') ∷ [], rw (large, e))
]

pub print-cons : (n : ℕ) → (c : ℕ) × (s : Text) × (print n ≡ c ∷ s)
unfolding print
print-cons n = print-cons_from (suc n) n (omega arith)

value_from_nil : (n : ℕ) → value_from n [] ≡ some n
unfolding value_from
value_from_nil n = refl

parse_below_digits :
    (m c n : ℕ) (s : Text)
    → IsDigit c
    → value_from 0 (c ∷ s) ≡ some n
    → n < m
    → parse_below m (c ∷ s) ≡ some n
unfolding parse_below
parse_below_digits m c n s d e h = ground arith

-- `parse` after `to_string` is the identity on the numbers below the modulus.
pub parse_below-print : (m n : ℕ) → n < m → parse_below m (print n) ≡ some n
parse_below-print m n h =
    let (c, s, e) = print-cons n in
    let d : All IsDigit (c ∷ s) = subst (λ v. All IsDigit v) e (print-IsDigit n) in
    let read : value_from 0 (c ∷ s) ≡ some n =
      ap (value_from 0) (sym e)
      ∙ (ap (value_from 0) (sym (append-nil (print n)))
          ∙ value_from-print n []
          ∙ value_from_nil n) in
    rw e (parse_below_digits m c n s d.0 read h)

-- `str::parse::<i64>`: an optional sign, at least one digit, and a value in range.
unfoldable pub parse_i64 : Text → Option ℤ
unfolding value_from
parse_i64 [] = none
parse_i64 (c ∷ []) = if is_ascii_digit c then some (pos (c - b'0')) else none
parse_i64 (c ∷ d ∷ s) =
    if c == b'-'
    then elim (value_from 0 (d ∷ s)) [
      | none ↦ none
      | some zero ↦ some (pos 0)
      | some (suc v) ↦ if ltb v (2 ^ 63) then some (negsuc v) else none
    ]
    else elim (value_from 0 (if c == b'+' then d ∷ s else c ∷ d ∷ s)) [
      | none ↦ none
      | some v ↦ if ltb v (2 ^ 63) then some (pos v) else none
    ]
