-- ===== src/Common/Utf8/Decode.antt =====
-- `String::from_utf8`: the text of a byte sequence that is valid UTF-8.
use Prim.Native.Nat.{ℕ, zero, suc, ◌+◌, ◌-◌, ◌*◌, ◌/◌, ◌%◌, ◌≤◌, ◌<◌}
use mathlib.Core.Path.{◌≡◌, refl, ◌∙◌, ap}
use mathlib.Core.Logic.{◌⊎◌, inl, inr}
use mathlib.Core.Bool.{Bool, ◌&&◌, ◌||◌}
use mathlib.Core.Option.{Option, none, some}
use mathlib.Core.List.{[], ◌∷◌, ◌++◌}
use native.Mathlib.Omega.{arith}
use traintime_api.Common.Tests.{ltb, leb, ◌==◌, if◌then◌else◌, Bool-cases}
use traintime_api.Common.Lists.{All}
use traintime_api.Common.Texts.{Text}
use traintime_api.Common.Utf8.{Bytes, as_bytes, encode_char}

-- Inside a character: the continuation bytes that are missing, the value so far, and the least
-- value that needs as many bytes.
pub record Mode : Type 0 where
  pub missing : ℕ
  pub value : ℕ
  pub least : ℕ

abbrev pub between : Mode
between = record { missing = 0; value = 0; least = 0 }

abbrev is_scalar : ℕ → Bool
is_scalar c = ltb c 0xd800 || (leb 0xe000 c && ltb c 0x110000)

-- A code point that Rust's `char` holds.
abbrev pub IsScalar : ℕ → Type 0
IsScalar c = (c < 0xd800) ⊎ ((0xe000 ≤ c) × (c < 0x110000))

-- One byte: the character that it ends, if any, and the mode behind it; `none` at invalid UTF-8.
lead : ℕ → Option (Option ℕ × Mode)
lead b =
    if ltb b 0x80
    then some (some b, between)
    else if leb 0xc2 b && leb b 0xdf
    then some (none, record { missing = 1; value = b - 0xc0; least = 0x80 })
    else if leb 0xe0 b && leb b 0xef
    then some (none, record { missing = 2; value = b - 0xe0; least = 0x800 })
    else if leb 0xf0 b && leb b 0xf4
    then some (none, record { missing = 3; value = b - 0xf0; least = 0x10000 })
    else none

continue : ℕ → ℕ → ℕ → ℕ → Option (Option ℕ × Mode)
continue more value least b =
    let value' = value * 0x40 + (b - 0x80) in
    if leb 0x80 b && leb b 0xbf
    then (if more == 0
        then (if leb least value' && is_scalar value' then some (some value', between) else none)
        else some (none, record { missing = more; value = value'; least = least }))
    else none

read_byte : ℕ → ℕ → ℕ → ℕ → Option (Option ℕ × Mode)
unfolding lead continue
read_byte zero value least b = lead b
read_byte (suc more) value least b = continue more value least b

abbrev pub push : Option ℕ → Option Text → Option Text
push none rest = rest
push (some c) none = none
push (some c) (some s) = some (c ∷ s)

decode : Mode → Bytes → Option Text
unfolding read_byte
decode m [] = if m.missing == 0 then some [] else none
decode m (b ∷ bs) = elim (read_byte m.missing m.value m.least b) [
  | none ↦ none
  | some (c, m') ↦ push c (decode m' bs)
]

unfoldable pub from_utf8 : Bytes → Option Text
unfolding decode
from_utf8 bs = decode between bs

lead_two :
    (q : ℕ)
    → 2 ≤ q
    → q < 0x20
    → lead (0xc0 + q) ≡ some (none, record { missing = 1; value = q; least = 0x80 })
unfolding lead
lead_two q h k = let e : 0xc0 + q - 0xc0 ≡ q = omega arith in ground (arith, e)

lead_three :
    (q : ℕ)
    → q < 0x10
    → lead (0xe0 + q) ≡ some (none, record { missing = 2; value = q; least = 0x800 })
unfolding lead
lead_three q h = let e : 0xe0 + q - 0xe0 ≡ q = omega arith in ground (arith, e)

lead_four :
    (q : ℕ)
    → q < 5
    → lead (0xf0 + q) ≡ some (none, record { missing = 3; value = q; least = 0x10000 })
unfolding lead
lead_four q h = let e : 0xf0 + q - 0xf0 ≡ q = omega arith in ground (arith, e)

continue_more :
    (more value least r v : ℕ)
    → r < 0x40
    → value * 0x40 + r ≡ v
    → continue (suc more) value least (0x80 + r)
      ≡ some (none, record { missing = suc more; value = v; least = least })
unfolding continue
continue_more more value least r v h e =
    let e' : 0x80 + r - 0x80 ≡ r = omega arith in ground (arith, e')

continue_last :
    (value least r c : ℕ)
    → r < 0x40
    → value * 0x40 + r ≡ c
    → least ≤ c
    → IsScalar c
    → continue 0 value least (0x80 + r) ≡ some (some c, between)
unfolding continue
continue_last value least r c h e l s =
    let e' : 0x80 + r - 0x80 ≡ r = omega arith in ground (arith, e')

decode_step :
    (m : Mode) (b : ℕ) (bs : Bytes) (c : Option ℕ) (m' : Mode)
    → read_byte m.missing m.value m.least b ≡ some (c, m')
    → decode m (b ∷ bs) ≡ push c (decode m' bs)
unfolding decode
decode_step m b bs c m' e = rw (decode, e) refl

abbrev mode : ℕ → ℕ → ℕ → Mode
mode missing value least = record { missing = missing; value = value; least = least }

decode-encode_char :
    (c : ℕ) (bs : Bytes)
    → IsScalar c
    → decode between (encode_char c ++ bs) ≡ push (some c) (decode between bs)
unfolding encode_char read_byte
decode-encode_char c bs h = elim (Bool-cases (ltb c 0x80)) [
  | inl one ↦ rw one (decode_step between c bs (some c) between (unfold lead in ground arith))
  | inr a ↦ elim (Bool-cases (ltb c 0x800)) [
    | inl two ↦
        rw (a, two)
          (decode_step between (0xc0 + c / 0x40) _ none (mode 1 (c / 0x40) 0x80)
              (lead_two (c / 0x40) (ground arith) (ground arith))
            ∙ decode_step (mode 1 (c / 0x40) 0x80) (0x80 + c % 0x40) bs (some c) between (
                continue_last (c / 0x40) 0x80 (c % 0x40) c (omega arith) (omega arith)
                  (ground arith) h))
    | inr b ↦ elim (Bool-cases (ltb c 0x10000)) [
      | inl three ↦
          rw (a, b, three)
            (decode_step between (0xe0 + c / 0x1000) _ none (mode 2 (c / 0x1000) 0x800)
                (lead_three (c / 0x1000) (ground arith))
              ∙ decode_step (mode 2 (c / 0x1000) 0x800) (0x80 + c / 0x40 % 0x40) _ none
                  (mode 1 (c / 0x40) 0x800)
                  (continue_more 0 (c / 0x1000) 0x800 (c / 0x40 % 0x40) (c / 0x40) (omega arith)
                    (omega arith))
              ∙ decode_step (mode 1 (c / 0x40) 0x800) (0x80 + c % 0x40) bs (some c) between (
                  continue_last (c / 0x40) 0x800 (c % 0x40) c (omega arith) (omega arith)
                    (ground arith) h))
      | inr four ↦
          rw (a, b, four)
            (decode_step between (0xf0 + c / 0x40000) _ none (mode 3 (c / 0x40000) 0x10000)
                (lead_four (c / 0x40000) (ground arith))
              ∙ decode_step (mode 3 (c / 0x40000) 0x10000) (0x80 + c / 0x1000 % 0x40) _ none
                  (mode 2 (c / 0x1000) 0x10000)
                  (continue_more 1 (c / 0x40000) 0x10000 (c / 0x1000 % 0x40) (c / 0x1000)
                    (omega arith) (omega arith))
              ∙ decode_step (mode 2 (c / 0x1000) 0x10000) (0x80 + c / 0x40 % 0x40) _ none
                  (mode 1 (c / 0x40) 0x10000)
                  (continue_more 0 (c / 0x1000) 0x10000 (c / 0x40 % 0x40) (c / 0x40) (omega arith)
                    (omega arith))
              ∙ decode_step (mode 1 (c / 0x40) 0x10000) (0x80 + c % 0x40) bs (some c) between (
                  continue_last (c / 0x40) 0x10000 (c % 0x40) c (omega arith) (omega arith)
                    (ground arith) h))
    ]
  ]
]

decode-as_bytes : (s : Text) → All IsScalar s → decode between (as_bytes s) ≡ some s
unfolding as_bytes decode
decode-as_bytes [] h = refl
decode-as_bytes (c ∷ s) h =
    decode-encode_char c (as_bytes s) h.0 ∙ ap (push (some c)) (decode-as_bytes s h.1)

-- What `as_bytes` writes is valid UTF-8 and reads back.
pub from_utf8-as_bytes : (s : Text) → All IsScalar s → from_utf8 (as_bytes s) ≡ some s
unfolding from_utf8
from_utf8-as_bytes s h = decode-as_bytes s h
