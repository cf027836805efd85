-- ===== src/Common/Utf8.antt =====
-- The UTF-8 bytes of a text, `str::as_bytes` and `str::len`.
pub mod Decode
use Prim.Native.Nat.{ℕ, ◌+◌, ◌/◌, ◌%◌, ◌<◌}
use mathlib.Core.Path.{◌≡◌, refl, sym, ap, ap₂, ◌∙◌}
use mathlib.Core.Logic.{◌≢◌}
use mathlib.Core.List.{List, [], ◌∷◌, ◌++◌, append_assoc}
use native.Mathlib.Omega.{arith}
use traintime_api.Common.Tests.{ltb, if◌then◌else◌}
use traintime_api.Common.Lists.{length, All, All-append}
use traintime_api.Common.Texts.{Text}

abbrev pub Bytes : Type 0
Bytes = List ℕ

-- A code point that UTF-8 encodes.
abbrev pub IsChar : ℕ → Type 0
IsChar c = c < 0x110000

abbrev IsByte : ℕ → Type 0
IsByte b = b < 256

unfoldable pub encode_char : ℕ → Bytes
encode_char c =
    if ltb c 0x80
    then c ∷ []
    else if ltb c 0x800
    then (0xc0 + c / 0x40) ∷ (0x80 + c % 0x40) ∷ []
    else if ltb c 0x10000
    then (0xe0 + c / 0x1000) ∷ (0x80 + c / 0x40 % 0x40) ∷ (0x80 + c % 0x40) ∷ []
    else (0xf0 + c / 0x40000)
      ∷ (0x80 + c / 0x1000 % 0x40)
      ∷ (0x80 + c / 0x40 % 0x40)
      ∷ (0x80 + c % 0x40)
      ∷ []

unfoldable pub as_bytes : Text → Bytes
unfolding encode_char
as_bytes [] = []
as_bytes (c ∷ s) = encode_char c ++ as_bytes s

-- `str::len` counts bytes.
abbrev pub byte_len : Text → ℕ
byte_len s = length (as_bytes s)

pub append-as_bytes : (s t : Text) → as_bytes (s ++ t) ≡ as_bytes s ++ as_bytes t
unfolding as_bytes
append-as_bytes [] t = refl
append-as_bytes (c ∷ s) t =
    ap (λ (b : Bytes). encode_char c ++ b) (append-as_bytes s t)
    ∙ sym (append_assoc (encode_char c) (as_bytes s) (as_bytes t))

encode_char-IsByte : (c : ℕ) → IsChar c → All IsByte (encode_char c)
unfolding encode_char
encode_char-IsByte c h = ground arith

-- The bytes of a character determine it, whatever follows.
encode_char_inj :
    (c d : ℕ) (s t : Bytes)
    → IsChar c
    → IsChar d
    → encode_char c ++ s ≡ encode_char d ++ t
    → (c ≡ d) × (s ≡ t)
unfolding encode_char
encode_char_inj c d s t hc hd e = ground arith

encode_char-ne-nil : (c : ℕ) (s : Bytes) → encode_char c ++ s ≢ []
unfolding encode_char
encode_char-ne-nil c s = ground arith

as_bytes-IsByte : (s : Text) → All IsChar s → All IsByte (as_bytes s)
unfolding as_bytes
as_bytes-IsByte [] h = tt
as_bytes-IsByte (c ∷ s) h =
    All-append IsByte (encode_char c) (as_bytes s) (encode_char-IsByte c h.0)
      (as_bytes-IsByte s h.1)

-- Two texts with the same bytes are the same text.
pub as_bytes_inj : (s t : Text) → All IsChar s → All IsChar t → as_bytes s ≡ as_bytes t → s ≡ t
unfolding as_bytes
as_bytes_inj [] [] hs ht e = refl
as_bytes_inj [] (d ∷ t) hs ht e = absurd (encode_char-ne-nil d (as_bytes t) (sym e))
as_bytes_inj (c ∷ s) [] hs ht e = absurd (encode_char-ne-nil c (as_bytes s) e)
as_bytes_inj (c ∷ s) (d ∷ t) hs ht e =
    let (same, rest) = encode_char_inj c d (as_bytes s) (as_bytes t) hs.0 ht.0 e in
    ap₂ (λ (x : ℕ) (y : Text). x ∷ y) same (as_bytes_inj s t hs.1 ht.1 rest)

pub as_bytes-nil : (s : Text) → as_bytes s ≡ [] → s ≡ []
unfolding as_bytes
as_bytes-nil [] e = refl
as_bytes-nil (c ∷ s) e = absurd (encode_char-ne-nil c (as_bytes s) e)

pub as_bytes_nil : as_bytes [] ≡ []
unfolding as_bytes
as_bytes_nil = refl
