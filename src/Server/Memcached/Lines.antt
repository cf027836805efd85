-- ===== src/Server/Memcached/Lines.antt =====
-- Lines of the text protocol (server/src/memcached.rs): what is one line, and how it is read.
use traintime_api.Common.{
  ℕ, ◌≡◌, refl, sym, ap, ◌∙◌, ◌≢◌, Bool, false, [], ◌∷◌, ◌++◌, append_assoc, arith, ok, is_empty,
  All, All-append, Text, trim_end_matches,
}
use traintime_api.Common.Utf8.{Bytes, as_bytes, encode_char, append-as_bytes}
use traintime_api.Common.Utf8.Decode.{IsScalar, from_utf8-as_bytes}
use traintime_api.Server.Memcached.Protocol.{is_line_end, split_line, read_line}

-- A character that stands inside a line.
abbrev pub IsInline : ℕ → Type 0
IsInline c = (c ≢ b'\n') × (c ≢ b'\r')

abbrev pub crlf : Bytes
crlf = b'\r' ∷ b'\n' ∷ []

split_line-append :
    (line rest : Bytes)
    → All (λ b. b ≢ b'\n') line
    → split_line (line ++ b'\n' ∷ rest) ≡ (line ++ b'\n' ∷ [], rest)
unfolding split_line
split_line-append [] rest h = refl
split_line-append (b ∷ line) rest h = ground (arith, split_line-append line rest h.1)

encode_char-IsInline : (c : ℕ) → IsInline c → All (λ b. b ≢ b'\n') (encode_char c)
unfolding encode_char
encode_char-IsInline c h = ground arith

as_bytes-IsInline : (s : Text) → All IsInline s → All (λ b. b ≢ b'\n') (as_bytes s)
unfolding as_bytes
as_bytes-IsInline [] h = tt
as_bytes-IsInline (c ∷ s) h =
    All-append (λ b. b ≢ b'\n') (encode_char c) (as_bytes s) (encode_char-IsInline c h.0)
      (as_bytes-IsInline s h.1)

trim_line_end : (s : Text) → All IsInline s → trim_end_matches is_line_end (s ++ crlf) ≡ s
unfolding trim_end_matches
trim_line_end [] h = refl
trim_line_end (c ∷ []) h = ground arith
trim_line_end (c ∷ d ∷ s) h = rw (trim_end_matches, trim_line_end (d ∷ s) h.1) refl

nonempty : (s : Bytes) (b : ℕ) (t : Bytes) → is_empty (s ++ b ∷ t) ≡ false
nonempty [] b t = refl
nonempty (c ∷ s) b t = refl

pub as_bytes-crlf : as_bytes crlf ≡ crlf
unfolding as_bytes encode_char
as_bytes-crlf = refl

-- The first line of the input, with its end.
pub split_line-line :
    (s : Text) (rest : Bytes)
    → All IsInline s
    → split_line (as_bytes s ++ (crlf ++ rest)) ≡ (as_bytes (s ++ crlf), rest)
split_line-line s rest h =
    let ends : (as_bytes s ++ b'\r' ∷ []) ++ b'\n' ∷ [] ≡ as_bytes (s ++ crlf) =
      append_assoc (as_bytes s) (b'\r' ∷ []) (b'\n' ∷ [])
      ∙ ap (λ (t : Bytes). as_bytes s ++ t) (sym as_bytes-crlf)
      ∙ sym (append-as_bytes s crlf) in
    ap split_line (sym (append_assoc (as_bytes s) (b'\r' ∷ []) (b'\n' ∷ rest)))
    ∙ split_line-append (as_bytes s ++ b'\r' ∷ []) rest (
        All-append (λ b. b ≢ b'\n') (as_bytes s) (b'\r' ∷ []) (as_bytes-IsInline s h)
          (ground arith, tt))
    ∙ ap (λ (t : Bytes). (t, rest)) ends

pub as_bytes_line-nonempty : (s : Text) → is_empty (as_bytes (s ++ crlf)) ≡ false
as_bytes_line-nonempty s =
    rw (append-as_bytes s crlf, as_bytes-crlf) (nonempty (as_bytes s) b'\r' (b'\n' ∷ []))

-- A line is read up to its end, and what follows stays.
pub read_line-line :
    (s : Text) (rest sent : Bytes) (writable : Bool)
    → All IsScalar s
    → All IsInline s
    → read_line (record { input = as_bytes s ++ (crlf ++ rest); sent = sent; writable = writable })
      ≡ record { out = ok s; conn = record { input = rest; sent = sent; writable = writable } }
unfolding read_line
read_line-line s rest sent writable hs hl =
    rw
      (
        read_line,
        split_line-line s rest hl,
        as_bytes_line-nonempty s,
        from_utf8-as_bytes (s ++ crlf) (All-append IsScalar s crlf hs (omega arith)),
        trim_line_end s hl,
        split_line-line s rest hl,
      )
      refl
