-- ===== src/Server/Memcached/RoundTrip.antt =====
-- A reply with a value, and how `get_on` (server/src/memcached.rs) reads it.
use traintime_api.Common.{
  ℕ, ◌+◌, ◌%◌, ◌^◌, ◌≤◌, ◌<◌, ◌≡◌, refl, ◌≢◌, Bool, true, false, some, [], ◌∷◌, ◌++◌, arith, ltb,
  ok, any, length, length-append, take-append, drop-append, All, All-append, split_first,
  split_last, strip_prefix, Text, codes,
}
use traintime_api.Common.Decimal.{print, parse_below-print, print-IsDigit, IsDigit}
use traintime_api.Common.Utf8.{Bytes, as_bytes, encode_char}
use traintime_api.Common.Utf8.Decode.{IsScalar, from_utf8-as_bytes}
use traintime_api.Server.Memcached.{valid_key, is_reserved}
use traintime_api.Server.Memcached.Protocol.{
  Conn, read_exact, read_value, read_reply, value_len, get_command, get_on, write_all,
}
use traintime_api.Server.Memcached.Lines.{IsInline, crlf, read_line-line}

-- No byte of the text is a space, a control or the delete byte.
abbrev pub IsPrintable : ℕ → Type 0
IsPrintable c = (32 < c) × (c ≢ 127)

encode_char-IsPrintable :
    (c : ℕ) (bs : Bytes)
    → any is_reserved (encode_char c ++ bs) ≡ false
    → IsPrintable c × (any is_reserved bs ≡ false)
unfolding encode_char
encode_char-IsPrintable c bs h = ground arith

bytes-IsPrintable : (s : Text) → any is_reserved (as_bytes s) ≡ false → All IsPrintable s
unfolding as_bytes
bytes-IsPrintable [] h = tt
bytes-IsPrintable (c ∷ s) h =
    let (p, more) = encode_char-IsPrintable c (as_bytes s) h in (p, bytes-IsPrintable s more)

-- A key that is sent has at least one character, at most 250 bytes, and none that ends a word or a
-- line.
pub valid_key-IsPrintable :
    (key : Text)
    → valid_key key ≡ true
    → (key ≢ []) × (length (as_bytes key) ≤ 250) × All IsPrintable key
unfolding valid_key
valid_key-IsPrintable key h = (ground arith, ground arith, bytes-IsPrintable key (ground arith))

-- The header of a value with its byte count.
abbrev pub header_of : Text → ℕ → Text
header_of key n = codes "VALUE " ++ (key ++ (codes " 0 " ++ print n))

-- The server's answer to `get` where it holds the value: the header, the value and the end.
abbrev pub value_header : Text → Text → Text
value_header key value = header_of key (length (as_bytes value))

abbrev pub value_reply : Text → Text → Bytes → Bytes
value_reply key value rest =
    as_bytes (value_header key value)
    ++ (crlf ++ ((as_bytes value ++ crlf) ++ (as_bytes (codes "END") ++ (crlf ++ rest))))

pub All-map : (P Q : ℕ → Type 0) (s : Text) → ((c : ℕ) → P c → Q c) → All P s → All Q s
All-map P Q [] f h = tt
All-map P Q (c ∷ s) f h = (f c h.0, All-map P Q s f h.1)

pub value_len-header_of :
    (key : Text) (n : ℕ) → All IsPrintable key → n < 2 ^ 64 → value_len (header_of key n) ≡ some n
unfolding value_len strip_prefix
value_len-header_of key n h small =
    rw
      (
        value_len,
        split_first b' ' key (b'0' ∷ b' ' ∷ print n)
            (All-map IsPrintable (λ d. d ≢ b' ') key (λ c p. ground arith) h),
        split_last b' ' (print n)
            (All-map IsDigit (λ d. d ≢ b' ') (print n) (λ c p. ground arith) (print-IsDigit n)),
        parse_below-print (2 ^ 64) n small,
      )
      refl

pub digit-IsInline : (n : ℕ) → All IsInline (print n)
digit-IsInline n = All-map IsDigit IsInline (print n) (λ c p. ground arith) (print-IsDigit n)

pub header_of-IsInline : (key : Text) (n : ℕ) → All IsPrintable key → All IsInline (header_of key n)
header_of-IsInline key n h =
    let printable = All-map IsPrintable IsInline key (λ c p. ground arith) h in
    All-append IsInline (codes "VALUE ") (key ++ (codes " 0 " ++ print n)) (omega arith) (
      All-append IsInline key (codes " 0 " ++ print n) printable
        (All-append IsInline (codes " 0 ") (print n) (omega arith) (digit-IsInline n)))

pub header_of-IsScalar : (key : Text) (n : ℕ) → All IsScalar key → All IsScalar (header_of key n)
header_of-IsScalar key n h =
    let scalar = All-map IsDigit IsScalar (print n) (λ c p. ground arith) (print-IsDigit n) in
    All-append IsScalar (codes "VALUE ") (key ++ (codes " 0 " ++ print n)) (omega arith) (
      All-append IsScalar key (codes " 0 " ++ print n) h
        (All-append IsScalar (codes " 0 ") (print n) (omega arith) scalar))

abbrev conn_of : Bytes → Bytes → Bool → Conn
conn_of input sent writable = record { input = input; sent = sent; writable = writable }

read_exact-append :
    (xs rest sent : Bytes) (w : Bool)
    → read_exact (length xs) (conn_of (xs ++ rest) sent w)
      ≡ record { out = ok xs; conn = conn_of rest sent w }
unfolding read_exact
read_exact-append xs rest sent w =
    let long : ltb (length (xs ++ rest)) (length xs) ≡ false =
      ground (arith, length-append xs rest) in
    rw (read_exact, long, take-append xs rest, drop-append xs rest) refl

read_value-value :
    (value : Text) (rest sent : Bytes) (w : Bool)
    → All IsScalar value
    → length (as_bytes value) + 3 ≤ 2 ^ 63
    → read_value
        (length (as_bytes value))
        (conn_of ((as_bytes value ++ crlf) ++ (as_bytes (codes "END") ++ (crlf ++ rest))) sent w)
      ≡ record { out = ok value; conn = conn_of rest sent w }
unfolding read_value
read_value-value value rest sent w hs small =
    let n = length (as_bytes value) in
    let size : (n + 2) % 2 ^ 64 ≡ length (as_bytes value ++ crlf) =
      omega (arith, length-append (as_bytes value) crlf) in
    let fits : ltb (2 ^ 63) (length (as_bytes value ++ crlf) + 1) ≡ false =
      ground (arith, length-append (as_bytes value) crlf) in
    rw
      (
        read_value,
        size,
        fits,
        read_exact-append (as_bytes value ++ crlf) (as_bytes (codes "END") ++ (crlf ++ rest)) sent
            w,
        read_line-line (codes "END") rest sent w (omega arith) (omega arith),
        take-append (as_bytes value) crlf,
        from_utf8-as_bytes value hs,
      )
      refl

read_reply-value_header :
    (key value : Text) (rest sent : Bytes) (w : Bool)
    → All IsPrintable key
    → All IsScalar value
    → length (as_bytes value) + 3 ≤ 2 ^ 63
    → read_reply
        (value_header key value)
        (conn_of ((as_bytes value ++ crlf) ++ (as_bytes (codes "END") ++ (crlf ++ rest))) sent w)
      ≡ record { out = ok (some value); conn = conn_of rest sent w }
unfolding read_reply
read_reply-value_header key value rest sent w h hs small =
    rw
      (
        read_reply,
        value_len-header_of key (length (as_bytes value)) h (omega arith),
        read_value-value value rest sent w hs small,
      )
      refl

-- Where the server holds the value of a key that is sent, `get_on` gives the value and writes one
-- command, and what the server sends behind the reply stays for the next command. The texts are
-- made of characters, and the buffer of the value with its line end has at most `isize::MAX` bytes.
pub get_on-value_reply :
    (key value : Text) (rest sent : Bytes)
    → valid_key key ≡ true
    → All IsScalar key
    → All IsScalar value
    → length (as_bytes value) + 3 ≤ 2 ^ 63
    → get_on key (record { input = value_reply key value rest; sent = sent; writable = true })
      ≡ record {
        out = ok (some value);
        conn = record { input = rest; sent = sent ++ as_bytes (get_command key); writable = true };
      }
unfolding get_on write_all
get_on-value_reply key value rest sent valid hk hs small =
    let (_, _, printable) = valid_key-IsPrintable key valid in
    let sent' = sent ++ as_bytes (get_command key) in
    rw
      (
        get_on,
        read_line-line (value_header key value)
            ((as_bytes value ++ crlf) ++ (as_bytes (codes "END") ++ (crlf ++ rest))) sent' true
            (header_of-IsScalar key (length (as_bytes value)) hk)
            (header_of-IsInline key (length (as_bytes value)) printable),
        read_reply-value_header key value rest sent' true printable hs small,
      )
      refl
