-- ===== src/Server/Memcached/Panic.antt =====
-- The buffer for a value (server/src/memcached.rs, `get_on`), for the byte count of a header.
use mathlib.Core.Path.{subst}
use traintime_api.Common.{
  ℕ, ◌+◌, ◌%◌, ◌^◌, ◌≤◌, ◌<◌, ◌≡◌, refl, ◌↔◌, ap, inl, inr, true, false, Option, none, some, ◌++◌,
  arith, ltb, if◌then◌else◌, Bool-cases, Option-cases, Result, ok, err, length, is_empty, take, All,
  Text, codes, text_eq,
}
use traintime_api.Common.Utf8.{Bytes, as_bytes}
use traintime_api.Common.Utf8.Decode.{IsScalar, from_utf8}
use traintime_api.Server.Memcached.{valid_key}
use traintime_api.Server.Memcached.Protocol.{
  Conn, Fault, io, panic, Io, pure, fail, bind, resume, read_exact, read_line, read_value,
  read_reply, get_command, get_on, write_all, split_line, protocol_error,
}
use traintime_api.Server.Memcached.Lines.{crlf, read_line-line}
use traintime_api.Server.Memcached.RoundTrip.{
  valid_key-IsPrintable, header_of, value_len-header_of, header_of-IsInline, header_of-IsScalar,
}

-- The outcome is no panic.
abbrev IsQuiet : {A : Type 0} → Result A Fault → Type 0
IsQuiet (ok a) = Unit
IsQuiet (err (io text)) = Unit
IsQuiet (err panic) = ⊥

-- The step does not panic, whatever the connection.
abbrev IsCalm : {A : Type 0} → Io A → Type 0
IsCalm m = (conn : Conn) → IsQuiet (m conn).out

resume-IsCalm :
    {A B : Type 0} (r : Result A Fault) (k : A → Io B)
    → IsQuiet r
    → ((a : A) → IsCalm (k a))
    → IsCalm (resume r k)
resume-IsCalm (ok a) k quiet calms conn = calms a conn
resume-IsCalm (err (io text)) k quiet calms conn = tt
resume-IsCalm (err panic) k quiet calms conn = elim quiet [ ]

bind-IsCalm :
    {A B : Type 0} (m : Io A) (k : A → Io B)
    → IsCalm m
    → ((a : A) → IsCalm (k a))
    → IsCalm (bind m k)
bind-IsCalm m k calm calms conn = resume-IsCalm (m conn).out k (calm conn) calms (m conn).conn

read_exact-IsCalm : (n : ℕ) → IsCalm (read_exact n)
unfolding read_exact
read_exact-IsCalm n conn = elim (Bool-cases (ltb (length conn.input) n)) [
  | inl short ↦ rw (read_exact, short) tt
  | inr long ↦ rw (read_exact, long) tt
]

read_line-IsCalm : IsCalm read_line
unfolding read_line protocol_error
read_line-IsCalm conn = elim (Bool-cases (is_empty (split_line conn.input).0)) [
  | inl closed ↦ rw (read_line, closed) tt
  | inr more ↦ elim (Option-cases (from_utf8 (split_line conn.input).0)) [
    | inl bad ↦ rw (read_line, more, bad) tt
    | inr (text, good) ↦ rw (read_line, more, good) tt
  ]
]

-- What follows the value.
read_end-IsCalm :
    (len : ℕ) (buffer : Bytes) (line : Text)
    → IsCalm {A = Text} (
        if text_eq line (codes "END")
        then elim (from_utf8 (take len buffer)) [
          | some value ↦ pure value
          | none ↦ fail (protocol_error (codes "value is not UTF-8"))
        ]
        else fail (protocol_error (codes "missing END")))
unfolding protocol_error
read_end-IsCalm len buffer line conn = elim (Bool-cases (text_eq line (codes "END"))) [
  | inl ends ↦ elim (Option-cases (from_utf8 (take len buffer))) [
    | inl bad ↦ rw (ends, bad) tt
    | inr (value, good) ↦ rw (ends, good) tt
  ]
  | inr other ↦ rw other tt
]

read_value-IsQuiet :
    (len : ℕ) (conn : Conn) → (len + 2) % 2 ^ 64 < 2 ^ 63 → IsQuiet (read_value len conn).out
unfolding read_value
read_value-IsQuiet len conn small =
    let fits : ltb (2 ^ 63) ((len + 2) % 2 ^ 64 + 1) ≡ false = ground arith in
    rw (read_value, fits)
      (bind-IsCalm (read_exact ((len + 2) % 2 ^ 64)) _ (read_exact-IsCalm ((len + 2) % 2 ^ 64))
        (λ buffer.
          bind-IsCalm read_line _ read_line-IsCalm (λ line. read_end-IsCalm len buffer line))
        conn)

read_value-panic :
    (len : ℕ) (conn : Conn) → 2 ^ 63 ≤ (len + 2) % 2 ^ 64 → (read_value len conn).out ≡ err panic
unfolding read_value
read_value-panic len conn large =
    let over : ltb (2 ^ 63) ((len + 2) % 2 ^ 64 + 1) ≡ true = ground arith in
    rw (read_value, over) refl

abbrev conn_of : Bytes → Bytes → Conn
conn_of input sent = record { input = input; sent = sent; writable = true }

-- The value behind a header.
abbrev read_some : ℕ → Io (Option Text)
read_some n = bind (read_value n) (λ value. pure (some value))

get_on-read_some :
    (key : Text) (n : ℕ) (rest sent : Bytes)
    → valid_key key ≡ true
    → All IsScalar key
    → n < 2 ^ 64
    → get_on key (conn_of (as_bytes (header_of key n) ++ (crlf ++ rest)) sent)
      ≡ read_some n (conn_of rest (sent ++ as_bytes (get_command key)))
unfolding get_on write_all read_reply
get_on-read_some key n rest sent valid hk small =
    let (_, _, printable) = valid_key-IsPrintable key valid in
    rw
      (
        get_on,
        read_line-line (header_of key n) rest (sent ++ as_bytes (get_command key)) true
            (header_of-IsScalar key n hk) (header_of-IsInline key n printable),
        read_reply,
        value_len-header_of key n printable small,
      )
      refl

read_some-eq-panic_iff :
    (n : ℕ) (conn : Conn)
    → n < 2 ^ 64
    → ((read_some n conn).out ≡ err panic) ↔ ((2 ^ 63 ≤ n + 2) × (n + 2 < 2 ^ 64))
read_some-eq-panic_iff n conn small = elim (Bool-cases (ltb ((n + 2) % 2 ^ 64) (2 ^ 63))) [
  | inl fits ↦
      let quiet =
        resume-IsCalm (read_value n conn).out (λ value. pure (some value))
          (read_value-IsQuiet n conn (ground arith)) (λ value c. tt) (read_value n conn).conn in
      ((λ e. absurd (subst IsQuiet e quiet)), (λ h. absurd (ground arith)))
  | inr over ↦
      let fault = read_value-panic n conn (ground arith) in
      (
        (λ e. ground arith),
        (λ h.
            ap
              (λ (r : Result Text Fault).
                (resume r (λ value. pure (some value)) (read_value n conn).conn).out)
              fault),
      )
]

-- Where the server answers with a header that counts any number of bytes, `get_on` panics exactly if
-- the count with the line end is above `isize::MAX` and below two to the 64, where it wraps. The key
-- is one that is sent.
pub get_on-eq-panic_iff :
    (key : Text) (n : ℕ) (rest sent : Bytes)
    → valid_key key ≡ true
    → All IsScalar key
    → n < 2 ^ 64
    → ((get_on key (record {
      input = as_bytes (header_of key n) ++ (crlf ++ rest);
      sent = sent;
      writable = true;
    })).out
        ≡ err panic)
      ↔ ((2 ^ 63 ≤ n + 2) × (n + 2 < 2 ^ 64))
get_on-eq-panic_iff key n rest sent valid hk small =
    rw (get_on-read_some key n rest sent valid hk small)
      (read_some-eq-panic_iff n (conn_of rest (sent ++ as_bytes (get_command key))) small)
