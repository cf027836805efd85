-- ===== src/Server/Memcached/Frames.antt =====
-- What `set_on` (server/src/memcached.rs) writes: a command line and a block.
use traintime_api.Common.{
  ℕ, ◌≡◌, refl, sym, ap, ◌∙◌, true, ◌++◌, append_assoc, arith, length, take, take-append, All,
  All-append, Text, codes,
}
use traintime_api.Common.Decimal.{print}
use traintime_api.Common.Utf8.{Bytes, as_bytes, append-as_bytes}
use traintime_api.Server.Memcached.{valid_key}
use traintime_api.Server.Memcached.Protocol.{split_line, set_command, set_message}
use traintime_api.Server.Memcached.Lines.{IsInline, crlf, split_line-line, as_bytes-crlf}
use traintime_api.Server.Memcached.RoundTrip.{
  IsPrintable, valid_key-IsPrintable, All-map, digit-IsInline,
}

-- The command without its line end.
abbrev pub set_line : Text → Text → ℕ → Text
set_line key value ttl_secs =
    codes "set "
    ++ (key ++ (codes " 0 " ++ (print ttl_secs ++ (codes " " ++ print (length (as_bytes value))))))

pub set_line-IsInline :
    (key value : Text) (ttl_secs : ℕ)
    → All IsPrintable key
    → All IsInline (set_line key value ttl_secs)
set_line-IsInline key value ttl_secs h =
    let n = length (as_bytes value) in
    let inline = All-map IsPrintable IsInline key (λ c p. ground arith) h in
    All-append IsInline (codes "set ") _ (omega arith) (
      All-append IsInline key _ inline (
        All-append IsInline (codes " 0 ") _ (omega arith) (
          All-append IsInline (print ttl_secs) _ (digit-IsInline ttl_secs)
            (All-append IsInline (codes " ") (print n) (omega arith) (digit-IsInline n)))))

pub set_command-set_line :
    (key value : Text) (ttl_secs : ℕ)
    → set_command key value ttl_secs ≡ set_line key value ttl_secs ++ crlf
set_command-set_line key value ttl_secs =
    let n = print (length (as_bytes value)) in simp (append_assoc) refl

split_command :
    (key value : Text) (ttl_secs : ℕ) (block : Bytes)
    → All IsPrintable key
    → split_line (as_bytes (set_command key value ttl_secs) ++ block)
      ≡ (as_bytes (set_command key value ttl_secs), block)
split_command key value ttl_secs block h =
    let line = set_line key value ttl_secs in
    let same = set_command-set_line key value ttl_secs in
    ap (λ (t : Text). split_line (as_bytes t ++ block)) same
    ∙ ap (λ (t : Bytes). split_line (t ++ block))
        (append-as_bytes line crlf ∙ ap (λ (t : Bytes). as_bytes line ++ t) as_bytes-crlf)
    ∙ ap split_line (append_assoc (as_bytes line) crlf block)
    ∙ split_line-line line block (set_line-IsInline key value ttl_secs h)
    ∙ ap (λ (t : Text). (as_bytes t, block)) (sym same)

-- The first line of a write for a key that is sent is its command, whatever the value holds, and
-- behind it stands a block that begins with the announced number of bytes, which are the value's.
split_line-set_message :
    (key value : Text) (ttl_secs : ℕ)
    → valid_key key ≡ true
    → (split_line (set_message key value ttl_secs)
        ≡ (as_bytes (set_command key value ttl_secs), as_bytes value ++ crlf))
      × (take (length (as_bytes value)) (split_line (set_message key value ttl_secs)).1
          ≡ as_bytes value)
unfolding set_message
split_line-set_message key value ttl_secs valid =
    let (_, _, printable) = valid_key-IsPrintable key valid in
    let framed : split_line (set_message key value ttl_secs)
        ≡ (as_bytes (set_command key value ttl_secs), as_bytes value ++ crlf) =
      split_command key value ttl_secs (as_bytes value ++ crlf) printable in
    (framed, rw framed (take-append (as_bytes value) crlf))
