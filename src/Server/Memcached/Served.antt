-- ===== src/Server/Memcached/Served.antt =====
-- The client's commands, as the fake Memcached of the tests (server/src/memcached.rs) reads them.
use traintime_api.Common.{
  ℕ, ◌+◌, ◌^◌, ◌≤◌, ◌<◌, ◌≡◌, refl, sym, ap, ◌∙◌, ◌≢◌, false, some, List, [], ◌∷◌, ◌++◌,
  append_assoc, arith, ltb, length, take, drop, take-append, drop-append, length-append, All,
  All-append, Text, codes, is_whitespace, split, split_first, split_last, Lacks, trim_end_matches,
  lookup, insert,
}
use traintime_api.Common.Decimal.{print, print-cons, parse_below-print, print-IsDigit, IsDigit}
use traintime_api.Common.Utf8.{Bytes, as_bytes, append-as_bytes}
use traintime_api.Common.Utf8.Decode.{IsScalar, from_utf8-as_bytes}
use traintime_api.Server.Memcached.Lines.{crlf, IsInline, split_line-line, as_bytes_line-nonempty}
use traintime_api.Server.Memcached.RoundTrip.{IsPrintable, All-map}
use traintime_api.Server.Memcached.Frames.{set_line, set_line-IsInline, set_command-set_line}
use traintime_api.Server.Memcached.Fake.{Store, reply_of, take_block, command, serve}
use traintime_api.Server.Memcached.Protocol.{get_command, set_message}
use traintime_api.Server.Memcached.Lines.{as_bytes-crlf}

abbrev pub IsVisible : ℕ → Type 0
IsVisible c = is_whitespace c ≡ false

trim_end-cons :
    (x : ℕ) (s : Text) (d : ℕ) (r : Text)
    → trim_end_matches is_whitespace s ≡ d ∷ r
    → trim_end_matches is_whitespace (x ∷ s) ≡ x ∷ d ∷ r
unfolding trim_end_matches
trim_end-cons x s d r e = rw (trim_end_matches, e) refl

trim_end_word :
    (c : ℕ) (w : Text)
    → All IsVisible (c ∷ w)
    → trim_end_matches is_whitespace (c ∷ w ++ crlf) ≡ c ∷ w
unfolding trim_end_matches
trim_end_word c [] h = rw (h.0) refl
trim_end_word c (d ∷ w) h = trim_end-cons c (d ∷ w ++ crlf) d w (trim_end_word d w h.1)

trim_end_line :
    (before : Text) (c : ℕ) (w : Text)
    → All IsVisible (c ∷ w)
    → trim_end_matches is_whitespace (before ++ (c ∷ w ++ crlf)) ≡ before ++ c ∷ w
trim_end_line [] c w h = trim_end_word c w h
trim_end_line (x ∷ []) c w h = trim_end-cons x (c ∷ w ++ crlf) c w (trim_end_word c w h)
trim_end_line (x ∷ y ∷ before) c w h =
    trim_end-cons x (y ∷ before ++ (c ∷ w ++ crlf)) y (before ++ c ∷ w)
      (trim_end_line (y ∷ before) c w h)

trim_end_last :
    (before w : Text)
    → w ≢ []
    → All IsVisible w
    → trim_end_matches is_whitespace ((before ++ w) ++ crlf) ≡ before ++ w
trim_end_last before [] filled h = absurd (filled refl)
trim_end_last before (c ∷ w) filled h =
    ap (trim_end_matches is_whitespace) (append_assoc before (c ∷ w) crlf)
    ∙ trim_end_line before c w h

-- A line that ends in no white space is read as its words.
serve-line :
    (store : Store) (s : Text) (rest : Bytes)
    → All IsScalar s
    → All IsInline s
    → trim_end_matches is_whitespace (s ++ crlf) ≡ s
    → serve store (as_bytes s ++ (crlf ++ rest)) ≡ command store rest (split b' ' s)
unfolding serve
serve-line store s rest hs hl trimmed =
    rw
      (
        serve,
        split_line-line s rest hl,
        as_bytes_line-nonempty s,
        from_utf8-as_bytes (s ++ crlf) (All-append IsScalar s crlf hs (omega arith)),
        trimmed,
        split_line-line s rest hl,
      )
      refl

take_block-value :
    (store : Store) (key value : Text) (ttl : ℕ) (more : Bytes)
    → All IsScalar value
    → ttl < 2 ^ 64
    → length (as_bytes value) + 3 ≤ 2 ^ 63
    → take_block store key
        (print ttl)
        (print (length (as_bytes value)))
        ((as_bytes value ++ crlf) ++ more)
      ≡ some (record {
        reply = as_bytes (codes "STORED\r\n");
        store = insert key (value, ttl) store;
        input = more;
      })
unfolding take_block
take_block-value store key value ttl more hs life small =
    let n = length (as_bytes value) in
    let block = as_bytes value ++ crlf in
    let size : n + 2 ≡ length block = omega (arith, length-append (as_bytes value) crlf) in
    let long : ltb (length (block ++ more)) (n + 2) ≡ false =
      ground (arith, length-append block more, length-append (as_bytes value) crlf) in
    let head : take n (block ++ more) ≡ as_bytes value =
      ap (take n) (append_assoc (as_bytes value) crlf more)
      ∙ take-append (as_bytes value) (crlf ++ more) in
    let tail : drop (n + 2) (block ++ more) ≡ more =
      ap (λ (k : ℕ). drop k (block ++ more)) size ∙ drop-append block more in
    rw
      (
        take_block,
        parse_below-print (2 ^ 64) n (omega arith),
        long,
        head,
        from_utf8-as_bytes value hs,
        parse_below-print (2 ^ 64) ttl life,
        tail,
      )
      refl

split-set_line :
    (key value : Text) (ttl : ℕ)
    → All IsPrintable key
    → split b' ' (set_line key value ttl)
      ≡ codes "set" ∷ key ∷ codes "0" ∷ print ttl ∷ print (length (as_bytes value)) ∷ []
split-set_line key value ttl h =
    let n = print (length (as_bytes value)) in
    let lacks : (m : ℕ) → Lacks b' ' (print m) =
      λ m. All-map IsDigit (λ d. d ≢ b' ') (print m) (λ c p. ground arith) (print-IsDigit m) in
    split_first b' ' (codes "set") (key ++ (codes " 0 " ++ (print ttl ++ (codes " " ++ n))))
      (omega arith)
    ∙ ap (λ (ws : List Text). codes "set" ∷ ws)
        (split_first b' ' key (codes "0 " ++ (print ttl ++ (codes " " ++ n)))
            (All-map IsPrintable (λ d. d ≢ b' ') key (λ c p. ground arith) h)
          ∙ ap (λ (ws : List Text). key ∷ ws)
              (split_first b' ' (codes "0") (print ttl ++ (codes " " ++ n)) (omega arith)
                ∙ ap (λ (ws : List Text). codes "0" ∷ ws)
                    (split_first b' ' (print ttl) n (lacks ttl)
                      ∙ ap (λ (ws : List Text). print ttl ∷ ws)
                          (split_last b' ' n (lacks (length (as_bytes value)))))))

digits-IsVisible : (n : ℕ) → All IsVisible (print n)
digits-IsVisible n = All-map IsDigit IsVisible (print n) (λ c p. ground arith) (print-IsDigit n)

digits-IsScalar : (n : ℕ) → All IsScalar (print n)
digits-IsScalar n = All-map IsDigit IsScalar (print n) (λ c p. ground arith) (print-IsDigit n)

print-ne-nil : (n : ℕ) → print n ≢ []
print-ne-nil n h = let (c, s, e) = print-cons n in absurd (cc)

set_line-IsScalar :
    (key value : Text) (ttl : ℕ) → All IsScalar key → All IsScalar (set_line key value ttl)
set_line-IsScalar key value ttl h =
    let n = length (as_bytes value) in
    All-append IsScalar (codes "set ") _ (omega arith) (
      All-append IsScalar key _ h (
        All-append IsScalar (codes " 0 ") _ (omega arith) (
          All-append IsScalar (print ttl) _ (digits-IsScalar ttl)
            (All-append IsScalar (codes " ") (print n) (omega arith) (digits-IsScalar n)))))

trim_end-set_line :
    (key value : Text) (ttl : ℕ)
    → trim_end_matches is_whitespace (set_line key value ttl ++ crlf) ≡ set_line key value ttl
trim_end-set_line key value ttl =
    let n = print (length (as_bytes value)) in
    let before = codes "set " ++ (key ++ (codes " 0 " ++ (print ttl ++ codes " "))) in
    let same : set_line key value ttl ≡ before ++ n = simp (append_assoc) refl in
    ap (λ (t : Text). trim_end_matches is_whitespace (t ++ crlf)) same
    ∙ trim_end_last before n (print-ne-nil (length (as_bytes value)))
        (digits-IsVisible (length (as_bytes value)))
    ∙ sym same

-- The fake stores what the client sets, and reads no further.
pub serve-set_message :
    (store : Store) (key value : Text) (ttl : ℕ) (more : Bytes)
    → All IsPrintable key
    → All IsScalar key
    → All IsScalar value
    → ttl < 2 ^ 64
    → length (as_bytes value) + 3 ≤ 2 ^ 63
    → serve store (set_message key value ttl ++ more)
      ≡ some (record {
        reply = as_bytes (codes "STORED\r\n");
        store = insert key (value, ttl) store;
        input = more;
      })
unfolding set_message command
serve-set_message store key value ttl more printable hk hs life small =
    let line = set_line key value ttl in
    let block = as_bytes value ++ crlf in
    let framed : set_message key value ttl ++ more ≡ as_bytes line ++ (crlf ++ (block ++ more)) =
      ap (λ (t : Text). (as_bytes t ++ block) ++ more) (set_command-set_line key value ttl)
      ∙ ap (λ (t : Bytes). (t ++ block) ++ more)
          (append-as_bytes line crlf ∙ ap (λ (t : Bytes). as_bytes line ++ t) as_bytes-crlf)
      ∙ append_assoc (as_bytes line ++ crlf) block more
      ∙ append_assoc (as_bytes line) crlf (block ++ more) in
    ap (serve store) framed
    ∙ serve-line store line (block ++ more) (set_line-IsScalar key value ttl hk)
        (set_line-IsInline key value ttl printable) (trim_end-set_line key value ttl)
    ∙ ap (command store (block ++ more)) (split-set_line key value ttl printable)
    ∙ take_block-value store key value ttl more hs life small

-- The fake answers a read of a key that ends in no white space with what its store holds.
pub serve-get_command :
    (store : Store) (key : Text)
    → key ≢ []
    → All IsPrintable key
    → All IsScalar key
    → All IsVisible key
    → serve store (as_bytes (get_command key))
      ≡ some (record { reply = reply_of key (lookup key store); store = store; input = [] })
unfolding command
serve-get_command store key filled printable hk visible =
    let line = codes "get " ++ key in
    let framed : as_bytes (get_command key) ≡ as_bytes line ++ (crlf ++ []) =
      append-as_bytes line crlf ∙ ap (λ (t : Bytes). as_bytes line ++ t) as_bytes-crlf in
    ap (serve store) framed
    ∙ serve-line store line [] (All-append IsScalar (codes "get ") key (omega arith) hk)
        (All-append IsInline (codes "get ") key (omega arith)
          (All-map IsPrintable IsInline key (λ c p. ground arith) printable))
        (trim_end_last (codes "get ") key filled visible)
    ∙ ap (command store []) (
        split_first b' ' (codes "get") key (omega arith)
        ∙ ap (λ (ws : List Text). codes "get" ∷ ws)
            (split_last b' ' key
              (All-map IsPrintable (λ d. d ≢ b' ') key (λ c p. ground arith) printable)))
