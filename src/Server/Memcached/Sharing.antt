-- ===== src/Server/Memcached/Sharing.antt =====
-- Two clients (server/src/memcached.rs) that share a store: one writes and the other one reads.
use traintime_api.Common.{
  ℕ, ◌+◌, ◌^◌, ◌≤◌, ◌<◌, ◌≡◌, refl, sym, ap, ◌∙◌, true, some, [], ◌++◌, append_assoc, append-nil,
  arith, ok, length, All, Text, codes, lookup, insert, lookup-insert_self,
}
use traintime_api.Common.Utf8.{Bytes, as_bytes, append-as_bytes}
use traintime_api.Common.Utf8.Decode.{IsScalar}
use traintime_api.Server.Memcached.{valid_key}
use traintime_api.Server.Memcached.Protocol.{
  Conn, Done, get_command, set_message, set_on, get_on, write_all, read_stored,
}
use traintime_api.Server.Memcached.Lines.{crlf, read_line-line}
use traintime_api.Server.Memcached.RoundTrip.{
  value_header, value_reply, valid_key-IsPrintable, get_on-value_reply,
}
use traintime_api.Server.Memcached.Fake.{Store, Round, reply_of, serve}
use traintime_api.Server.Memcached.Served.{IsVisible, serve-set_message, serve-get_command}

-- A fresh connection on which the peer sends these bytes.
abbrev pub replying : Bytes → Conn
replying input = record { input = input; sent = []; writable = true }

ends : as_bytes (codes "\r\nEND\r\n") ≡ crlf ++ (as_bytes (codes "END") ++ (crlf ++ []))
unfolding as_bytes
ends = refl

pub reply_of-value_reply :
    (key value : Text) (ttl : ℕ) → reply_of key (some (value, ttl)) ≡ value_reply key value []
unfolding reply_of as_bytes
reply_of-value_reply key value ttl =
    let tail = codes "\r\nEND\r\n" in
    append-as_bytes (value_header key value) (codes "\r\n" ++ (value ++ tail))
    ∙ ap (λ (t : Bytes). as_bytes (value_header key value) ++ (crlf ++ t))
        (append-as_bytes value tail
          ∙ ap (λ (t : Bytes). as_bytes value ++ t) ends
          ∙ sym (append_assoc (as_bytes value) crlf (as_bytes (codes "END") ++ (crlf ++ []))))

-- What a command leaves of a connection whose reply it has read.
abbrev pub spent : Bytes → Conn
spent sent = record { input = []; sent = sent; writable = true }

pub set_on-stored :
    (key value : Text) (ttl : ℕ)
    → set_on key value ttl (replying (as_bytes (codes "STORED\r\n")))
      ≡ record { out = ok true; conn = spent (set_message key value ttl) }
unfolding set_on write_all read_stored as_bytes
set_on-stored key value ttl =
    rw
      (
        set_on,
        read_line-line (codes "STORED") [] (set_message key value ttl) true (omega arith)
            (omega arith),
      )
      refl

-- A value that is set through the fake Memcached, whatever its store held, is the value that is
-- read from it next, for a key that is sent and holds no white space. The texts are made of characters,
-- the TTL is one of 64 bits, and the buffer of the value with its line end has at most `isize::MAX`
-- bytes.
pub get_on-set_on :
    (store : Store) (key value : Text) (ttl : ℕ)
    → valid_key key ≡ true
    → All IsScalar key
    → All IsVisible key
    → All IsScalar value
    → ttl < 2 ^ 64
    → length (as_bytes value) + 3 ≤ 2 ^ 63
    → (r : Round) × (r' : Round) × (serve store (set_message key value ttl) ≡ some r)
      × ((set_on key value ttl (replying r.reply)).out ≡ ok true)
      × (serve r.store (as_bytes (get_command key)) ≡ some r')
      × ((get_on key (replying r'.reply)).out ≡ ok (some value))
get_on-set_on store key value ttl valid hk visible hs life small =
    let (filled, _, printable) = valid_key-IsPrintable key valid in
    let store' = insert key (value, ttl) store in
    (
      record { reply = as_bytes (codes "STORED\r\n"); store = store'; input = [] },
      record { reply = reply_of key (lookup key store'); store = store'; input = [] },
      ap (serve store) (sym (append-nil (set_message key value ttl)))
          ∙ serve-set_message store key value ttl [] printable hk hs life small,
      ap (λ (d : Done _). d.out) (set_on-stored key value ttl),
      serve-get_command store' key filled printable hk visible,
      ap (λ (t : Bytes). (get_on key (replying t)).out)
            (ap (reply_of key) (lookup-insert_self key (value, ttl) store)
              ∙ reply_of-value_reply key value ttl)
          ∙ ap (λ (d : Done _). d.out) (get_on-value_reply key value [] [] valid hk hs small),
    )
