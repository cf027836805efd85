-- ===== src/Server/Memcached/Wire/Clean.antt =====
-- What the connections of a client (server/src/memcached.rs) hold unread along a run of its calls.
use mathlib.Core.Path.{subst}
use traintime_api.Common.{
  at, at_self, ℕ, suc, ◌≤◌, ◌≡◌, ◌≢◌, ◌⊎◌, sym, ap, ◌∙◌, inl, inr, Option, none, some, List, [],
  ◌∷◌, arith, ==_iff, ok, All,
}
use traintime_api.Common.Utf8.{Bytes}
use traintime_api.Server.Memcached.{
  Client, Start, skipped, pooled, connects, begin, finish, mark_failed,
}
use traintime_api.Server.Memcached.Pool.{Pool, taken, start, stop, IsOut}
use traintime_api.Server.Memcached.Pool.Exclusive.{
  IsKept, Begun, skips, pops, dials, begin-Begun, finish-idle,
}
use traintime_api.Server.Memcached.Pool.Moves.{IsExclusive, at-eq-none}
use traintime_api.Server.Memcached.Wire.{broken}

abbrev AllRead : (ℕ → Bytes) → List ℕ → Type 0
AllRead unread idle = All (λ c. unread c ≡ []) idle

-- No connection that is used again has a byte unread.
pub record IsClean (idle : List ℕ) (held : ℕ → Option ℕ) (next : ℕ) (unread : ℕ → Bytes)
    : Type 0 where
  pub idle_read : AllRead unread idle
  pub held_read : (i n : ℕ) → held i ≡ some n → unread n ≡ []
  pub fresh_read : (n : ℕ) → next ≤ n → unread n ≡ []

abbrev pub IsCleanPool : Pool → (ℕ → Bytes) → Type 0
IsCleanPool p unread = IsClean p.client.idle p.held p.next unread

-- All bytes of one connection are read.
at-read : (conn n : ℕ) (unread : ℕ → Bytes) → unread n ≡ [] → at conn [] unread n ≡ []
at-read conn n unread h = ground arith

AllRead-at :
    (conn : ℕ) (unread : ℕ → Bytes) (idle : List ℕ)
    → AllRead unread idle
    → AllRead (at conn [] unread) idle
AllRead-at conn unread [] h = tt
AllRead-at conn unread (c ∷ idle) (own, h) =
    (at-read conn c unread own, AllRead-at conn unread idle h)

-- Some bytes of one connection stay unread; it is another one.
at-unread :
    (conn n : ℕ) (junk : Bytes) (unread : ℕ → Bytes)
    → n ≢ conn
    → unread n ≡ []
    → at conn junk unread n ≡ []
at-unread conn n junk unread other h = ground (arith, ==_iff conn n)

AllRead-out :
    (conn : ℕ) (junk : Bytes) (unread : ℕ → Bytes) (idle : List ℕ)
    → IsOut conn idle
    → AllRead unread idle
    → AllRead (at conn junk unread) idle
AllRead-out conn junk unread [] o h = tt
AllRead-out conn junk unread (c ∷ idle) (other, o) (own, h) =
    (at-unread conn c junk unread other own, AllRead-out conn junk unread idle o h)

-- A call loses its connection.
pub lose-IsClean :
    (idle : List ℕ) (held : ℕ → Option ℕ) (next i conn : ℕ) (junk : Bytes) (unread : ℕ → Bytes)
    → held i ≡ some conn
    → IsExclusive idle held next
    → IsClean idle held next unread
    → IsClean idle (at i none held) next (at conn junk unread)
lose-IsClean idle held next i conn junk unread own kept h = record {
  idle_read = AllRead-out conn junk unread idle (kept.apart i conn own) h.idle_read;
  held_read = λ j n e.
      let (other, e') = at-eq-none i j n held e in
      at-unread conn n junk unread (λ same. other (kept.alone i j n (own ∙ ap some (sym same)) e'))
        (h.held_read j n e');
  fresh_read = λ n far.
      at-unread conn n junk unread
        (λ same. absurd (omega (arith, same, far, kept.held_below i conn own)))
        (h.fresh_read n far);
}

-- A call ends with its reply read.
pub stop-IsClean :
    {T : Type 0} (p : Pool) (i now conn : ℕ) (v : T) (unread : ℕ → Bytes)
    → IsCleanPool p unread
    → IsCleanPool (stop {T = T} p i now (ok v) (some conn)) (at conn [] unread)
stop-IsClean {T} p i now conn v unread h = record {
  idle_read = elim (finish-idle {T = T} p.client now conn (ok v)) [
    | inl (same, small) ↦
        subst (AllRead (at conn [] unread)) (sym same)
          (at_self conn [] unread, AllRead-at conn unread p.client.idle h.idle_read)
    | inr same ↦
        subst (AllRead (at conn [] unread)) (sym same)
          (AllRead-at conn unread p.client.idle h.idle_read)
  ];
  held_read = λ j n e. at-read conn n unread (h.held_read j n (at-eq-none i j n p.held e).1);
  fresh_read = λ n far. at-read conn n unread (h.fresh_read n far);
}

-- A call loses its connection by an error.
pub lost-IsClean :
    (p : Pool) (i now conn : ℕ) (junk : Bytes) (unread : ℕ → Bytes)
    → p.held i ≡ some conn
    → IsKept p
    → IsCleanPool p unread
    → IsCleanPool (stop p i now broken (some conn)) (at conn junk unread)
unfolding finish mark_failed
lost-IsClean p i now conn junk unread own kept h =
    lose-IsClean p.client.idle p.held p.next i conn junk unread own kept h

at-some-eq-some :
    (i j m n : ℕ) (held : ℕ → Option ℕ)
    → at i (some m) held j ≡ some n
    → (m ≡ n) ⊎ (held j ≡ some n)
at-some-eq-some i j m n held h = ground arith

-- A call comes to hold a connection that is read to its end.
hold-IsClean :
    (idle : List ℕ) (held : ℕ → Option ℕ) (next next' i m : ℕ) (unread : ℕ → Bytes)
    → next ≤ next'
    → unread m ≡ []
    → IsClean idle held next unread
    → IsClean idle (at i (some m) held) next' unread
hold-IsClean idle held next next' i m unread more own h = record {
  idle_read = h.idle_read;
  held_read = λ j n e. elim (at-some-eq-some i j m n held e) [
    | inl same ↦ ap unread (sym same) ∙ own
    | inr e' ↦ h.held_read j n e'
  ];
  fresh_read = λ n far. h.fresh_read n (omega (arith, more, far));
}

taken-IsClean :
    (p : Pool) (i : ℕ) (r : Start × Client) (unread : ℕ → Bytes)
    → Begun p.client r
    → IsCleanPool p unread
    → IsCleanPool (taken p i r) unread
taken-IsClean p i (skipped, c) unread (skips e same) h =
    subst (λ (l : List ℕ). IsClean l p.held p.next unread) (sym same) h
taken-IsClean p i (pooled n, c) unread (pops conn e same) h =
    let own : n ≡ conn = cc in
    let h' = subst (λ (l : List ℕ). IsClean l p.held p.next unread) same h in
    hold-IsClean c.idle p.held p.next p.next i n unread (omega arith)
      (ap unread own ∙ h'.idle_read.0)
      (record { idle_read = h'.idle_read.1; held_read = h'.held_read; fresh_read = h'.fresh_read })
taken-IsClean p i (connects, c) unread (dials e same) h =
    hold-IsClean c.idle p.held p.next (suc p.next) i p.next unread (omega arith)
      (h.fresh_read p.next (omega arith))
      (subst (λ (l : List ℕ). IsClean l p.held p.next unread) (sym same) h)
taken-IsClean p i (skipped, c) unread (pops conn e same) h = absurd (cc)
taken-IsClean p i (skipped, c) unread (dials e same) h = absurd (cc)
taken-IsClean p i (pooled n, c) unread (skips e same) h = absurd (cc)
taken-IsClean p i (pooled n, c) unread (dials e same) h = absurd (cc)
taken-IsClean p i (connects, c) unread (skips e same) h = absurd (cc)
taken-IsClean p i (connects, c) unread (pops conn e same) h = absurd (cc)

pub start-IsClean :
    (p : Pool) (i now : ℕ) (conn : Option ℕ) (unread : ℕ → Bytes)
    → IsCleanPool p unread
    → IsCleanPool (start p i now conn) unread
start-IsClean p i now (some conn) unread h = h
start-IsClean p i now none unread h =
    taken-IsClean p i (begin p.client now) unread (begin-Begun p.client now) h
