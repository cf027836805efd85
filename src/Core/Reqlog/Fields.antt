-- ===== src/Core/Reqlog/Fields.antt =====
-- The words of the request line (core/src/reqlog.rs).
use traintime_api.Common.{
  ℕ, ◌≡◌, ◌≢◌, sym, ap, ◌∙◌, inl, inr, Option, List, [], ◌∷◌, ◌++◌, append_assoc, arith, All,
  All-append, unwrap_or, Bool-cases, Text, codes, text_eq, split, Lacks, split_first, split_last,
}
use traintime_api.Common.Decimal.{print, IsDigit, print-IsDigit}
use traintime_api.Core.Reqlog.{CacheStatus, as_str, route_template, format_line}

-- The line as its words, in order.
abbrev pub words : Text → Text → ℕ → ℕ → CacheStatus → Option Text → List Text
words method route status ms cache key =
    codes "req"
    ∷ (codes "method=" ++ method)
    ∷ (codes "route=" ++ route)
    ∷ (codes "status=" ++ print status)
    ∷ (codes "ms=" ++ print ms)
    ∷ (codes "cache=" ++ as_str cache)
    ∷ (codes "key=" ++ unwrap_or key (codes "-"))
    ∷ []

split_field :
    (name value rest : Text)
    → Lacks b' ' name
    → Lacks b' ' value
    → split b' ' (name ++ (value ++ b' ' ∷ rest)) ≡ (name ++ value) ∷ split b' ' rest
split_field name value rest hn hv =
    ap (split b' ') (sym (append_assoc name value (b' ' ∷ rest)))
    ∙ split_first b' ' (name ++ value) rest (All-append (λ d. d ≢ b' ') name value hn hv)

digits-Lacks : (s : Text) → All IsDigit s → Lacks b' ' s
digits-Lacks [] h = tt
digits-Lacks (d ∷ s) (own, h) = (omega arith, digits-Lacks s h)

print-Lacks : (n : ℕ) → Lacks b' ' (print n)
print-Lacks n = digits-Lacks (print n) (print-IsDigit n)

as_str-Lacks : (cache : CacheStatus) → Lacks b' ' (as_str cache)
unfolding as_str
as_str-Lacks CacheStatus.none = omega arith
as_str-Lacks CacheStatus.hit = omega arith
as_str-Lacks CacheStatus.miss = omega arith

route_template-Lacks : (path : Text) → Lacks b' ' (route_template path)
unfolding route_template
route_template-Lacks path = elim (Bool-cases (text_eq path (codes "/health"))) [
  | inl e ↦ rw (route_template, e) (omega arith)
  | inr e ↦ elim (Bool-cases (text_eq path (codes "/v1/nearby"))) [
    | inl e1 ↦ rw (route_template, e, e1) (omega arith)
    | inr e1 ↦ elim (Bool-cases (text_eq path (codes "/v1/departures"))) [
      | inl e2 ↦ rw (route_template, e, e1, e2) (omega arith)
      | inr e2 ↦ elim (Bool-cases (text_eq path (codes "/v1/formation"))) [
        | inl e3 ↦ rw (route_template, e, e1, e2, e3) (omega arith)
        | inr e3 ↦ rw (route_template, e, e1, e2, e3) (omega arith)
      ]
    ]
  ]
]

pub split-format_line :
    (method path : Text) (status ms : ℕ) (cache : CacheStatus) (key : Option Text)
    → Lacks b' ' method
    → Lacks b' ' (unwrap_or key (codes "-"))
    → split b' ' (format_line method path status ms cache key)
      ≡ words method (route_template path) status ms cache key
unfolding format_line
split-format_line method path status ms cache key hm hk =
    split_first b' ' (codes "req") _ (omega arith)
    ∙ ap (◌∷◌ (codes "req")) (
        split_field (codes "method=") method _ (omega arith) hm
        ∙ ap (◌∷◌ (codes "method=" ++ method)) (
            split_field (codes "route=") (route_template path) _ (omega arith)
              (route_template-Lacks path)
            ∙ ap (◌∷◌ (codes "route=" ++ route_template path)) (
                split_field (codes "status=") (print status) _ (omega arith) (print-Lacks status)
                ∙ ap (◌∷◌ (codes "status=" ++ print status)) (
                    split_field (codes "ms=") (print ms) _ (omega arith) (print-Lacks ms)
                    ∙ ap (◌∷◌ (codes "ms=" ++ print ms)) (
                        split_field (codes "cache=") (as_str cache) _ (omega arith)
                          (as_str-Lacks cache)
                        ∙ ap (◌∷◌ (codes "cache=" ++ as_str cache)) (
                            split_last b' ' (codes "key=" ++ unwrap_or key (codes "-")) (
                              All-append (λ d. d ≢ b' ') (codes "key=") (unwrap_or key (codes "-"))
                                (omega arith) hk)))))))
