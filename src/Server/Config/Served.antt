-- ===== src/Server/Config/Served.antt =====
-- The router (server/src/main.rs) and the templates of the request line (core/src/reqlog.rs).
use traintime_api.Common.{
  ◌≡◌, ◌⊎◌, arith, refl, sym, ap, inl, inr, true, false, List, [], ◌∷◌, Bool-cases, Elem, Text,
  codes, text_eq, text_eq_iff,
}
use traintime_api.Core.Reqlog.{route_template}
use traintime_api.Http.{Request, Response}
use traintime_api.Server.Config.{Handlers, router}
use traintime_api.Server.Middleware.{health, fallback}

module _ {B : Type 0} (get : (Request → Response B) → Request → Response B)
    (handlers : Handlers B) where
  -- The paths that are served, with their handlers.
  abbrev pub served : List (Text × (Request → Response B))
  served =
      (codes "/health", (λ _. health))
      ∷ (codes "/v1/nearby", handlers.nearby)
      ∷ (codes "/v1/departures", handlers.departures)
      ∷ (codes "/v1/formation", handlers.formation)
      ∷ []

  -- The path has a handler, which answers, and is logged as it is.
  abbrev pub IsServed : Request → Type 0
  IsServed req =
      (handler : Request → Response B) × Elem (req.path, handler) served
      × (router get handlers req ≡ get handler req)
      × (route_template req.path ≡ req.path)

  -- The path has none; it is logged as `other`.
  abbrev pub IsUnknown : Request → Type 0
  IsUnknown req =
      ((handler : Request → Response B) → ¬ Elem (req.path, handler) served)
      × (router get handlers req ≡ fallback)
      × (route_template req.path ≡ codes "other")

  no_entry :
      (h k : Request → Response B) (p q : Text)
      → text_eq p q ≡ false
      → ¬ (◌≡◌ {A = Text × (Request → Response B)} (p, h) (q, k))
  no_entry h k p q e same =
      let path : p ≡ q = ap (λ (x : Text × (Request → Response B)). x.0) same in
      ground (arith, text_eq_iff p q)

  entry_of :
      (h : Request → Response B) (p q : Text)
      → text_eq p q ≡ true
      → ◌≡◌ {A = Text × (Request → Response B)} (p, h) (q, h)
  entry_of h p q e = ap (λ (t : Text). (t, h)) ((text_eq_iff p q).0 e)

  -- A path that is served is answered by its handler and logged as it is; any other is answered with
  -- 404 and logged as `other`.
  pub router-route_template : (req : Request) → IsServed req ⊎ IsUnknown req
  unfolding router route_template
  router-route_template req =
      let path = req.path in
      elim (Bool-cases (text_eq path (codes "/health"))) [
        | inl e ↦
            let q = codes "/health" in
            inl (
              (λ _. health),
              inl (entry_of (λ _. health) path q e),
              rw (router, e) refl,
              rw (route_template, e) (sym ((text_eq_iff path q).0 e)),
            )
        | inr e ↦ elim (Bool-cases (text_eq path (codes "/v1/nearby"))) [
          | inl e1 ↦
              let q = codes "/v1/nearby" in
              inl (
                handlers.nearby,
                inr (inl (entry_of handlers.nearby path q e1)),
                rw (router, e, e1) refl,
                rw (route_template, e, e1) (sym ((text_eq_iff path q).0 e1)),
              )
          | inr e1 ↦ elim (Bool-cases (text_eq path (codes "/v1/departures"))) [
            | inl e2 ↦
                let q = codes "/v1/departures" in
                inl (
                  handlers.departures,
                  inr (inr (inl (entry_of handlers.departures path q e2))),
                  rw (router, e, e1, e2) refl,
                  rw (route_template, e, e1, e2) (sym ((text_eq_iff path q).0 e2)),
                )
            | inr e2 ↦ elim (Bool-cases (text_eq path (codes "/v1/formation"))) [
              | inl e3 ↦
                  let q = codes "/v1/formation" in
                  inl (
                    handlers.formation,
                    inr (inr (inr (inl (entry_of handlers.formation path q e3)))),
                    rw (router, e, e1, e2, e3) refl,
                    rw (route_template, e, e1, e2, e3) (sym ((text_eq_iff path q).0 e3)),
                  )
              | inr e3 ↦ inr (
                none_of e e1 e2 e3,
                rw (router, e, e1, e2, e3) refl,
                rw (route_template, e, e1, e2, e3) refl,
              )
            ]
          ]
        ]
      ]
    where
      none_of :
          text_eq req.path (codes "/health") ≡ false
          → text_eq req.path (codes "/v1/nearby") ≡ false
          → text_eq req.path (codes "/v1/departures") ≡ false
          → text_eq req.path (codes "/v1/formation") ≡ false
          → (handler : Request → Response B) → ¬ Elem (req.path, handler) served
      none_of a b c d handler (inl same) = no_entry handler (λ _. health) req.path _ a same
      none_of a b c d handler (inr (inl same)) = no_entry handler handlers.nearby req.path _ b same
      none_of a b c d handler (inr (inr (inl same))) =
          no_entry handler handlers.departures req.path _ c same
      none_of a b c d handler (inr (inr (inr (inl same)))) =
          no_entry handler handlers.formation req.path _ d same
      none_of a b c d handler (inr (inr (inr (inr stop)))) = elim stop [ ]
