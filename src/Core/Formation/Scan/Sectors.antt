-- ===== src/Core/Formation/Scan/Sectors.antt =====
-- The sectors of a formation string and of its wagons (core/src/formation.rs,
-- `parse_formation_short_string`).
use traintime_api.Common.{
  ℕ, ◌+◌, ◌≡◌, refl, ◌⊎◌, inl, inr, true, false, Option, List, [], ◌∷◌, ◌++◌, arith, Bool-cases,
  Option-cases, any, Elem, Elem-append_left, Elem-append_right, Elem-append, All, All-append, Text,
  text_eq, text_eq_iff, split, trim, codes, strip_prefix, is_ascii_alphabetic, to_uppercase,
}
use traintime_api.Core.Formation.{Wagon, Vehicle}
use traintime_api.Core.Formation.Scan.{
  Captures, Scan, enter, leading, trailing, vehicle_of, push_vehicle, read_token, read_tokens, scan,
  remove_brackets,
}
use traintime_api.Core.Formation.Wagons.{wagon_of, is_not_passenger, parse_formation_short_string}
use traintime_api.Core.Formation.Wagons.Laws.{expected, wagons_of-expected}

abbrev pub IsDistinct : List Text → Type 0
IsDistinct [] = Unit
IsDistinct (x ∷ xs) = (¬ Elem x xs) × IsDistinct xs

-- A sector of the list, or none.
abbrev pub IsListed : List Text → Text → Type 0
IsListed sectors s = (s ≡ []) ⊎ Elem s sectors

record IsPlaced (st : Scan) : Type 0 where
  distinct : IsDistinct st.sectors
  current : IsListed st.sectors st.sector
  placed : All (λ (v : Vehicle). IsListed st.sectors v.sector) st.vehicles

IsDistinct-append :
    (s : Text) (xs : List Text) → IsDistinct xs → ¬ Elem s xs → IsDistinct (xs ++ s ∷ [])
IsDistinct-append s [] d n = ((λ m. m), tt)
IsDistinct-append s (x ∷ xs) d n = (
  (λ m. elim (Elem-append x xs (s ∷ []) m) [ inl old ↦ d.0 old | inr new ↦ ground arith ]),
  IsDistinct-append s xs d.1 (λ m. n (inr m)),
)

any-Elem : (s : Text) (xs : List Text) → any (λ x. text_eq x s) xs ≡ true → Elem s xs
any-Elem s [] h = absurd (cc)
any-Elem s (x ∷ xs) h = ground (arith, any-Elem s xs, text_eq_iff x s)

any-Elem_not : (s : Text) (xs : List Text) → any (λ x. text_eq x s) xs ≡ false → ¬ Elem s xs
any-Elem_not s [] h m = m
any-Elem_not s (x ∷ xs) h m = ground (arith, any-Elem_not s xs, text_eq_iff x s)

All-IsListed :
    (xs ys : List Text) (vs : List Vehicle)
    → All (λ (v : Vehicle). IsListed xs v.sector) vs
    → All (λ (v : Vehicle). IsListed (xs ++ ys) v.sector) vs
All-IsListed xs ys [] h = tt
All-IsListed xs ys (v ∷ vs) h =
    (ground (arith, Elem-append_left v.sector xs ys), All-IsListed xs ys vs h.1)

enter-IsPlaced : (s : Text) (st : Scan) → IsPlaced st → IsPlaced (enter s st)
unfolding enter
enter-IsPlaced s st p = elim (Bool-cases (any (λ x. text_eq x s) st.sectors)) [
  | inl known ↦ record {
    distinct = rw (enter, known) p.distinct;
    current = rw (enter, known) (inr (any-Elem s st.sectors known));
    placed = rw (enter, known) p.placed;
  }
  | inr new ↦ record {
    distinct =
        rw (enter, new) (IsDistinct-append s st.sectors p.distinct (any-Elem_not s st.sectors new));
    current = rw (enter, new) (inr (Elem-append_right s st.sectors (s ∷ []) (inl refl)));
    placed = rw (enter, new) (All-IsListed st.sectors (s ∷ []) st.vehicles p.placed);
  }
]

leading-IsPlaced : (token : Text) (st : Scan) → IsPlaced st → IsPlaced (leading token st).1
unfolding leading
leading-IsPlaced token st p = elim (Option-cases (strip_prefix (codes "@") token)) [
  | inl e ↦ rw (leading, e) p
  | inr ([], e) ↦ rw (leading, e) p
  | inr (c ∷ rest, e) ↦ elim (Bool-cases (is_ascii_alphabetic c)) [
    | inl letter ↦ rw (leading, e, letter) (enter-IsPlaced (to_uppercase (c ∷ [])) st p)
    | inr other ↦ rw (leading, e, other) p
  ]
]

module _ (captures : Text → Option Captures) where
  push_vehicle-IsPlaced :
      (token : Text) (st : Scan) → IsPlaced st → IsPlaced (push_vehicle captures token st)
  unfolding push_vehicle
  push_vehicle-IsPlaced [] st p = p
  push_vehicle-IsPlaced (d ∷ token) st p = elim (Option-cases (captures (d ∷ token))) [
    | inl e ↦ rw (push_vehicle, e) p
    | inr (c, e) ↦
        rw (push_vehicle, e)
          (record {
            distinct = p.distinct;
            current = p.current;
            placed =
                All-append (λ (v : Vehicle). IsListed st.sectors v.sector) st.vehicles
                  (vehicle_of c st.sector ∷ []) p.placed (unfold vehicle_of in p.current, tt);
          })
  ]

  read_token-IsPlaced :
      (st : Scan) (raw : Text) → IsPlaced st → IsPlaced (read_token captures st raw)
  unfolding read_token
  read_token-IsPlaced st raw p =
      let token = remove_brackets (trim raw) in
      let entered = leading token st in
      let cut = trailing entered.0 in
      let pushed = push_vehicle-IsPlaced cut.0 entered.1 (leading-IsPlaced token st p) in
      elim (Option-cases cut.1) [
        | inl e ↦ rw (read_token, e) pushed
        | inr (s, e) ↦
            rw (read_token, e) (enter-IsPlaced s (push_vehicle captures cut.0 entered.1) pushed)
      ]

  read_tokens-IsPlaced :
      (st : Scan) (raws : List Text) → IsPlaced st → IsPlaced (read_tokens captures st raws)
  unfolding read_tokens
  read_tokens-IsPlaced st [] p = p
  read_tokens-IsPlaced st (raw ∷ raws) p =
      read_tokens-IsPlaced (read_token captures st raw) raws (read_token-IsPlaced st raw p)

  scan-IsPlaced : (short : Text) → IsPlaced (scan captures short)
  unfolding scan
  scan-IsPlaced short =
      read_tokens-IsPlaced _ (split b',' short)
        (record { distinct = tt; current = inl refl; placed = tt })

  expected-IsListed :
      (sectors : List Text) (n : ℕ) (vs : List Vehicle)
      → All (λ (v : Vehicle). IsListed sectors v.sector) vs
      → All (λ (w : Wagon). IsListed sectors w.sector) (expected n vs)
  unfolding expected wagon_of
  expected-IsListed sectors n [] h = tt
  expected-IsListed sectors n (v ∷ vs) h = elim (Bool-cases (is_not_passenger v)) [
    | inl skip ↦ rw (expected, skip) (expected-IsListed sectors n vs h.1)
    | inr car ↦ rw (expected, car) (h.0, expected-IsListed sectors (n + 1) vs h.1)
  ]

  -- No sector is listed twice, and every wagon's sector is one of the list or empty.
  pub parse_formation_short_string-IsListed :
      (short : Text)
      → IsDistinct (parse_formation_short_string captures short).0
        × All
            (λ (w : Wagon). IsListed (parse_formation_short_string captures short).0 w.sector)
            (parse_formation_short_string captures short).1
  unfolding parse_formation_short_string
  parse_formation_short_string-IsListed short =
      let st = scan captures short in
      let p = scan-IsPlaced short in
      (
        p.distinct,
        rw (wagons_of-expected st.vehicles) (expected-IsListed st.sectors 1 st.vehicles p.placed),
      )
