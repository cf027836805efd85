-- ===== src/Core/Formation/Wagons/Laws.antt =====
-- The wagons of a train, stated by looking ahead instead of marking what was pushed.
use traintime_api.Common.{
  ℕ, ◌+◌, ◌≡◌, refl, ap, ◌∙◌, ◌⊎◌, inl, inr, Bool, true, false, ◌||◌, List, [], ◌∷◌, ◌++◌,
  append_assoc, map, arith, if◌then◌else◌, Bool-cases, length, length-append,
}
use mathlib.Core.Path.{ap₂, subst}
use traintime_api.Core.Formation.{Wagon, Vehicle}
use traintime_api.Core.Formation.Wagons.{
  is_not_passenger, wagon_of, flag_last, next_opens, walk, wagons_of,
}

-- Behind a car, `b` says whether its own end is closed off: the way to the next passenger car is
-- blocked if a boundary stands at an end between the two. Behind the last car nothing is blocked.
blocked : Bool → List Vehicle → Bool
blocked b [] = false
blocked b (v ∷ vs) =
    let past = blocked (b || (v.opens || v.closes)) vs in
    if is_not_passenger v then past else b || v.opens

-- One wagon for each passenger vehicle, numbered upwards.
unfoldable pub expected : ℕ → List Vehicle → List Wagon
unfolding blocked
expected n [] = []
expected n (v ∷ vs) =
    let skipped = expected n vs in
    let own =
      (record (wagon_of v n) { no_passage_after = blocked v.closes vs }) ∷ expected (n + 1) vs in
    if is_not_passenger v then skipped else own

abbrev flagged : Bool → Wagon → Wagon
flagged b w = record w { no_passage_after = b }

flag_last-concat :
    (b : Bool) (ws : List Wagon) (w : Wagon) → flag_last b (ws ++ w ∷ []) ≡ ws ++ flagged b w ∷ []
unfolding flag_last
flag_last-concat b [] w = refl
flag_last-concat b (x ∷ []) w = refl
flag_last-concat b (x ∷ y ∷ ws) w = ap (◌∷◌ x) (flag_last-concat b (y ∷ ws) w)

-- What the code has pending before a vehicle always includes that vehicle's own opening.
pending_skip : (c o cl nx : Bool) → (c || o) || (cl || nx) ≡ (c || (o || cl)) || nx
pending_skip true o cl nx = refl
pending_skip false true cl nx = refl
pending_skip false false cl nx = refl

pending_twice : (c o : Bool) → (c || o) || o ≡ c || o
pending_twice true o = refl
pending_twice false true = refl
pending_twice false false = refl

marked_lem :
    (b : Bool) (ws : List Wagon) (w : Wagon)
    → w.no_passage_after ≡ false
    → (if b then flag_last true (ws ++ w ∷ []) else ws ++ w ∷ []) ≡ ws ++ flagged b w ∷ []
marked_lem true ws w h = flag_last-concat true ws w
marked_lem false ws w h = ap (λ (b : Bool). ws ++ flagged b w ∷ []) h

walk_lem :
    (ws : List Wagon) (w : Wagon) (c : Bool) (vs : List Vehicle)
    → w.no_passage_after ≡ false
    → flag_last false (walk (ws ++ w ∷ []) (c || next_opens vs) vs)
      ≡ ws ++ flagged (blocked c vs) w ∷ expected (length ws + 2) vs
unfolding walk blocked expected
walk_lem ws w c [] h = flag_last-concat false ws w
walk_lem ws w c (v ∷ vs) h = elim (Bool-cases (is_not_passenger v)) [
  | inl skip ↦ rw skip (
      ap (λ (p : Bool). flag_last false (walk (ws ++ w ∷ []) p vs))
        (pending_skip c v.opens v.closes (next_opens vs))
      ∙ walk_lem ws w (c || (v.opens || v.closes)) vs h)
  | inr seat ↦
      rw (seat, pending_twice c v.opens, marked_lem (c || v.opens) ws w h)
        (let marked = flagged (c || v.opens) w in
          let own = λ (m k : ℕ). flagged (blocked v.closes vs) (wagon_of v m) ∷ expected k vs in
          let grown : length (ws ++ marked ∷ []) ≡ length ws + 1 = length-append ws (marked ∷ []) in
          walk_lem (ws ++ marked ∷ []) (wagon_of v (length (ws ++ marked ∷ []) + 1)) v.closes vs
            refl
          ∙ ap₂ (λ (m k : ℕ). (ws ++ marked ∷ []) ++ own m k) (omega arith) (omega arith)
          ∙ append_assoc ws (marked ∷ []) (own (length ws + 2) (length ws + 2 + 1)))
]

walk_start : (p : Bool) (vs : List Vehicle) → flag_last false (walk [] p vs) ≡ expected 1 vs
unfolding walk expected flag_last
walk_start p [] = refl
walk_start p (v ∷ vs) = elim (Bool-cases (is_not_passenger v)) [
  | inl skip ↦ rw skip (walk_start (p || (v.closes || next_opens vs)) vs)
  | inr seat ↦ rw seat (nothing_marked (p || v.opens))
]
  where
    nothing_marked :
        (b : Bool)
        → flag_last false (
            walk
              ((if b then flag_last true [] else [])
                ++ wagon_of v (length (if b then flag_last true [] else []) + 1) ∷ [])
              (v.closes || next_opens vs)
              vs)
          ≡ flagged (blocked v.closes vs) (wagon_of v 1) ∷ expected 2 vs
    nothing_marked true = walk_lem [] (wagon_of v 1) v.closes vs refl
    nothing_marked false = walk_lem [] (wagon_of v 1) v.closes vs refl

-- The wagons are the passenger vehicles in their order, numbered from 1, and there is no passage
-- behind a wagon exactly if a boundary stands between it and the next passenger vehicle.
pub wagons_of-expected : (vehicles : List Vehicle) → wagons_of vehicles ≡ expected 1 vehicles
unfolding wagons_of
wagons_of-expected vehicles = walk_start false vehicles

abbrev from_to : ℕ → List Wagon → List ℕ
from_to n [] = []
from_to n (w ∷ ws) = n ∷ from_to (n + 1) ws

positions-expected :
    (n : ℕ) (vs : List Vehicle)
    → map (λ (w : Wagon). w.position) (expected n vs) ≡ from_to n (expected n vs)
unfolding expected wagon_of
positions-expected n [] = refl
positions-expected n (v ∷ vs) = elim (Bool-cases (is_not_passenger v)) [
  | inl skip ↦ rw skip (positions-expected n vs)
  | inr seat ↦ rw seat (ap (◌∷◌ n) (positions-expected (n + 1) vs))
]

abbrev last_passage : List Wagon → Bool
last_passage [] = false
last_passage (w ∷ []) = w.no_passage_after
last_passage (w ∷ w' ∷ ws) = last_passage (w' ∷ ws)

blocked-nobody : (n : ℕ) (b : Bool) (vs : List Vehicle) → expected n vs ≡ [] → blocked b vs ≡ false
unfolding expected blocked
blocked-nobody n b [] h = refl
blocked-nobody n b (v ∷ vs) h = elim (Bool-cases (is_not_passenger v)) [
  | inl skip ↦ rw skip (blocked-nobody n (b || (v.opens || v.closes)) vs (rw skip at h))
  | inr seat ↦ absurd (cc (rw seat at h))
]

List-cases : (ws : List Wagon) → (ws ≡ []) ⊎ ((w : Wagon) × (r : List Wagon) × (ws ≡ w ∷ r))
List-cases [] = inl refl
List-cases (w ∷ r) = inr (w, r, refl)

last_passage-expected : (n : ℕ) (vs : List Vehicle) → last_passage (expected n vs) ≡ false
unfolding expected
last_passage-expected n [] = refl
last_passage-expected n (v ∷ vs) = elim (Bool-cases (is_not_passenger v)) [
  | inl skip ↦ rw skip (last_passage-expected n vs)
  | inr seat ↦ rw seat (elim (List-cases (expected (n + 1) vs)) [
    | inl none_left ↦ rw (none_left, last_passage) (blocked-nobody (n + 1) v.closes vs none_left)
    | inr (w, r, more) ↦
        rw (more, last_passage)
          (subst (λ l. last_passage l ≡ false) more (last_passage-expected (n + 1) vs))
  ])
]

-- The wagons are numbered 1, 2, 3 and so on, and the end of the train is open.
wagons_of-positions :
    (vehicles : List Vehicle)
    → (map (λ (w : Wagon). w.position) (wagons_of vehicles) ≡ from_to 1 (wagons_of vehicles))
      × (last_passage (wagons_of vehicles) ≡ false)
wagons_of-positions vehicles =
    rw (wagons_of-expected vehicles)
      (positions-expected 1 vehicles, last_passage-expected 1 vehicles)
