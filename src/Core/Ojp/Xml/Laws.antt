-- ===== src/Core/Ojp/Xml/Laws.antt =====
-- The regex library's matches, and the slices that `xml_blocks` (core/src/ojp.rs) takes at them.
use mathlib.Core.Path.{subst}
use traintime_api.Common.{
  ℕ, ◌≤◌, ◌≡◌, inl, inr, true, Gives, Option, none, some, List, [], ◌∷◌, arith, length, leb, ◌&&◌,
  All, Option-cases, Text,
}
use traintime_api.Core.Ojp.Patterns.{RegexLib}
use traintime_api.Core.Ojp.Xml.{slice, blocks_from, xml_blocks, open_pattern, close_pattern}
use traintime_api.Core.Ojp.Events.{◌>>=◌, on_first}

-- The regex library's matches lie in the text, and a search from a place on finds none before it.
pub record IsBounded (lib : RegexLib) : Type 0 where
  pub iter :
      (re : lib.Regex) (xml : Text)
      → All (λ (m : ℕ × ℕ). (m.0 ≤ m.1) × (m.1 ≤ length xml)) (lib.find_iter re xml)
  pub at :
      (re : lib.Regex) (xml : Text) (from : ℕ) (m : ℕ × ℕ)
      → lib.find_at re xml from ≡ some m
      → (from ≤ m.0) × (m.0 ≤ m.1) × (m.1 ≤ length xml)

pub gives_bind :
    {A B : Type 0} (m : Option A) (k : A → Option B) (Q : A → Type 0) (P : B → Type 0)
    → Gives m Q
    → ((a : A) → Q a → Gives (k a) P)
    → Gives (m >>= k) P
gives_bind none k Q P g h = elim g [ ]
gives_bind (some a) k Q P g h = h a g

pub gives_first :
    {A : Type 0} (bs : List Text) (k : Text → Option (Option A)) (P : Option A → Type 0)
    → P none
    → ((b : Text) → Gives (k b) P)
    → Gives (on_first bs k) P
gives_first [] k P p h = p
gives_first (b ∷ bs) k P p h = h b

abbrev pub Any : {A : Type 0} → A → Type 0
Any a = Unit {0}

module _ (lib : RegexLib) (compiled : Text → lib.Regex) (bounded : IsBounded lib) where
  blocks_from-Gives :
      (xml tag : Text) (opens : List (ℕ × ℕ))
      → All (λ (m : ℕ × ℕ). (m.0 ≤ m.1) × (m.1 ≤ length xml)) opens
      → Gives (blocks_from lib compiled xml tag opens) Any
  unfolding blocks_from slice
  blocks_from-Gives xml tag [] h = tt
  blocks_from-Gives xml tag ((start, end) ∷ opens) (h, hs) =
      let rest = blocks_from-Gives xml tag opens hs in
      elim (Option-cases (lib.find_at (compiled (close_pattern tag)) xml end)) [
        | inl e ↦ rw (e, blocks_from) rest
        | inr (m, e) ↦
            let (after, ordered, inside) = bounded.at (compiled (close_pattern tag)) xml end m e in
            let fits : (leb start m.1 && leb m.1 (length xml)) ≡ true = ground arith in
            elim (Option-cases (blocks_from lib compiled xml tag opens)) [
              | inl panic ↦ elim (subst (λ o. Gives o Any) panic rest) [ ]
              | inr (blocks, read) ↦ rw (e, blocks_from, fits, read) tt
            ]
      ]

  pub blocks-Gives : (xml tag : Text) → Gives (xml_blocks lib compiled xml tag) Any
  unfolding xml_blocks
  blocks-Gives xml tag =
      blocks_from-Gives xml tag (lib.find_iter (compiled (open_pattern tag)) xml)
        (bounded.iter (compiled (open_pattern tag)) xml)
