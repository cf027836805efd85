-- ===== src/Core/Ojp/Xml.antt =====
-- core/src/ojp.rs, `xml_text`, `xml_blocks` and `xml_lang_text`. `compiled` is what `compile` gives
-- for the patterns of the program, which all compile.
pub mod Laws
use traintime_api.Common.{
  ℕ, ◌-◌, Option, none, some, List, [], ◌∷◌, ◌++◌, length, take, drop, leb, ◌&&◌, if◌then◌else◌,
  Text, codes, trim,
}
use traintime_api.Core.Ojp.Patterns.{RegexLib}

-- `(?:[a-z]+:)?`, the optional namespace.
abbrev namespace : Text
namespace = codes "(?:[a-z]+:)?"

abbrev leaf_pattern : Text → Text
leaf_pattern tag =
    codes "<"
    ++ (namespace ++ (tag ++ (codes "[^>]*>([^<]*)</" ++ (namespace ++ (tag ++ codes ">")))))

abbrev pub open_pattern : Text → Text
open_pattern tag = codes "(?i)<" ++ (namespace ++ (tag ++ codes "[^>]*>"))

abbrev pub close_pattern : Text → Text
close_pattern tag = codes "(?i)</" ++ (namespace ++ (tag ++ codes ">"))

abbrev text_pattern : Text
text_pattern = codes "(?i)<Text[^>]*>([^<]*)</Text>"

-- `&xml[from..to]`; `none` is its panic.
unfoldable pub slice : Text → ℕ → ℕ → Option Text
slice xml from to =
    if leb from to && leb to (length xml) then some (take (to - from) (drop from xml)) else none

abbrev pub trimmed : Option Text → Option Text
trimmed none = none
trimmed (some t) = some (trim t)

module _ (lib : RegexLib) (compiled : Text → lib.Regex) where
  open lib use {Regex, captures, find_iter, find_at}

  unfoldable pub xml_text : Text → Text → Option Text
  xml_text xml tag = trimmed (captures (compiled (leaf_pattern tag)) xml)

  unfoldable pub xml_lang_text : Text → Option Text
  xml_lang_text xml = trimmed (captures (compiled text_pattern) xml)

  -- The loop over the opening tags; `none` is a panic of a slice.
  unfoldable pub blocks_from : Text → Text → List (ℕ × ℕ) → Option (List Text)
  unfolding slice
  blocks_from xml tag [] = some []
  blocks_from xml tag ((start, end) ∷ opens) =
      let rest = blocks_from xml tag opens in
      elim (find_at (compiled (close_pattern tag)) xml end) [
        | none ↦ rest
        | some (_, close_end) ↦ elim (slice xml start close_end) [
          | none ↦ none
          | some block ↦ elim rest [ none ↦ none | some blocks ↦ some (block ∷ blocks) ]
        ]
      ]

  unfoldable pub xml_blocks : Text → Text → Option (List Text)
  unfolding blocks_from
  xml_blocks xml tag = blocks_from xml tag (find_iter (compiled (open_pattern tag)) xml)
