-- ===== src/Core/Formation/Scan.antt =====
-- core/src/formation.rs, the first loop of `parse_formation_short_string`: tokens to vehicles.
pub mod Sectors
use traintime_api.Common.{
  ◌+◌, ◌^◌, not, ◌&&◌, ◌||◌, Option, none, some, List, [], ◌∷◌, ◌++◌, map, if◌then◌else◌, ◌==◌,
  is_some, unwrap_or, filter, all, any, is_empty, take, drop, Text, codes, text_eq,
  is_ascii_alphabetic, to_uppercase, trim, split, rfind, strip_prefix, contains_char,
}
use traintime_api.Common.Decimal.{parse_below}
use traintime_api.Common.Utf8.{byte_len}
use traintime_api.Core.Formation.{Vehicle}

-- The groups of a match of `token_re`, in their order; group 4 takes part in every match.
pub record Captures : Type 0 where
  pub opening : Option Text
  pub status : Option Text
  pub opening_inner : Option Text
  pub kind : Text
  pub closing : Option Text
  pub number : Option Text
  pub offers : Option Text

-- The variables of the loop.
pub record Scan : Type 0 where
  pub sectors : List Text
  pub vehicles : List Vehicle
  pub sector : Text

unfoldable pub enter : Text → Scan → Scan
enter s st = record st {
  sector = s;
  sectors = if any (λ x. text_eq x s) st.sectors then st.sectors else st.sectors ++ s ∷ [];
}

-- `replace(['[', ']'], "")`.
remove_brackets : Text → Text
remove_brackets = filter (λ c. not (c == b'[' || c == b']'))

-- A sector in front, `@A`: the state that has entered it, and the rest of the token.
unfoldable pub leading : Text → Scan → Text × Scan
unfolding enter
leading token st = elim (strip_prefix (codes "@") token) [
  | none ↦ (token, st)
  | some [] ↦ (token, st)
  | some (c ∷ rest) ↦
      if is_ascii_alphabetic c then (rest, enter (to_uppercase (c ∷ [])) st) else (token, st)
]

-- A sector behind, `@A`: the token before it, and the sector.
unfoldable pub trailing : Text → Text × Option Text
trailing token = elim (rfind b'@' token) [
  | none ↦ (token, none)
  | some at ↦
      let tail = drop (at + 1) token in
      if byte_len tail == 1 && all is_ascii_alphabetic tail
      then (take at token, some (to_uppercase tail))
      else (token, none)
]

unfoldable pub vehicle_of : Captures → Text → Vehicle
vehicle_of c sector =
    let status = unwrap_or c.status [] in
    record {
      kind = c.kind;
      sector = sector;
      number = elim c.number [ none ↦ none | some m ↦ parse_below (2 ^ 32) m ];
      opens = is_some c.opening || is_some c.opening_inner;
      closes = is_some c.closing;
      closed = contains_char b'-' status;
      not_serving = contains_char b'%' status;
      offers = elim c.offers [
        | none ↦ []
        | some m ↦ map (λ o. to_uppercase (trim o)) (split b';' m)
      ];
    }

-- `captures` is the search of the regex library with the pattern `token_re`.
module _ (captures : Text → Option Captures) where
  unfoldable pub push_vehicle : Text → Scan → Scan
  unfolding vehicle_of
  push_vehicle token st = if is_empty token then st else elim (captures token) [
    | none ↦ st
    | some c ↦ record st { vehicles = st.vehicles ++ vehicle_of c st.sector ∷ [] }
  ]

  -- One token.
  unfoldable pub read_token : Scan → Text → Scan
  unfolding remove_brackets leading trailing push_vehicle enter
  read_token st raw =
      let (token, entered) = leading (remove_brackets (trim raw)) st in
      let (body, behind) = trailing token in
      let pushed = push_vehicle body entered in
      elim behind [ none ↦ pushed | some s ↦ enter s pushed ]

  unfoldable pub read_tokens : Scan → List Text → Scan
  unfolding read_token
  read_tokens st [] = st
  read_tokens st (raw ∷ raws) = read_tokens (read_token st raw) raws

  unfoldable pub scan : Text → Scan
  unfolding read_tokens
  scan short = read_tokens (record { sectors = []; vehicles = []; sector = [] }) (split b',' short)
