-- ===== src/Core/Auth.antt =====
-- core/src/auth.rs: the client API keys, their comparison and the label that is logged.
pub mod Laws
use traintime_api.Common.{
  ℕ, ◌≡◌, Bool, true, false, not, Option, none, some, List, [], ◌∷◌, ◌++◌, map, if◌then◌else◌, ◌==◌,
  length, take, get_elem?, filter, is_empty, unwrap_or, Result, ok, err, Text, codes, split, trim,
}
use Prim.Native.Nat.{bit_or, bit_xor}
use traintime_api.Common.Utf8.{Bytes, as_bytes}

-- `struct ApiKeys(Vec<String>)`.
pub record ApiKeys : Type 0 where
  pub keys : List Text

abbrev pub no_keys : Text
no_keys = codes "no API keys configured (API_KEYS or API_KEY)"

abbrev pub is_filled : Text → Bool
is_filled k = not (is_empty k)

-- The entries of the list that are not blank, each trimmed.
unfoldable pub entries : Option Text → List Text
entries list = filter is_filled (map trim (split b',' (unwrap_or list [])))

-- The legacy key, trimmed, if it is not blank.
unfoldable pub legacy : Option Text → List Text
legacy none = []
legacy (some k) = filter is_filled (trim k ∷ [])

unfoldable pub parse : Option Text → Option Text → Result ApiKeys Text
unfolding entries legacy
parse list single =
    let keys = entries list in
    let keys' = if is_empty keys then keys ++ legacy single else keys in
    if is_empty keys' then err no_keys else ok (record { keys = keys' })

-- The loop over the zipped bytes, with the accumulated difference.
unfoldable pub diff_from : ℕ → Bytes → Bytes → ℕ
diff_from diff (x ∷ a) (y ∷ b) = diff_from (bit_or diff (bit_xor x y)) a b
diff_from diff _ _ = diff

unfoldable pub constant_time_eq : Bytes → Bytes → Bool
unfolding diff_from
constant_time_eq a b = if length a == length b then diff_from 0 a b == 0 else false

-- The loop of `matched`: it reads every key, and the last match stays.
unfoldable pub matched_from : Option Text → List Text → Text → Option Text
matched_from found [] provided = found
matched_from found (key ∷ keys) provided =
    matched_from (if constant_time_eq (as_bytes key) (as_bytes provided) then some key else found)
      keys provided

unfoldable pub matched : ApiKeys → Text → Option Text
unfolding matched_from
matched k provided = matched_from none k.keys provided

-- The text before the fifth character, or all of it.
unfoldable pub label : Text → Text
label key = elim (get_elem? key 4) [ none ↦ key | some _ ↦ take 4 key ]
