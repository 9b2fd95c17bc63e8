-- ===== src/Cursor.antt =====
-- Cursors (common/utils.go) and the checks of tags and identifiers (common/validator.go,
-- graphql/internal/import.go).
pub mod Base64
pub mod RoundTrip
pub mod Validator
use dae_wing.Base.{
  ℕ, zero, suc, ◌+◌, ◌-◌, ◌*◌, ◌%◌, ◌^◌, Bool, true, false, ◌&&◌, Option, none, some, List, [], ◌∷◌,
  ◌++◌, Text, codes, leb, ltb, ◌==◌, if◌then◌else◌, Result, ok, err, Error, ◌>>=◌,
}
use dae_wing.Base.Decimal.{decimal}
use dae_wing.Cursor.Base64.{encode, decode}

abbrev pub prefix : Text
prefix = codes "cursor"

-- `strings.TrimPrefix`
unfoldable pub cut_prefix : Text → Text → Option Text
cut_prefix [] s = some s
cut_prefix (p ∷ ps) [] = none
cut_prefix (p ∷ ps) (c ∷ s) = if c == p then cut_prefix ps s else none

unfoldable pub trim_prefix : Text → Text → Text
trim_prefix p s = elim (cut_prefix p s) [ some rest ↦ rest | none ↦ s ]

-- `strconv.Atoi`: an optional sign, one or more digits, and a value that fits in 64 bits
unfoldable pub scan : Text → ℕ → Option ℕ
scan [] n = some n
scan (c ∷ s) n = if leb b'0' c && leb c b'9' then scan s (n * 10 + (c - b'0')) else none

unfoldable pub magnitude : Text → ℕ → Option ℕ
magnitude [] bound = none
magnitude (c ∷ s) bound = elim (scan (c ∷ s) 0) [
  | some n ↦ if leb n bound then some n else none
  | none ↦ none
]

-- `uint(intId)` wraps around at a negative number.
unfoldable pub atoi_uint : Text → Option ℕ
atoi_uint [] = none
atoi_uint (c ∷ s) =
    if c == b'-'
    then elim (magnitude s (2 ^ 63)) [ some n ↦ some ((2 ^ 64 - n) % 2 ^ 64) | none ↦ none ]
    else if c == b'+'
    then magnitude s (2 ^ 63 - 1)
    else magnitude (c ∷ s) (2 ^ 63 - 1)

unfoldable pub encode_cursor : ℕ → Text
encode_cursor id = encode (prefix ++ decimal id)

unfoldable pub encode_nullable_cursor : Option ℕ → Option Text
encode_nullable_cursor none = none
encode_nullable_cursor (some id) = some (encode_cursor id)

unfoldable pub decode_cursor : Text → Result ℕ
decode_cursor cursor = elim (decode cursor) [
  | none ↦ err Error.bad_cursor
  | some bytes ↦ elim (atoi_uint (trim_prefix prefix bytes)) [
    | none ↦ err Error.bad_cursor
    | some id ↦ ok id
  ]
]

-- The loop returns at the first cursor that does not decode.
unfoldable pub decode_cursor_batch : List Text → Result (List ℕ)
decode_cursor_batch [] = ok []
decode_cursor_batch (cursor ∷ cursors) = do
  id ← decode_cursor cursor
  ids ← decode_cursor_batch cursors
  ok (id ∷ ids)
