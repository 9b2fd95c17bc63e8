-- ===== src/Cursor/Validator.antt =====
-- common/validator.go and graphql/internal/import.go. The two regular expressions are one or more
-- characters of a class, anchored at both ends.
use dae_wing.Base.{
  ℕ, Bool, false, not, ◌&&◌, ◌||◌, Option, none, some, [], ◌∷◌, Text, codes, all, member, leb, ◌==◌,
  if◌then◌else◌, Result, ok, err, Error,
}

-- ^[^:']+$
unfoldable pub tag_matches : Text → Bool
tag_matches [] = false
tag_matches (c ∷ s) = all (λ r. not (r == b':') && not (r == b'\'')) (c ∷ s)

unfoldable pub validate_tag : Text → Result (Unit {0})
validate_tag tag = if tag_matches tag then ok tt else err Error.invalid_tag

-- [a-zA-Z_]
abbrev id_head : ℕ → Bool
id_head c = leb b'a' c && leb c b'z' || leb b'A' c && leb c b'Z' || c == b'_'

-- [-a-zA-Z0-9_/\\^*+.=@$!#%]
abbrev id_rest : ℕ → Bool
id_rest c =
    id_head c
    || leb b'0' c && leb c b'9'
    || member (c ∷ []) (
        codes "-"
        ∷ codes "/"
        ∷ codes "\\"
        ∷ codes "^"
        ∷ codes "*"
        ∷ codes "+"
        ∷ codes "."
        ∷ codes "="
        ∷ codes "@"
        ∷ codes "$"
        ∷ codes "!"
        ∷ codes "#"
        ∷ codes "%"
        ∷ [])

unfoldable pub validate_id : Text → Result (Unit {0})
validate_id [] = err Error.invalid_id
validate_id (c ∷ s) = if id_head c && all id_rest s then ok tt else err Error.invalid_id

pub record ImportArgument : Type 0 where
  pub link : Text
  pub tag : Option Text

-- `(*ImportArgument).ValidateTag`
unfoldable pub validate_argument_tag : ImportArgument → Result (Unit {0})
validate_argument_tag a = elim a.tag [ none ↦ ok tt | some tag ↦ validate_tag tag ]
