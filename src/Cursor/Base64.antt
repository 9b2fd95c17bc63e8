-- ===== src/Cursor/Base64.antt =====
-- `base64.StdEncoding.WithPadding(base64.NoPadding)` of Go's standard library, on bytes.
use dae_wing.Base.{
  ℕ, ◌+◌, ◌-◌, ◌*◌, ◌/◌, ◌%◌, ◌<◌, ◌≡◌, refl, false, ◌&&◌, ◌||◌, Option, none, some, List, [], ◌∷◌,
  map, Text, codes, leb, ltb, ◌==◌, if◌then◌else◌, All, arith,
}

-- A-Z a-z 0-9 + /
char_of : ℕ → ℕ
char_of n =
    if ltb n 26
    then n + b'A'
    else if ltb n 52
    then n - 26 + b'a'
    else if ltb n 62
    then n - 52 + b'0'
    else if n == 62
    then b'+'
    else b'/'

sextet_of : ℕ → Option ℕ
sextet_of c =
    if leb b'A' c && leb c b'Z'
    then some (c - b'A')
    else if leb b'a' c && leb c b'z'
    then some (c - b'a' + 26)
    else if leb b'0' c && leb c b'9'
    then some (c - b'0' + 52)
    else if c == b'+'
    then some 62
    else if c == b'/'
    then some 63
    else none

-- three bytes are four sextets
split_bytes : List ℕ → List ℕ
split_bytes [] = []
split_bytes (x ∷ []) = x / 4 ∷ x % 4 * 16 ∷ []
split_bytes (x ∷ y ∷ []) = x / 4 ∷ (x % 4 * 16 + y / 16) ∷ y % 16 * 4 ∷ []
split_bytes (x ∷ y ∷ z ∷ rest) =
    x / 4 ∷ (x % 4 * 16 + y / 16) ∷ (y % 16 * 4 + z / 64) ∷ z % 64 ∷ split_bytes rest

-- The decoder is not strict: it ignores the bits that are left over.
join_sextets : List ℕ → Option (List ℕ)
join_sextets [] = some []
join_sextets (a ∷ []) = none
join_sextets (a ∷ b ∷ []) = some ((a * 4 + b / 16) ∷ [])
join_sextets (a ∷ b ∷ c ∷ []) = some ((a * 4 + b / 16) ∷ (b % 16 * 16 + c / 4) ∷ [])
join_sextets (a ∷ b ∷ c ∷ d ∷ rest) = elim (join_sextets rest) [
  | none ↦ none
  | some bytes ↦ some ((a * 4 + b / 16) ∷ (b % 16 * 16 + c / 4) ∷ (c % 4 * 64 + d) ∷ bytes)
]

-- Line ends are skipped.
read_sextets : Text → Option (List ℕ)
read_sextets [] = some []
read_sextets (c ∷ s) = if c == 10 || c == 13 then read_sextets s else elim (sextet_of c) [
  | none ↦ none
  | some x ↦ elim (read_sextets s) [ none ↦ none | some xs ↦ some (x ∷ xs) ]
]

unfoldable pub encode : List ℕ → Text
unfolding char_of split_bytes
encode bytes = map char_of (split_bytes bytes)

unfoldable pub decode : Text → Option (List ℕ)
unfolding read_sextets join_sextets sextet_of
decode s = elim (read_sextets s) [ none ↦ none | some xs ↦ join_sextets xs ]

sextet_of-char_of : (n : ℕ) → n < 64 → sextet_of (char_of n) ≡ some n
unfolding sextet_of char_of
sextet_of-char_of n h = ground arith

char_of-no_line_end : (n : ℕ) → n < 64 → (char_of n == 10 || char_of n == 13) ≡ false
unfolding char_of
char_of-no_line_end n h = ground arith

read_sextets-map : (xs : List ℕ) → All (λ x. x < 64) xs → read_sextets (map char_of xs) ≡ some xs
unfolding read_sextets
read_sextets-map [] h = refl
read_sextets-map (x ∷ xs) (hx, h) =
    ground (arith, read_sextets-map xs h, sextet_of-char_of x hx, char_of-no_line_end x hx)

split_bytes-lt : (bytes : List ℕ) → All (λ x. x < 256) bytes → All (λ x. x < 64) (split_bytes bytes)
unfolding split_bytes
split_bytes-lt [] h = tt
split_bytes-lt (x ∷ []) h = omega arith
split_bytes-lt (x ∷ y ∷ []) h = omega arith
split_bytes-lt (x ∷ y ∷ z ∷ rest) (hx, (hy, (hz, h))) =
    (omega arith, (omega arith, (omega arith, (omega arith, split_bytes-lt rest h))))

join_sextets-split_bytes :
    (bytes : List ℕ) → All (λ x. x < 256) bytes → join_sextets (split_bytes bytes) ≡ some bytes
unfolding join_sextets split_bytes
join_sextets-split_bytes [] h = refl
join_sextets-split_bytes (x ∷ []) h = ground arith
join_sextets-split_bytes (x ∷ y ∷ []) h = ground arith
join_sextets-split_bytes (x ∷ y ∷ z ∷ rest) (hx, (hy, (hz, h))) =
    ground (arith, join_sextets-split_bytes rest h)

-- Decoding undoes encoding, for every string of bytes.
pub decode-encode : (bytes : List ℕ) → All (λ x. x < 256) bytes → decode (encode bytes) ≡ some bytes
unfolding decode encode
decode-encode bytes h = ground (
  arith,
  read_sextets-map (split_bytes bytes) (split_bytes-lt bytes h),
  join_sextets-split_bytes bytes h,
)

encode_example : encode (codes "cursor1") ≡ codes "Y3Vyc29yMQ"
unfolding encode
encode_example = refl
