-- ===== src/Cursor/RoundTrip.antt =====
-- Which identifiers come back from their cursor, and which do not.
use dae_wing.Base.{
  ℕ, ◌+◌, ◌-◌, ◌*◌, ◌^◌, ◌≤◌, ◌<◌, ◌≡◌, refl, sym, ap, ◌∙◌, none, some, List, [], ◌∷◌, ◌++◌, map,
  Text, leb, ltb, if◌then◌else◌, ok, err, Error, All, arith,
}
use dae_wing.Base.Lists.{All-append}
use dae_wing.Base.Decimal.{decimal, value, value-decimal, decimal-All, decimal-cons}
use dae_wing.Cursor.Base64.{decode-encode}
use dae_wing.Cursor.{
  prefix, trim_prefix, cut_prefix, scan, magnitude, atoi_uint, encode_cursor, decode_cursor,
  decode_cursor_batch,
}

abbrev IsDigit : ℕ → Type 0
IsDigit c = (b'0' ≤ c) × (c ≤ b'9')

scan-value : (s : Text) (n : ℕ) → All IsDigit s → scan s n ≡ some (value n s)
unfolding scan
scan-value [] n h = refl
scan-value (c ∷ s) n (hc, h) = ground (arith, scan-value s (n * 10 + (c - b'0')) h)

decimal-IsDigit : (n : ℕ) → All IsDigit (decimal n)
decimal-IsDigit n = decimal-All IsDigit n (λ d h. (omega arith, omega arith))

digits-unsigned :
    (d : ℕ) (s : Text)
    → All IsDigit (d ∷ s)
    → atoi_uint (d ∷ s)
      ≡ (if leb (value 0 (d ∷ s)) (2 ^ 63 - 1) then some (value 0 (d ∷ s)) else none)
unfolding atoi_uint magnitude
digits-unsigned d s (hd, h) = ground (arith, scan-value (d ∷ s) 0 (hd, h))

-- A printed number is read back if it fits in an `int`, and refused if not.
atoi_uint-decimal : (n : ℕ) → atoi_uint (decimal n) ≡ (if leb n (2 ^ 63 - 1) then some n else none)
atoi_uint-decimal n =
    let (d, s, e) = decimal-cons n in
    let h : All IsDigit (d ∷ s) = rw e at (decimal-IsDigit n) in
    let v : value 0 (d ∷ s) ≡ n = ap (value 0) (sym e) ∙ value-decimal n in
    rw e (digits-unsigned d s h ∙ rw v)

trim_prefix-prefix : (s : Text) → trim_prefix prefix (prefix ++ s) ≡ s
unfolding trim_prefix cut_prefix
trim_prefix-prefix s = refl

prefix-bytes : (n : ℕ) → All (λ c. c < 256) (prefix ++ decimal n)
prefix-bytes n =
    All-append (λ c. c < 256) prefix (decimal n) (omega arith)
      (decimal-All (λ c. c < 256) n (λ d h. omega arith))

-- The cursor of an identifier below 2 ^ 63 decodes to it; the cursor of any other is refused.
pub decode_cursor-encode_cursor :
    (id : ℕ)
    → decode_cursor (encode_cursor id) ≡ (if ltb id (2 ^ 63) then ok id else err Error.bad_cursor)
unfolding decode_cursor encode_cursor
decode_cursor-encode_cursor id = ground (
  arith,
  decode-encode (prefix ++ decimal id) (prefix-bytes id),
  trim_prefix-prefix (decimal id),
  atoi_uint-decimal id,
)

-- The cursors of identifiers below 2 ^ 63 decode to the identifiers, in order.
pub decode_cursor_batch-map :
    (ids : List ℕ)
    → All (λ id. id < 2 ^ 63) ids
    → decode_cursor_batch (map encode_cursor ids) ≡ ok ids
unfolding decode_cursor_batch
decode_cursor_batch-map [] h = refl
decode_cursor_batch-map (id ∷ ids) (hi, h) =
    ground (arith, decode_cursor-encode_cursor id, decode_cursor_batch-map ids h)
