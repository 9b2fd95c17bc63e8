-- ===== src/Nodes/Search.antt =====
-- The search for a free name ends: among more candidates than there are names, one is free.
use mathlib.Core.List.{append_cancel_left, tail-eq_of_cons-eq}
use dae_wing.Base.{
  ℕ, zero, suc, ◌<◌, ◌≤◌, ◌≡◌, ◌≢◌, refl, sym, ap, ◌∙◌, true, false, some, List, [], ◌∷◌, ◌++◌,
  Text, text_eq, text_eq-true, member, length, inl, inr, if◌then◌else◌, Bool-cases, arith,
}
use dae_wing.Base.Decimal.{decimal, decimal_injective}
use dae_wing.Nodes.Names.{pick_name}

-- the names that the loop asks for, in order
abbrev pub candidate : Text → ℕ → Text
candidate base zero = base
candidate base (suc j) = base ++ b'.' ∷ decimal j

-- A name that is picked is free.
pub pick_name-free :
    (fuel : ℕ) (names : List Text) (base wanted : Text) (j : ℕ) (name : Text)
    → pick_name fuel names base wanted j ≡ some name
    → member name names ≡ false
unfolding pick_name
pick_name-free zero names base wanted j name h = absurd (cc)
pick_name-free (suc fuel) names base wanted j name h =
    ground (arith, pick_name-free fuel names base (base ++ b'.' ∷ decimal j) (suc j) name)

remove : Text → List Text → List Text
remove s [] = []
remove s (t ∷ ts) = if text_eq t s then remove s ts else t ∷ remove s ts

length-remove-le : (s : Text) (ts : List Text) → length (remove s ts) ≤ length ts
unfolding remove
length-remove-le s [] = omega arith
length-remove-le s (t ∷ ts) = ground (arith, length-remove-le s ts)

length-remove-lt :
    (s : Text) (ts : List Text) → member s ts ≡ true → length (remove s ts) < length ts
unfolding remove
length-remove-lt s [] h = absurd (cc)
length-remove-lt s (t ∷ ts) h = ground (arith, length-remove-lt s ts, length-remove-le s ts)

text_eq_ne : (s t : Text) → s ≢ t → text_eq s t ≡ false
text_eq_ne s t h = ground (arith, text_eq-true s t)

member-remove : (s u : Text) (ts : List Text) → s ≢ u → member s (remove u ts) ≡ member s ts
unfolding remove
member-remove s u [] h = refl
member-remove s u (t ∷ ts) h =
    ground (arith, member-remove s u ts h, text_eq-true t u, text_eq-true t s)

module _ (base : Text) where
  append-ne_self : (s : Text) (c : ℕ) (t : Text) → s ++ c ∷ t ≢ s
  append-ne_self [] c t h = cc
  append-ne_self (a ∷ s) c t h = append-ne_self s c t (cc)

  -- The candidates are all different.
  candidate_injective : (i j : ℕ) → candidate base i ≡ candidate base j → i ≡ j
  candidate_injective zero zero h = refl
  candidate_injective zero (suc j) h = absurd (append-ne_self base b'.' (decimal j) (sym h))
  candidate_injective (suc i) zero h = absurd (append-ne_self base b'.' (decimal i) h)
  candidate_injective (suc i) (suc j) h = ap suc (
      decimal_injective i j
        (tail-eq_of_cons-eq (append_cancel_left base (b'.' ∷ decimal i) (b'.' ∷ decimal j) h)))

  pick_name-congr :
      (fuel : ℕ) (xs ys : List Text) (j : ℕ)
      → ((i : ℕ) → j ≤ i → member (candidate base i) xs ≡ member (candidate base i) ys)
      → pick_name fuel xs base (candidate base j) j ≡ pick_name fuel ys base (candidate base j) j
  unfolding pick_name
  pick_name-congr zero xs ys j h = refl
  pick_name-congr (suc fuel) xs ys j h =
      ground
        (arith, h j (omega arith), pick_name-congr fuel xs ys (suc j) (λ i le. h i (omega arith)))

  -- After a round the name that was taken plays no part.
  pick_name-skip :
      (fuel : ℕ) (names : List Text) (j : ℕ)
      → pick_name fuel names base (candidate base (suc j)) (suc j)
        ≡ pick_name fuel (remove (candidate base j) names) base (candidate base (suc j)) (suc j)
  pick_name-skip fuel names j =
      pick_name-congr fuel names (remove (candidate base j) names) (suc j) λ i le. sym (
        member-remove (candidate base i) (candidate base j) names
          λ e. absurd (omega (arith, candidate_injective i j e)))

  -- With more rounds than names the loop ends.
  pub pick_name-total :
      (fuel : ℕ) (names : List Text) (j : ℕ)
      → length names < fuel
      → (name : Text) × (pick_name fuel names base (candidate base j) j ≡ some name)
  unfolding pick_name
  pick_name-total zero names j h = elim h [ ]
  pick_name-total (suc fuel) names j h = elim (Bool-cases (member (candidate base j) names)) [
    | inr free ↦ (candidate base j, rw free)
    | inl taken ↦
        let names' = remove (candidate base j) names in
        let (name, found) =
          pick_name-total fuel names' (suc j)
            (omega (arith, length-remove-lt (candidate base j) names taken)) in
        (name, rw taken (pick_name-skip fuel names j ∙ found))
  ]
