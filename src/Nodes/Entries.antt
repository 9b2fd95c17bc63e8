-- ===== src/Nodes/Entries.antt =====
-- Lists of different names, and the map `nameToNodes` that numbers such a list.
use dae_wing.Base.{ℕ, suc, ◌+◌, ◌≡◌, refl, false, List, [], ◌∷◌, ◌++◌, Text, member, length, arith}
use dae_wing.Base.Texts.{text_eq-sym, member-append}
use dae_wing.Nodes.Names.{NameMap, keys, put, name_at}

-- No text stands twice in the list.
abbrev pub Distinct : List Text → Type 0
Distinct [] = Unit
Distinct (t ∷ ts) = (member t ts ≡ false) × Distinct ts

unfoldable pub enumerate : ℕ → List Text → NameMap
enumerate i [] = []
enumerate i (k ∷ ks) = (k, i) ∷ enumerate (suc i) ks

pub keys-enumerate : (i : ℕ) (ks : List Text) → keys (enumerate i ks) ≡ ks
unfolding enumerate
keys-enumerate i [] = refl
keys-enumerate i (k ∷ ks) = rw (keys-enumerate (suc i) ks)

pub put-enumerate :
    (k : Text) (i : ℕ) (ks : List Text)
    → member k ks ≡ false
    → put k (i + length ks) (enumerate i ks) ≡ enumerate i (ks ++ k ∷ [])
unfolding put enumerate
put-enumerate k i [] h = ground arith
put-enumerate k i (j ∷ ks) h = grind (arith, put-enumerate k (suc i) ks)

pub name_at-enumerate :
    (i : ℕ) (ks : List Text) (k : Text) (rest : List Text) (old : Text)
    → name_at (enumerate i (ks ++ k ∷ rest)) (i + length ks) old ≡ k
unfolding name_at enumerate
name_at-enumerate i [] k rest old = ground arith
name_at-enumerate i (j ∷ ks) k rest old = grind (arith, name_at-enumerate (suc i) ks k rest old)

pub Distinct-snoc :
    (ks : List Text) (k : Text) → Distinct ks → member k ks ≡ false → Distinct (ks ++ k ∷ [])
Distinct-snoc [] k d h = (refl, tt)
Distinct-snoc (j ∷ ks) k (dj, d) h = (
  ground (arith, member-append j ks (k ∷ []), text_eq-sym j k),
  Distinct-snoc ks k d (ground arith),
)

pub Distinct-middle :
    (ks : List Text) (k : Text) (rest : List Text) → Distinct (ks ++ k ∷ rest) → member k ks ≡ false
Distinct-middle [] k rest d = refl
Distinct-middle (j ∷ ks) k rest (dj, d) =
    ground (arith, member-append j ks (k ∷ rest), Distinct-middle ks k rest d, text_eq-sym j k)
