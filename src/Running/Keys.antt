-- ===== src/Running/Keys.antt =====
-- Rows picked by the identifiers of a selection are the selection, if identifiers are a key.
use dae_wing.Base.{
  ℕ, suc, ◌≡◌, refl, ap, Bool, false, not, ◌&&◌, none, some, List, [], ◌∷◌, map, length, elem,
  filter_by, All, ◌==◌, if◌then◌else◌, arith,
}
use dae_wing.Running.Groups.{hex, group_ids_text, version_sum}
use dae_wing.Services.Nodes.{sql_eq}
use dae_wing.Store.Models.{Group}

-- the primary key of a table of groups
abbrev pub Keys : List Group → Type 0
Keys [] = Unit
Keys (g ∷ gs) = All (λ r. (r.id == g.id) ≡ false) gs × Keys gs

abbrev pub ids_of : List Group → List ℕ
ids_of = map (λ g. g.id)

elem-absent :
    (k : ℕ) (p : Group → Bool) (gs : List Group)
    → All (λ r. (r.id == k) ≡ false) gs
    → elem k (ids_of (filter_by p gs)) ≡ false
elem-absent k p [] h = refl
elem-absent k p (g ∷ gs) (hg, h) = ground (arith, elem-absent k p gs h)

picked_tail :
    (g : Group) (p : Group → Bool) (all gs : List Group)
    → All (λ r. (r.id == g.id) ≡ false) gs
    → All (λ r. elem r.id (ids_of (filter_by p all)) ≡ p r) gs
    → All (λ r. elem r.id (ids_of (filter_by p (g ∷ all))) ≡ p r) gs
picked_tail g p all [] h k = tt
picked_tail g p all (r ∷ gs) (hr, h) (kr, k) = (ground arith, picked_tail g p all gs h k)

-- Under a key, a row is picked by identifier exactly if the test picks it.
pub picked :
    (p : Group → Bool) (gs : List Group)
    → Keys gs
    → All (λ r. elem r.id (ids_of (filter_by p gs)) ≡ p r) gs
picked p [] h = tt
picked p (g ∷ gs) (hg, h) =
    (ground (arith, elem-absent g.id p gs hg), picked_tail g p gs gs hg (picked p gs h))

-- what the two statements of `Replace` make of a row
abbrev pub joined : ℕ → List ℕ → Group → Group
joined sys ids g =
    let g' = if elem g.id ids then record g { system_id = some sys } else g in
    if not (elem g'.id ids) && sql_eq g'.system_id (some sys)
    then record g' { system_id = none }
    else g'

abbrev pub join_system : ℕ → Group → Group
join_system sys g = record g { system_id = some sys }

-- Afterwards the groups of the system are the picked ones.
pub filter_by-joined :
    (sys : ℕ) (ids : List ℕ) (p : Group → Bool) (gs : List Group)
    → All (λ r. elem r.id ids ≡ p r) gs
    → filter_by (λ g. sql_eq g.system_id (some sys)) (map (joined sys ids) gs)
      ≡ map (join_system sys) (filter_by p gs)
filter_by-joined sys ids p [] h = refl
filter_by-joined sys ids p (g ∷ gs) (hg, h) = ground (arith, filter_by-joined sys ids p gs h)

pub version_sum-join_system :
    (sys : ℕ) (gs : List Group) → version_sum (map (join_system sys) gs) ≡ version_sum gs
unfolding version_sum
version_sum-join_system sys [] = refl
version_sum-join_system sys (g ∷ gs) = ground (arith, version_sum-join_system sys gs)

map-hex :
    (sys : ℕ) (gs : List Group)
    → map (λ g. hex g.id) (map (join_system sys) gs) ≡ map (λ g. hex g.id) gs
map-hex sys [] = refl
map-hex sys (g ∷ gs) = ap (◌∷◌ (hex g.id)) (map-hex sys gs)

-- Joining a system changes neither the version sum nor the identifiers.
pub group_ids_text-join_system :
    (sys : ℕ) (gs : List Group) → group_ids_text (map (join_system sys) gs) ≡ group_ids_text gs
unfolding group_ids_text
group_ids_text-join_system sys gs = rw (map-hex sys gs)

pub length-join_system : (sys : ℕ) (gs : List Group) → length (map (join_system sys) gs) ≡ length gs
length-join_system sys [] = refl
length-join_system sys (g ∷ gs) = ap suc (length-join_system sys gs)
