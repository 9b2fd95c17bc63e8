-- ===== src/Services/Groups/Renamed.antt =====
-- What `Rename` of the groups may answer, and what it leaves of the groups.
use mathlib.Core.Path.{subst}
use dae_wing.Base.{
  ℕ, ◌≡◌, ◌⊎◌, refl, ap, sym, ◌∙◌, inl, inr, Bool, true, false, ◌||◌, List, map, Text, count_by,
  ◌==◌, if◌then◌else◌, int32, Bool-cases, Result, ok, err, Error, Result-cases, arith,
}
use dae_wing.Cursor.{decode_cursor}
use dae_wing.Cursor.Validator.{validate_id}
use dae_wing.Services.Groups.{auto_update_version_by_id, rename_group, after_rename}
use dae_wing.Services.Groups.Laws.{raised, auto_update_version_by_id-ok}
use dae_wing.Store.Engine.{Engine}
use dae_wing.Store.Laws.{first-pure, update_by_id-ok, update_by_id-err}
use dae_wing.Store.Models.{Group, Db}
use dae_wing.Store.Exec.{groups, first, update_by_id}

-- the rows with the new name, and with the new version where the name has changed
abbrev pub renamed : ℕ → Text → List Group → List Group
renamed id name = map (λ r. if r.id == id then record r { name = name } else r)

abbrev pub raised_if : Bool → ℕ → List Group → List Group
raised_if true id rows = raised id rows
raised_if false id rows = rows

module _ ⦃E : Engine⦄ (changed : Group → Text → Bool) (cursor name : Text) (s : Db E) where
  -- the row that `First` reads, and the UPDATE of its name
  abbrev found : ℕ → Result Group × Db E
  found id = first groups (λ r. id == 0 || r.id == id) s

  abbrev written : Group → Result ℕ × Db E
  written g = update_by_id groups (λ r. r.id) g.id (λ r. record r { name = name }) s

  -- The answer is a number of rows: the row is renamed, or the UPDATE has failed, nothing is changed
  -- and the number is 0. Or it is an error, of the name, of the cursor, of the SELECT, or of the
  -- new version behind an UPDATE that did not fail, and nothing is changed.
  abbrev pub IsRenamed : Result ℕ × Db E → Type 0
  IsRenamed (ok n, s') =
      (id : ℕ) × (g : Group) × (decode_cursor cursor ≡ ok id)
      × (found id ≡ (ok g, s))
      × (((E.rows s'.groups ≡ raised_if (changed g name) g.id (renamed g.id name (E.rows s.groups)))
            × (n ≡ int32 (count_by (λ r. r.id == g.id) (E.rows s.groups))))
          ⊎ ((n ≡ 0) × (s' ≡ s) × (e : Error) × (written g ≡ (err e, s))))
  IsRenamed (err e, s') =
      (s' ≡ s)
      × ((validate_id name ≡ err e)
          ⊎ ((decode_cursor cursor ≡ err e)
              ⊎ (((id : ℕ) × (found id ≡ (err e, s)))
                  ⊎ ((g : Group) × (n : ℕ) × (s1 : Db E) × (written g ≡ (ok n, s1))
                      × ((auto_update_version_by_id g.id s1).0 ≡ err e)))))

  answered :
      (q : Result ℕ) (s' : Db E)
      → rename_group changed cursor name s ≡ (q, s')
      → IsRenamed (q, s')
      → IsRenamed (rename_group changed cursor name s)
  answered q s' h = subst IsRenamed (sym h)

  -- behind an UPDATE that did not fail
  written-IsRenamed :
      (id : ℕ) (g : Group) (n : ℕ) (s1 : Db E)
      → validate_id name ≡ ok tt
      → decode_cursor cursor ≡ ok id
      → found id ≡ (ok g, s)
      → written g ≡ (ok n, s1)
      → IsRenamed (rename_group changed cursor name s)
  unfolding rename_group after_rename
  written-IsRenamed id g n s1 valid decoded at wrote =
      let (t, put, rows, count) =
        update_by_id-ok groups (λ r. r.id) g.id (λ r. record r { name = name }) s s1 n wrote in
      let names : E.rows s1.groups ≡ renamed g.id name (E.rows s.groups) =
        ap (λ (x : Db E). E.rows x.groups) put ∙ rows in
      elim (Bool-cases (changed g name)) [
        | inr same ↦ answered (ok (int32 n)) s1 (ground (arith, valid, decoded, at, wrote, same)) (
          id,
          g,
          decoded,
          at,
          inl (
            names ∙ ap (λ b. raised_if b g.id (renamed g.id name (E.rows s.groups))) (sym same),
            ap int32 count,
          ),
        )
        | inl other ↦
            let q = auto_update_version_by_id g.id s1 in
            elim (Result-cases q.0) [
              | inr (e, failed) ↦
                  answered (err e) s (ground (arith, valid, decoded, at, wrote, other, failed))
                    (refl, inr (inr (inr (g, n, s1, wrote, failed))))
              | inl (k, bumped) ↦
                  let ran : q ≡ (ok k, q.1) = ap (λ r. (r, q.1)) bumped in
                  let (raises, _) = auto_update_version_by_id-ok g.id k s1 q.1 ran in
                  answered (ok (int32 n)) q.1
                    (ground (arith, valid, decoded, at, wrote, other, bumped))
                    (
                      id,
                      g,
                      decoded,
                      at,
                      inl (
                        raises
                            ∙ ap (raised g.id) names
                            ∙ ap (λ b. raised_if b g.id (renamed g.id name (E.rows s.groups)))
                                (sym other),
                        ap int32 count,
                      ),
                    )
            ]
      ]

  -- For every name and cursor, `Rename` that answers a number of rows has renamed the group (and
  -- raised its version, where gorm finds the name changed) and tells how many rows that were; or its
  -- UPDATE has failed, and it tells 0 rows, with nothing changed. So a failed UPDATE is reported as
  -- a success: an error is one of the name, of the cursor, of the SELECT, or of the new version after
  -- an UPDATE that succeeded, and leaves the database as it was.
  pub rename_group-IsRenamed : IsRenamed (rename_group changed cursor name s)
  unfolding rename_group after_rename
  rename_group-IsRenamed = elim (Result-cases (validate_id name)) [
    | inr (e, bad) ↦ answered (err e) s (ground (arith, bad)) (refl, inl bad)
    | inl (u, valid) ↦ elim (Result-cases (decode_cursor cursor)) [
      | inr (e, bad) ↦ answered (err e) s (ground (arith, valid, bad)) (refl, inr (inl bad))
      | inl (id, decoded) ↦ elim (Result-cases (found id).0) [
        | inr (e, missing) ↦
            let at = first-pure groups (λ r. id == 0 || r.id == id) s (err e) missing in
            answered (err e) s (ground (arith, valid, decoded, at)) (refl, inr (inr (inl (id, at))))
        | inl (g, there) ↦
            let at = first-pure groups (λ r. id == 0 || r.id == id) s (ok g) there in
            elim (Result-cases (written g).0) [
              | inr (e, failed) ↦
                  let wrote =
                    update_by_id-err groups (λ r. r.id) g.id (λ r. record r { name = name }) s e
                      failed in
                  answered (ok 0) s (ground (arith, valid, decoded, at, wrote))
                    (id, g, decoded, at, inr (refl, refl, e, wrote))
              | inl (n, went) ↦
                  written-IsRenamed id g n (written g).1 valid decoded at
                    (ap (λ r. (r, (written g).1)) went)
            ]
      ]
    ]
  ]
