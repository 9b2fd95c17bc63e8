-- ===== src/Services/Dnss.antt =====
-- graphql/service/dns/mutation_utils.go: `Create`, `Update`, `Remove`, `Select`, `Rename`.
use dae_wing.Base.{
  ℕ, ◌+◌, ◌++◌, true, false, none, some, Text, codes, ◌==◌, if◌then◌else◌, int32, Error,
}
use dae_wing.Cursor.{decode_cursor}
use dae_wing.Dae.{Dae, parse_config}
use dae_wing.Store.Engine.{Engine}
use dae_wing.Store.Models.{Dns}
use dae_wing.Store.Exec.{
  Exec, pure, fail, lift, ◌>>=◌, ◌>>◌, dnss, first, create, update, update_by_id, delete_by_id,
  transaction,
}

abbrev pub dns_section : Text → Text
dns_section text = codes "dns {\n" ++ (text ++ codes "\n}")

module _ ⦃E : Engine⦄ ⦃D : Dae⦄ where
  -- Create
  unfoldable pub create_dns : Text → Text → Exec (D.Dns × Dns)
  create_dns name text = do
    let dns_text = dns_section text
    c ← lift (parse_config none (some dns_text) none)
    m ←
        create dnss (λ r. r.id)
          (λ id. record { id = id; name = name; dns = dns_text; selected = false; version = 0 })
    pure (c.dns, m)

  -- Update
  unfoldable pub update_dns : Text → Text → Exec (D.Dns × Dns)
  update_dns cursor text = do
    id ← lift (decode_cursor cursor)
    transaction (do
      m ← first dnss (λ r. r.id == id)
      let dns_text = dns_section text
      c ← lift (parse_config none (some dns_text) none)
      update_by_id dnss (λ r. r.id) id (λ r. record r { dns = dns_text; version = r.version + 1 })
      pure (c.dns, record m { dns = dns_text }))

  -- Remove
  unfoldable pub remove_dns : Text → Exec ℕ
  remove_dns cursor = do
    id ← lift (decode_cursor cursor)
    n ← transaction (delete_by_id dnss (λ r. r.id) id)
    pure (int32 n)

  -- Select
  unfoldable pub select_dns : Text → Exec ℕ
  select_dns cursor = do
    id ← lift (decode_cursor cursor)
    transaction (do
      update dnss (λ r. r.selected) (λ r. record r { selected = false })
      n ← update_by_id dnss (λ r. r.id) id (λ r. record r { selected = true })
      if n == 0 then fail Error.no_such_config else pure 1)

  -- Rename
  unfoldable pub rename_dns : Text → Text → Exec ℕ
  rename_dns cursor name = do
    id ← lift (decode_cursor cursor)
    n ← update_by_id dnss (λ r. r.id) id (λ r. record r { name = name })
    pure (int32 n)
