-- ===== src/Accounts/Profile.antt =====
-- What a user changes of the own row: graphql/mutation.go, from `SetJsonStorage` to
-- `UpdateUsername`, and the password; graphql/query.go, `JsonStorage`.
use dae_wing.Base.{
  ℕ, Option, none, some, List, [], ◌∷◌, Text, codes, map, length, ◌==◌, if◌then◌else◌, int32,
  Result, ok, err, Error, false,
}
use dae_wing.Accounts.{Crypto, Jwt, update_password}
use dae_wing.Store.Engine.{Engine}
use dae_wing.Store.Models.{User}
use dae_wing.Store.Exec.{Exec, pure, lift, ◌>>=◌, ◌>>◌, users, update_by_id}

-- sjson and gjson: a document, a path, and the value that is set there or read from there
pub record Json : Type 0 where
  pub set : Text → Text → Text → Result Text
  pub delete : Text → Text → Result Text
  pub get : Text → Text → Text

-- userFromContext; only the middleware writes the context, and it writes a user
unfoldable pub user_from_context : Option User → Result User
user_from_context none = err Error.no_user
user_from_context (some u) = ok u

module _ (J : Json) where
  -- the loops over the paths; each returns at the first error
  unfoldable pub set_paths : Text → List Text → List Text → Result Text
  set_paths doc (p ∷ ps) (v ∷ vs) = elim (J.set doc p v) [
    | err e ↦ err e
    | ok doc' ↦ set_paths doc' ps vs
  ]
  set_paths doc _ _ = ok doc

  unfoldable pub set_document : Text → List Text → List Text → Result Text
  set_document doc paths values =
      if length paths == length values then set_paths doc paths values else err Error.lengths_differ

  unfoldable pub delete_paths : Text → List Text → Result Text
  delete_paths doc [] = ok doc
  delete_paths doc (p ∷ ps) = elim (J.delete doc p) [
    | err e ↦ err e
    | ok doc' ↦ delete_paths doc' ps
  ]

  unfoldable pub removed : Text → Option (List Text) → Result (Text × ℕ)
  removed doc none = ok (codes "{}", 1)
  removed doc (some paths) = elim (delete_paths doc paths) [
    | err e ↦ err e
    | ok doc' ↦ ok (doc', int32 (length paths))
  ]

  -- JsonStorage
  unfoldable pub json_storage : Option User → Option (List Text) → Result (List Text)
  json_storage context paths = elim (user_from_context context) [
    | err e ↦ err e
    | ok u ↦ elim paths [
      | none ↦ ok (u.json_storage ∷ [])
      | some ps ↦ ok (map (J.get u.json_storage) ps)
    ]
  ]

module _ ⦃E : Engine⦄ where
  -- SetJsonStorage
  unfoldable pub set_json_storage : Json → Option User → List Text → List Text → Exec ℕ
  set_json_storage J context paths values = do
    u ← lift (user_from_context context)
    doc ← lift (set_document J u.json_storage paths values)
    update_by_id users (λ r. r.id) u.id (λ r. record r { json_storage = doc })
    pure (int32 (length paths))

  -- RemoveJsonStorage
  unfoldable pub remove_json_storage : Json → Option User → Option (List Text) → Exec ℕ
  remove_json_storage J context paths = do
    u ← lift (user_from_context context)
    (doc, n) ← lift (removed J u.json_storage paths)
    update_by_id users (λ r. r.id) u.id (λ r. record r { json_storage = doc })
    pure n

  -- UpdateAvatar, UpdateName and UpdateUsername
  unfoldable pub update_avatar : Option User → Option Text → Exec ℕ
  update_avatar context avatar = do
    u ← lift (user_from_context context)
    n ← update_by_id users (λ r. r.id) u.id (λ r. record r { avatar = avatar })
    pure (int32 n)

  unfoldable pub update_name : Option User → Option Text → Exec ℕ
  update_name context name = do
    u ← lift (user_from_context context)
    n ← update_by_id users (λ r. r.id) u.id (λ r. record r { name = name })
    pure (int32 n)

  unfoldable pub update_username : Option User → Text → Exec ℕ
  update_username context username = do
    u ← lift (user_from_context context)
    n ← update_by_id users (λ r. r.id) u.id (λ r. record r { username = username })
    pure (int32 n)

  -- UpdatePassword, the mutation
  unfoldable pub change_password :
      Crypto → Jwt → Result (List ℕ) → ℕ → Option User → Text → Text → Exec Text
  change_password H J random now context current new = do
    u ← lift (user_from_context context)
    update_password H J random now false u current new
