-- ===== src/Accounts/Requests.antt =====
-- The mutations of the account as one type of requests, each of which the server runs on the
-- database with the user that the context carries.
pub mod Single
pub mod Atomic
use dae_wing.Base.{
  ℕ, zero, suc, ◌+◌, ◌^◌, ◌%◌, ◌≤◌, ◌<◌, ◌≡◌, refl, ap, sym, ◌∙◌, inl, inr, Bool, true, ◌&&◌,
  Option, List, [], ◌∷◌, ◌++◌, map, filter_by, Text, text_eq, length, ltb, ◌==◌, if◌then◌else◌,
  Bool-cases, int32, Result, ok, err, Error, Result-cases, arith,
}
use dae_wing.Base.Lists.{length-map, length-append}
use dae_wing.Accounts.{
  Crypto, Jwt, hex_encode, hash_password, is_weak, number_users, get_token, make_user, insert_user,
  create_user, new_user, with_password, write_password, renew_password, verified, update_password,
}
use dae_wing.Accounts.Profile.{
  Json, user_from_context, set_document, removed, set_json_storage, remove_json_storage,
  update_avatar, update_name, update_username, change_password,
}
use dae_wing.Store.Engine.{Engine}
use dae_wing.Store.Models.{User, Db}
use dae_wing.Store.Exec.{
  Exec, pure, fail, lift, ◌>>=◌, ◌>>◌, users, find, first, create, update_by_id, transaction,
}
use dae_wing.Store.Laws.{find-ok}
use dae_wing.Store.Frames.{
  bind-after, transaction-after, IsAtomic, IsPure, lift-bind-IsAtomic, bind-pure-IsAtomic,
  transaction-IsAtomic, update_by_id-IsAtomic, Keeps, bind-Keeps, lift-bind-Keeps,
  transaction-Keeps, pure-Keeps, update_by_id-Keeps, create-Keeps, if-Keeps,
}

-- the account mutations of MutationResolver, with their arguments
pub data Request : Type 0 where
  create_user_request : Result (List ℕ) → ℕ → Text → Text → Request
  set_json_request : List Text → List Text → Request
  remove_json_request : Option (List Text) → Request
  avatar_request name_request : Option Text → Request
  username_request : Text → Request
  password_request : Result (List ℕ) → ℕ → Text → Text → Request

pub data Reply : Type 0 where
  token : Text → Reply
  count : ℕ → Reply

module _ ⦃E : Engine⦄ where
  abbrev pub reply : {A : Type 0} → (A → Reply) → Exec A → Exec Reply
  reply f m = m >>= λ a. pure (f a)

  module _ (H : Crypto) (J : Jwt) (S : Json) where
    unfoldable pub serve : Option User → Request → Exec Reply
    serve context (Request.create_user_request random now username password) =
        reply Reply.token (create_user H J random now username password)
    serve context (Request.set_json_request paths values) =
        reply Reply.count (set_json_storage S context paths values)
    serve context (Request.remove_json_request paths) =
        reply Reply.count (remove_json_storage S context paths)
    serve context (Request.avatar_request avatar) = reply Reply.count (update_avatar context avatar)
    serve context (Request.name_request name) = reply Reply.count (update_name context name)
    serve context (Request.username_request name) = reply Reply.count (update_username context name)
    serve context (Request.password_request random now current new) =
        reply Reply.token (change_password H J random now context current new)

    unfoldable pub serve_all : List (Option User × Request) → Db E → Db E
    serve_all [] s = s
    serve_all ((context, q) ∷ qs) s = serve_all qs (serve context q s).1
