-- ===== src/Accounts/Requests/Atomic.antt =====
-- A request that fails changes nothing.
use dae_wing.Base.{
  ℕ, ◌≡◌, inl, inr, Bool, Option, List, Text, length, Bool-cases, int32, Result, err, Error, arith,
}
use dae_wing.Accounts.{
  Crypto, Jwt, hex_encode, hash_password, is_weak, number_users, insert_user, create_user,
  write_password, renew_password, verified, update_password,
}
use dae_wing.Accounts.Profile.{
  Json, user_from_context, set_document, removed, set_json_storage, remove_json_storage,
  update_avatar, update_name, update_username, change_password,
}
use dae_wing.Store.Engine.{Engine}
use dae_wing.Store.Models.{User, Db}
use dae_wing.Store.Exec.{Exec, pure, lift, ◌>>=◌, users, update_by_id}
use dae_wing.Store.Frames.{
  IsAtomic, lift-bind-IsAtomic, bind-pure-IsAtomic, transaction-IsAtomic, update_by_id-IsAtomic,
}
use dae_wing.Accounts.Requests.{Request, Reply, reply, serve}

module _ ⦃E : Engine⦄ (H : Crypto) (J : Jwt) (S : Json) where
  row-IsAtomic :
      {A B : Type 0} (q : Result A) (id : A → ℕ) (f : A → User → User) (g : A → ℕ → B)
      → IsAtomic (lift q >>= λ a. update_by_id users (λ r. r.id) (id a) (f a) >>= λ n. pure (g a n))
  row-IsAtomic q id f g = lift-bind-IsAtomic q _ (λ a.
      bind-pure-IsAtomic (update_by_id users (λ r. r.id) (id a) (f a)) (g a)
        (update_by_id-IsAtomic users (λ r. r.id) (id a) (f a)))

  create_user-IsAtomic :
      (random : Result (List ℕ)) (now : ℕ) (name pw : Text)
      → IsAtomic (create_user H J random now name pw)
  unfolding create_user
  create_user-IsAtomic random now name pw = elim (Bool-cases (is_weak H pw)) [
    | inl weak ↦ λ s s' e h. ground (arith, weak)
    | inr strong ↦
        rw strong (transaction-IsAtomic (number_users >>= insert_user H J random now name pw))
  ]

  change_password-IsAtomic :
      (random : Result (List ℕ)) (now : ℕ) (context : Option User) (current new : Text)
      → IsAtomic (change_password H J random now context current new)
  unfolding change_password update_password renew_password
  change_password-IsAtomic random now context current new =
      lift-bind-IsAtomic (user_from_context context) _ (λ u.
        lift-bind-IsAtomic (verified H J Bool.false u current) _ (λ _.
          lift-bind-IsAtomic random _ (λ bytes.
            lift-bind-IsAtomic (hash_password H (hex_encode bytes) new) _ (λ hash.
              transaction-IsAtomic (write_password H J now u new (hex_encode bytes) hash)))))

  reply-IsAtomic : {A : Type 0} (f : A → Reply) (m : Exec A) → IsAtomic m → IsAtomic (reply f m)
  reply-IsAtomic f m h = bind-pure-IsAtomic m f h

  serve-IsAtomic : (context : Option User) (q : Request) → IsAtomic (serve H J S context q)
  unfolding serve set_json_storage remove_json_storage update_avatar update_name update_username
  serve-IsAtomic context (Request.create_user_request random now name pw) =
      reply-IsAtomic Reply.token (create_user H J random now name pw)
        (create_user-IsAtomic random now name pw)
  serve-IsAtomic context (Request.set_json_request paths values) =
      reply-IsAtomic Reply.count (set_json_storage S context paths values) (
        lift-bind-IsAtomic (user_from_context context) _ (λ u.
          row-IsAtomic (set_document S u.json_storage paths values) (λ _. u.id)
            (λ doc r. record r { json_storage = doc }) (λ _ _. int32 (length paths))))
  serve-IsAtomic context (Request.remove_json_request paths) =
      reply-IsAtomic Reply.count (remove_json_storage S context paths) (
        lift-bind-IsAtomic (user_from_context context) _ (λ u.
          row-IsAtomic (removed S u.json_storage paths) (λ _. u.id)
            (λ d r. record r { json_storage = d.0 }) (λ d _. d.1)))
  serve-IsAtomic context (Request.avatar_request avatar) =
      reply-IsAtomic Reply.count (update_avatar context avatar) (
        row-IsAtomic (user_from_context context) (λ u. u.id) (λ _ r. record r { avatar = avatar })
          (λ _ n. int32 n))
  serve-IsAtomic context (Request.name_request name) =
      reply-IsAtomic Reply.count (update_name context name) (
        row-IsAtomic (user_from_context context) (λ u. u.id) (λ _ r. record r { name = name })
          (λ _ n. int32 n))
  serve-IsAtomic context (Request.username_request name) =
      reply-IsAtomic Reply.count (update_username context name) (
        row-IsAtomic (user_from_context context) (λ u. u.id) (λ _ r. record r { username = name })
          (λ _ n. int32 n))
  serve-IsAtomic context (Request.password_request random now current new) =
      reply-IsAtomic Reply.token (change_password H J random now context current new)
        (change_password-IsAtomic random now context current new)

  -- A request of the account that is answered by an error, whichever the operation and the error,
  -- leaves the whole database as it was.
  pub serve-err :
      (context : Option User) (q : Request) (e : Error) (s s' : Db E)
      → serve H J S context q s ≡ (err e, s')
      → s' ≡ s
  serve-err context q e s s' h = serve-IsAtomic context q s s' e h
