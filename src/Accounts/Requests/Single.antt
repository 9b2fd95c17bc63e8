-- ===== src/Accounts/Requests/Single.antt =====
-- There is never more than one user.
use dae_wing.Base.{
  ℕ, ◌^◌, ◌≤◌, ◌≡◌, refl, ap, sym, ◌∙◌, inl, inr, Bool, true, ◌&&◌, Option, List, [], ◌∷◌, map,
  filter_by, Text, text_eq, length, ltb, ◌==◌, if◌then◌else◌, Bool-cases, int32, Result, ok,
  Result-cases, arith,
}
use dae_wing.Base.Lists.{length-map, length-append}
use dae_wing.Accounts.{
  Crypto, Jwt, hex_encode, hash_password, is_weak, number_users, get_token, make_user, insert_user,
  create_user, new_user, with_password, write_password, renew_password, verified, update_password,
}
use dae_wing.Accounts.Profile.{
  Json, user_from_context, set_document, removed, set_json_storage, remove_json_storage,
  update_avatar, update_name, update_username, change_password,
}
use dae_wing.Store.Engine.{Engine}
use dae_wing.Store.Models.{User, Db}
use dae_wing.Store.Exec.{Exec, pure, lift, ◌>>=◌, users, first, create, update_by_id}
use dae_wing.Store.Frames.{
  bind-after, transaction-after, IsPure, Keeps, bind-Keeps, lift-bind-Keeps, transaction-Keeps,
  pure-Keeps, update_by_id-Keeps,
}
use dae_wing.Accounts.Requests.{Request, Reply, reply, serve, serve_all}

filter_by-true : (rs : List User) → filter_by (λ r. true) rs ≡ rs
filter_by-true [] = refl
filter_by-true (r ∷ rs) = ap (λ l. r ∷ l) (filter_by-true rs)

module _ ⦃E : Engine⦄ (H : Crypto) (J : Jwt) (S : Json) where
  abbrev pub IsSingle : Db E → Type 0
  IsSingle s = length (E.rows s.users) ≤ 1

  -- an UPDATE keeps the number of users
  same-IsSingle :
      (p : User → Bool) (f : User → User) (s : Db E) (t : E.Table User)
      → E.rows t ≡ map (λ r. if p r then f r else r) (E.rows s.users)
      → IsSingle s
      → length (E.rows t) ≤ 1
  same-IsSingle p f s t e h =
      let same : length (E.rows t) ≡ length (E.rows s.users) =
        ap length e ∙ length-map (λ r. if p r then f r else r) (E.rows s.users) in
      omega (arith, same, h)

  update-IsSingle :
      (id : ℕ) (f : User → User) → Keeps IsSingle (update_by_id users (λ r. r.id) id f)
  update-IsSingle id f =
      update_by_id-Keeps IsSingle users (λ r. r.id) id f (same-IsSingle (λ r. r.id == id) f)

  pub get_token-IsPure : (now : ℕ) (name pw : Text) → IsPure (get_token H J now name pw)
  unfolding get_token
  get_token-IsPure now name pw s =
      elim (Result-cases (first users (λ r. text_eq r.username name) s).0) [
        | inl (m, e) ↦ rw e refl
        | inr (x, e) ↦ rw e refl
      ]

  token-IsSingle : (now : ℕ) (name pw : Text) → Keeps IsSingle (get_token H J now name pw)
  token-IsSingle now name pw =
      pure-Keeps IsSingle (get_token H J now name pw) (get_token-IsPure now name pw)

  write_password-IsSingle :
      (now : ℕ) (u : User) (new secret hash : Text)
      → Keeps IsSingle (write_password H J now u new secret hash)
  unfolding write_password
  write_password-IsSingle now u new secret hash =
      bind-Keeps IsSingle (update_by_id users (λ r. r.id) u.id (with_password H J hash secret))
        (λ _. get_token H J now u.username new)
        (update-IsSingle u.id (with_password H J hash secret))
        (λ _. token-IsSingle now u.username new)

  change_password-IsSingle :
      (random : Result (List ℕ)) (now : ℕ) (context : Option User) (current new : Text)
      → Keeps IsSingle (change_password H J random now context current new)
  unfolding change_password update_password renew_password
  change_password-IsSingle random now context current new =
      lift-bind-Keeps IsSingle (user_from_context context) _ (λ u.
        lift-bind-Keeps IsSingle (verified H J Bool.false u current) _ (λ _.
          lift-bind-Keeps IsSingle random _ (λ bytes.
            lift-bind-Keeps IsSingle (hash_password H (hex_encode bytes) new) _ (λ hash.
              transaction-Keeps IsSingle _
                (write_password-IsSingle now u new (hex_encode bytes) hash)))))

  -- without a user, the new one is the only one
  insert-IsSingle :
      (mk : ℕ → User) (s : Db E)
      → length (E.rows s.users) ≡ 0
      → IsSingle (create users (λ r. r.id) mk s).1
  insert-IsSingle mk s none_yet = elim (Result-cases (E.insert (λ r. r.id) s.users mk)) [
    | inr (e, failed) ↦ rw failed (omega (arith, none_yet))
    | inl ((t, r), e) ↦
        let (_, _, rows, _) = E.insert-rows (λ r. r.id) s.users mk t r e in
        rw e (omega (arith, none_yet, ap length rows ∙ length-append (E.rows s.users) (r ∷ [])))
  ]

  make_user-IsSingle :
      (now : ℕ) (name pw : Text) (bytes : List ℕ) (s : Db E)
      → length (E.rows s.users) ≡ 0
      → IsSingle (make_user H J now name pw bytes s).1
  unfolding make_user
  make_user-IsSingle now name pw bytes s none_yet =
      bind-after IsSingle (lift (hash_password H (hex_encode bytes) pw)) _ s
        (omega (arith, none_yet))
        (λ hash _.
          let mk = new_user H J name hash (hex_encode bytes) in
          let made = insert-IsSingle mk s none_yet in
          bind-after IsSingle (create users (λ r. r.id) mk) (λ _. get_token H J now name pw) s made
            (λ u _. token-IsSingle now name pw _ made))

  pub number_users-IsPure : IsPure number_users
  unfolding number_users
  number_users-IsPure s = elim (Result-cases (E.find s.users (λ r. true))) [
    | inr (e, failed) ↦ ground (arith, failed)
    | inl (all, e) ↦ ground (arith, e)
  ]

  pub number_users-ok :
      (s : Db E) (n : ℕ) → (number_users s).0 ≡ ok n → n ≡ int32 (length (E.rows s.users))
  unfolding number_users
  number_users-ok s n h = elim (Result-cases (E.find s.users (λ r. true))) [
    | inr (e, failed) ↦ absurd (ground (arith, failed))
    | inl (all, e) ↦
        let same = E.find-rows s.users (λ r. true) all e ∙ filter_by-true (E.rows s.users) in
        ground (arith, ap length same, e)
  ]

  -- CreateUser behind the check of the password
  insert_user-IsSingle :
      (random : Result (List ℕ)) (now : ℕ) (name pw : Text) (n : ℕ) (s : Db E)
      → n ≡ int32 (length (E.rows s.users))
      → IsSingle s
      → IsSingle (insert_user H J random now name pw n s).1
  unfolding insert_user
  insert_user-IsSingle random now name pw n s counted h =
      elim (Bool-cases (ltb 0 n && ltb n (2 ^ 31))) [
        | inl some_user ↦ rw some_user h
        | inr no_user ↦
            let empty : length (E.rows s.users) ≡ 0 = ground (arith, counted, h, no_user) in
            rw no_user (
              bind-after IsSingle (lift random) (make_user H J now name pw) s h
                (λ bytes _. make_user-IsSingle now name pw bytes s empty))
      ]

  create_user-IsSingle :
      (random : Result (List ℕ)) (now : ℕ) (name pw : Text)
      → Keeps IsSingle (create_user H J random now name pw)
  unfolding create_user insert_user
  create_user-IsSingle random now name pw s h =
      let whole : Exec Text = number_users >>= insert_user H J random now name pw in
      let after : IsSingle (whole s).1 =
        bind-after IsSingle number_users (insert_user H J random now name pw) s
          (pure-Keeps IsSingle number_users number_users-IsPure s h)
          (λ n got.
            insert_user-IsSingle random now name pw n (number_users s).1
              (number_users-ok s n got
                ∙ ap (λ x. int32 (length (E.rows x.users))) (sym (number_users-IsPure s)))
              (pure-Keeps IsSingle number_users number_users-IsPure s h)) in
      elim (Bool-cases (is_weak H pw)) [
        | inl weak ↦ rw weak h
        | inr strong ↦ rw strong (transaction-after IsSingle whole s h after)
      ]

  reply-IsSingle :
      {A : Type 0} (f : A → Reply) (m : Exec A) → Keeps IsSingle m → Keeps IsSingle (reply f m)
  reply-IsSingle f m hm = bind-Keeps IsSingle m (λ a. pure (f a)) hm (λ a s h. h)

  -- the mutations that update one row
  row-IsSingle :
      {A B : Type 0} (q : Result A) (id : A → ℕ) (f : A → User → User) (g : A → ℕ → B)
      → Keeps IsSingle
          (lift q >>= λ a. update_by_id users (λ r. r.id) (id a) (f a) >>= λ n. pure (g a n))
  row-IsSingle q id f g = lift-bind-Keeps IsSingle q _ (λ a.
      bind-Keeps IsSingle (update_by_id users (λ r. r.id) (id a) (f a)) (λ n. pure (g a n))
        (update-IsSingle (id a) (f a)) (λ n s h. h))

  serve-IsSingle : (context : Option User) (q : Request) → Keeps IsSingle (serve H J S context q)
  unfolding serve set_json_storage remove_json_storage update_avatar update_name update_username
  serve-IsSingle context (Request.create_user_request random now name pw) =
      reply-IsSingle Reply.token (create_user H J random now name pw)
        (create_user-IsSingle random now name pw)
  serve-IsSingle context (Request.set_json_request paths values) =
      reply-IsSingle Reply.count (set_json_storage S context paths values) (
        lift-bind-Keeps IsSingle (user_from_context context) _ (λ u.
          row-IsSingle (set_document S u.json_storage paths values) (λ _. u.id)
            (λ doc r. record r { json_storage = doc }) (λ _ _. int32 (length paths))))
  serve-IsSingle context (Request.remove_json_request paths) =
      reply-IsSingle Reply.count (remove_json_storage S context paths) (
        lift-bind-Keeps IsSingle (user_from_context context) _ (λ u.
          row-IsSingle (removed S u.json_storage paths) (λ _. u.id)
            (λ d r. record r { json_storage = d.0 }) (λ d _. d.1)))
  serve-IsSingle context (Request.avatar_request avatar) =
      reply-IsSingle Reply.count (update_avatar context avatar) (
        row-IsSingle (user_from_context context) (λ u. u.id) (λ _ r. record r { avatar = avatar })
          (λ _ n. int32 n))
  serve-IsSingle context (Request.name_request name) =
      reply-IsSingle Reply.count (update_name context name) (
        row-IsSingle (user_from_context context) (λ u. u.id) (λ _ r. record r { name = name })
          (λ _ n. int32 n))
  serve-IsSingle context (Request.username_request name) =
      reply-IsSingle Reply.count (update_username context name) (
        row-IsSingle (user_from_context context) (λ u. u.id) (λ _ r. record r { username = name })
          (λ _ n. int32 n))
  serve-IsSingle context (Request.password_request random now current new) =
      reply-IsSingle Reply.token (change_password H J random now context current new)
        (change_password-IsSingle random now context current new)

  -- A database with one user at most has one at most after any requests, by whoever and in
  -- whatever order, the failing ones included.
  pub serve_all-IsSingle :
      (qs : List (Option User × Request)) (s : Db E)
      → length (E.rows s.users) ≤ 1
      → length (E.rows (serve_all H J S qs s).users) ≤ 1
  unfolding serve_all
  serve_all-IsSingle [] s h = h
  serve_all-IsSingle ((context, q) ∷ qs) s h =
      serve_all-IsSingle qs (serve H J S context q s).1 (serve-IsSingle context q s h)
