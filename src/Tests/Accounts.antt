-- ===== src/Tests/Accounts.antt =====
-- An account from its creation to a changed password, with a hash that hashes nothing and tokens
-- that carry their key.
use dae_wing.Base.{
  ℕ, zero, suc, ◌<◌, ◌≤◌, ◌≡◌, refl, ap, ◌∙◌, Bool, true, false, ◌&&◌, Option, none, some, List, [],
  ◌∷◌, ◌++◌, Text, codes, text_eq, text_eq_refl, length, ltb, leb, ◌==◌, Result, ok, err, Error,
  arith,
}
use dae_wing.Cursor.{trim_prefix, cut_prefix}
use dae_wing.Accounts.{
  Crypto, Claims, RoleClaim, Unverified, Jwt, utf8, hex_encode, hash_password, is_weak,
  number_users, token_of, get_token, make_user, insert_user, create_user, write_password,
  renew_password, update_password,
}
use dae_wing.Accounts.Auth.{Passed, key_owner, authenticate, auth}
use dae_wing.Accounts.Login.{create_user-auth, update_password-auth}
use dae_wing.Accounts.Profile.{Json, user_from_context, update_name}
use dae_wing.Accounts.Requests.{Request, serve, serve_all}
use dae_wing.Accounts.Requests.Single.{serve_all-IsSingle}
use dae_wing.Accounts.Trust.{IsVouched, auth-IsVouched}
use dae_wing.Store.Models.{User, Db}
use dae_wing.Store.Memory.{memory, read_only}
use dae_wing.Tests.Data.{database, guarded}

abbrev pub crypto : Crypto
crypto = record {
  shake256 = λ bytes. ok bytes;
  is_letter = λ c. leb b'a' c && leb c b'z';
  is_number = λ c. leb b'0' c && leb c b'9';
}

abbrev pub take : ℕ → Text → Text
take zero s = []
take (suc n) [] = []
take (suc n) (c ∷ s) = c ∷ take n s

abbrev pub drop : ℕ → Text → Text
drop zero s = s
drop (suc n) [] = []
drop (suc n) (c ∷ s) = drop n s

take-append : (s t : Text) → take (length s) (s ++ t) ≡ s
take-append [] t = refl
take-append (c ∷ s) t = ap (λ l. c ∷ l) (take-append s t)

drop-append : (s t : Text) → drop (length s) (s ++ t) ≡ t
drop-append [] t = refl
drop-append (c ∷ s) t = drop-append s t

-- the expiry, the lengths of the key and of the subject, and the key, the subject and the role
abbrev pub signed_token : Claims → Text → Text
signed_token c key = c.expires ∷ length key ∷ length c.subject ∷ (key ++ (c.subject ++ c.role))

abbrev pub claims_of : Text → Result Unverified
claims_of (e ∷ k ∷ n ∷ rest) = ok (record {
  hmac = true;
  role = RoleClaim.text (drop n (drop k rest));
  subject = ok (take n (drop k rest));
  expires = ok (some e);
})
claims_of _ = err (Error.token 0)

abbrev pub accepted : ℕ → Text → Text → Bool
accepted now (e ∷ k ∷ n ∷ rest) key = ltb now e && text_eq (take k rest) key
accepted now _ key = false

pub claims_of-signed :
    (c : Claims) (key t : Text)
    → Result.ok (signed_token c key) ≡ ok t
    → claims_of t
      ≡ ok (record {
        hmac = true;
        role = RoleClaim.text c.role;
        subject = ok c.subject;
        expires = ok (some c.expires);
      })
claims_of-signed c key t h =
    let same : t ≡ signed_token c key = ground arith in simp (same, drop-append, take-append)

pub accepted-signed :
    (c : Claims) (key t : Text) (now : ℕ)
    → Result.ok (signed_token c key) ≡ ok t
    → now < c.expires
    → accepted now t key ≡ true
accepted-signed c key t now h in_time =
    let same : t ≡ signed_token c key = ground arith in
    let key_same : text_eq (take (length key) (key ++ (c.subject ++ c.role))) key ≡ true =
      ap (λ k. text_eq k key) (take-append key (c.subject ++ c.role)) ∙ text_eq_refl key in
    ground (arith, same, key_same)

abbrev pub jwt : Jwt
jwt = record {
  sign = λ c key. ok (signed_token c key);
  read = claims_of;
  accepts = accepted;
  read-sign = claims_of-signed;
  accepts-sign = accepted-signed;
}

abbrev pub me : Text
me = codes "me"

abbrev pub password : Text
password = codes "abc123"

abbrev pub made : User
made = record {
  id = 1;
  username = me;
  password_hash = codes "3031616263313233";
  jwt_secret = codes "01";
  json_storage = codes "{}";
  avatar = none;
  name = none;
}

abbrev pub with_me : Db memory
with_me = record database { users = made ∷ [] }

abbrev pub issued : User → Text
issued u =
    signed_token (record { role = codes "admin"; subject = me; expires = 2592100 }) u.jwt_secret

creates :
    create_user ⦃E = memory⦄ crypto jwt (ok (1 ∷ [])) 100 me password database
    ≡ (ok (issued made), with_me)
unfolding create_user insert_user make_user get_token token_of number_users is_weak hash_password
    hex_encode utf8 text_eq
creates = refl

create_user-auth_example :
    (m : User) × (auth ⦃E = memory⦄ jwt 200 (codes "Bearer " ++ issued made) with_me
      ≡ Passed.next (some (RoleClaim.text (codes "admin"), m)))
    × (m.username ≡ me)
create_user-auth_example =
    create_user-auth ⦃E = memory⦄ crypto jwt (ok (1 ∷ [])) 100 200 me password (issued made)
      database with_me creates (omega arith)

logs_in : get_token ⦃E = memory⦄ crypto jwt 100 me password with_me ≡ (ok (issued made), with_me)
unfolding get_token token_of hash_password hex_encode utf8 text_eq
logs_in = refl

abbrev renewed : User
renewed = record made { password_hash = codes "303278797a393837"; jwt_secret = codes "02" }

changes :
    update_password ⦃E = memory⦄ crypto jwt
      (ok (2 ∷ []))
      100
      false
      made
      password
      (codes "xyz987")
      with_me
    ≡ (ok (issued renewed), record database { users = renewed ∷ [] })
unfolding update_password renew_password write_password get_token token_of hash_password hex_encode
    utf8 text_eq
changes = refl

update_password-auth_example :
    ((m : User) × (auth ⦃E = memory⦄ jwt 200
          (codes "Bearer " ++ issued renewed)
          (record database { users = renewed ∷ [] })
        ≡ Passed.next (some (RoleClaim.text (codes "admin"), m)))
      × (m.username ≡ me))
    × (((1 == 1) ≡ true → codes "02" ≡ codes "02") × Unit {0})
unfolding hex_encode
update_password-auth_example =
    update_password-auth ⦃E = memory⦄ crypto jwt 100 200 2 [] false made password (codes "xyz987")
      (issued renewed) with_me (record database { users = renewed ∷ [] }) changes (omega arith)

passes :
    auth ⦃E = memory⦄ jwt 200 (codes "Bearer " ++ issued made) with_me
    ≡ Passed.next (some (RoleClaim.text (codes "admin"), made))
unfolding auth authenticate key_owner trim_prefix cut_prefix text_eq
passes = refl

auth-IsVouched_example :
    IsVouched ⦃E = memory⦄ jwt 200
      (trim_prefix (codes "Bearer ") (codes "Bearer " ++ issued made))
      (RoleClaim.text (codes "admin"))
      made
      with_me
auth-IsVouched_example =
    auth-IsVouched ⦃E = memory⦄ jwt 200 (codes "Bearer " ++ issued made)
      (RoleClaim.text (codes "admin")) made with_me passes

abbrev pub json : Json
json = record {
  set = λ doc path value. ok (path ++ value);
  delete = λ doc path. ok doc;
  get = λ doc path. doc;
}

-- two attempts to make a user, and then a new password
abbrev requests : List (Option User × Request)
requests =
    (none, Request.create_user_request (ok (1 ∷ [])) 100 me password)
    ∷ (none, Request.create_user_request (ok (3 ∷ [])) 101 (codes "you") password)
    ∷ (some made, Request.password_request (ok (2 ∷ [])) 102 password (codes "xyz987"))
    ∷ []

serve_all-IsSingle_example :
    length (memory.rows (serve_all ⦃E = memory⦄ crypto jwt json requests database).users) ≤ 1
serve_all-IsSingle_example =
    serve_all-IsSingle ⦃E = memory⦄ crypto jwt json requests database (omega arith)

is_refused :
    serve ⦃E = read_only⦄ crypto jwt json (some made) (Request.name_request none) guarded
    ≡ (err (Error.sql 8), guarded)
unfolding serve update_name user_from_context
is_refused = refl
