-- ===== src/Base/Results.antt =====
-- Go's `(value, error)` results: an error is returned alone.
use mathlib.Core.Logic.{◌⊎◌, inl, inr}
use mathlib.Core.Path.{◌≡◌, refl}
use Prim.Native.Nat.{ℕ}
use dae_wing.Base.Texts.{Text}

-- `sql` is whatever the database reports besides a missing record and
-- an UPDATE or DELETE with no condition (`missing_where`); `parse` is the error of dae's
-- configuration parser, `link` the one of its dialer, `fetch` the one of a download;
-- `random`, `json` and `token` are those of the random source, of sjson and of the JWT library;
-- `out_of_fuel` is the model's own, and is never met;
-- `both` joins the errors of two attempts.
pub data Error : Type 0 where
  bad_cursor invalid_tag invalid_id bad_link not_found no_such_config no_such_node : Error
  missing_where : Error
  duplicated no_candidate bad_cron bad_regex busy not_running reload_failed : Error
  no_selected_config no_selected_dns no_selected_routing fixed_with_many_nodes : Error
  out_of_fuel : Error
  weak_password user_exists bad_login incorrect_password no_user lengths_differ : Error
  access_denied role_required : Error
  groups_not_defined no_mapstructure unknown_type : Text → Error
  empty_group : Text → Error
  both : Error → Error → Error
  sql parse link fetch control random json token : ℕ → Error

pub data Result {ℓ} (A : Type ℓ) : Type ℓ where
  ok : A → Result A
  err : Error → Result A

infixl 5 ◌>>=◌
abbrev pub ◌>>=◌ {ℓ κ} : {A : Type ℓ} {B : Type κ} → Result A → (A → Result B) → Result B
ok a >>= f = f a
err e >>= f = err e

pub Result-cases {ℓ} :
    {A : Type ℓ} (r : Result A) → ((a : A) × (r ≡ ok a)) ⊎ ((e : Error) × (r ≡ err e))
Result-cases (ok a) = inl (a, refl)
Result-cases (err e) = inr (e, refl)
