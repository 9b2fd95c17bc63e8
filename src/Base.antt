-- ===== src/Base.antt =====
-- The names that the other modules share: the libraries', passed on, and those of the children.
pub mod Tests
pub mod Lists
pub mod Results
pub mod Texts
pub mod Decimal
pub use Tests.{ltb, leb, ◌==◌, if◌then◌else◌, int32, Bool-cases, ==-true, ==-refl, &&-true}
pub use Lists.{length, get_elem?, elem, all, any, filter_by, count_by, All}
pub use Results.{Result, ok, err, Error, ◌>>=◌, Result-cases}
unfoldable pub use Texts.{text_eq}
pub use Texts.{Text, codes, text_eq-true, text_eq_refl, member, member-append, lacks}
pub use Prim.Native.Nat.{ℕ, zero, suc, ◌+◌, ◌-◌, ◌*◌, ◌/◌, ◌%◌, ◌^◌, ◌≤◌, ◌<◌}
pub use mathlib.Core.Path.{◌≡◌, refl, sym, ap, ◌∙◌}
pub use mathlib.Core.Logic.{◌≢◌, ◌⊎◌, inl, inr}
pub use mathlib.Core.Bool.{Bool, true, false, not, ◌&&◌, ◌||◌}
pub use mathlib.Core.Option.{Option, none, some}
pub use mathlib.Core.List.{List, [], ◌∷◌, ◌++◌, map}
pub use native.Mathlib.Omega.{arith}
