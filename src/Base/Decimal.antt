-- ===== src/Base/Decimal.antt =====
-- `fmt.Sprintf("%v", n)` of an unsigned number: its decimal digits.
use Prim.Native.Nat.{ℕ, zero, suc, ◌+◌, ◌-◌, ◌*◌, ◌/◌, ◌%◌, ◌<◌}
use mathlib.Core.List.{[], ◌∷◌}
use mathlib.Core.Path.{◌≡◌, refl, sym, ap, ◌∙◌}
use native.Mathlib.Omega.{arith}
use mathlib.Core.Logic.{inl, inr}
use dae_wing.Base.Tests.{◌==◌, if◌then◌else◌, Bool-cases}
use dae_wing.Base.Lists.{All}
use dae_wing.Base.Texts.{Text, codes}

-- The fuel is above the number that is left, which each round divides by ten.
digits : ℕ → ℕ → Text → Text
digits zero n out = out
digits (suc fuel) n out =
    let d = b'0' + n % 10 in
    let rest = digits fuel (n / 10) (d ∷ out) in if n / 10 == 0 then d ∷ out else rest

unfoldable pub decimal : ℕ → Text
unfolding digits
decimal n = digits (suc n) n []

-- the number that digits spell behind `n`
abbrev pub value : ℕ → Text → ℕ
value n [] = n
value n (c ∷ s) = value (n * 10 + (c - b'0')) s

value-digits : (fuel n : ℕ) (out : Text) → n < fuel → value 0 (digits fuel n out) ≡ value n out
unfolding digits
value-digits zero n out h = elim h [ ]
value-digits (suc fuel) n out h = grind (arith, value-digits fuel (n / 10) ((b'0' + n % 10) ∷ out))

-- The digits of a number spell that number.
pub value-decimal : (n : ℕ) → value 0 (decimal n) ≡ n
unfolding decimal
value-decimal n = value-digits (suc n) n [] (omega arith)

-- Different numbers are printed differently.
pub decimal_injective : (m n : ℕ) → decimal m ≡ decimal n → m ≡ n
decimal_injective m n h = sym (value-decimal m) ∙ ap (value 0) h ∙ value-decimal n

digits-All :
    (P : ℕ → Type 0) (fuel n : ℕ) (out : Text)
    → ((d : ℕ) → d < 10 → P (b'0' + d))
    → All P out
    → All P (digits fuel n out)
unfolding digits
digits-All P zero n out h k = k
digits-All P (suc fuel) n out h k =
    let here : All P ((b'0' + n % 10) ∷ out) = (h (n % 10) (omega arith), k) in
    ground (arith, here, digits-All P fuel (n / 10) ((b'0' + n % 10) ∷ out) h here)

-- What holds of the ten digits holds of every character of a printed number.
pub decimal-All : (P : ℕ → Type 0) (n : ℕ) → ((d : ℕ) → d < 10 → P (b'0' + d)) → All P (decimal n)
unfolding decimal
decimal-All P n h = digits-All P (suc n) n [] h tt

digits-ne-nil :
    (fuel n : ℕ) (c : ℕ) (out : Text) → (d : ℕ) × (s : Text) × (digits fuel n (c ∷ out) ≡ d ∷ s)
unfolding digits
digits-ne-nil zero n c out = (c, out, refl)
digits-ne-nil (suc fuel) n c out = elim (Bool-cases (n / 10 == 0)) [
  | inl done ↦ (b'0' + n % 10, c ∷ out, rw done)
  | inr more ↦ rw more (digits-ne-nil fuel (n / 10) (b'0' + n % 10) (c ∷ out))
]

-- A printed number has a first digit.
pub decimal-cons : (n : ℕ) → (d : ℕ) × (s : Text) × (decimal n ≡ d ∷ s)
unfolding decimal digits
decimal-cons n = elim (Bool-cases (n / 10 == 0)) [
  | inl done ↦ (b'0' + n % 10, [], rw done)
  | inr more ↦ rw more (digits-ne-nil n (n / 10) (b'0' + n % 10) [])
]

decimal_example : decimal 1206 ≡ codes "1206"
unfolding decimal digits
decimal_example = refl
