-- ===== src/Prelude/Decimal.antt =====
-- `str(n)` for a natural number, and that it loses nothing.
use Prim.Native.Nat.{ℕ, zero, suc, ◌+◌, ◌-◌, ◌*◌, ◌/◌, ◌%◌, ◌^◌, ◌<◌, ◌≤◌}
use mathlib.Core.Path.{◌≡◌, refl, sym, ◌∙◌, ap}
use mathlib.Core.Bool.{true}
use mathlib.Core.List.{[], ◌∷◌}
use native.Mathlib.Omega.{arith}
use native.Mathlib.Nat.{pow-suc}
use k3s_minecraft.Prelude.Tests.{ltb, if◌then◌else◌}
use k3s_minecraft.Prelude.Lists.{length, all}
use k3s_minecraft.Prelude.Texts.{Text, is_digit}

-- The digits of `n` in front of `out`. Each round drops a digit, so `n` rounds are enough.
unfoldable pub decimal : ℕ → ℕ → Text → Text
decimal zero n out = out
decimal (suc f) n out =
    let rest = decimal f (n / 10) ((b'0' + n % 10) ∷ out) in
    if ltb n 10 then (b'0' + n) ∷ out else rest

unfoldable pub str : ℕ → Text
unfolding decimal
str n = decimal (suc n) n []

value : ℕ → Text → ℕ
value acc [] = acc
value acc (c ∷ s) = value (acc * 10 + (c - b'0')) s

value-decimal : (f n : ℕ) (out : Text) → n < f → value 0 (decimal f n out) ≡ value n out
unfolding value decimal
value-decimal zero n out h = elim h [ ]
value-decimal (suc f) n out h = ground (
  arith,
  value-decimal f (n / 10) ((b'0' + n % 10) ∷ out),
  ap (λ (m : ℕ). value m out) (div_step n),
)
  where
    div_step : (n : ℕ) → (n / 10) * 10 + ((b'0' + n % 10) - b'0') ≡ n
    div_step n = omega arith

pub str_inj : (n m : ℕ) → str n ≡ str m → n ≡ m
unfolding str value
str_inj n m e =
    sym (value-decimal (suc n) n [] (omega arith))
    ∙ ap (value 0) e
    ∙ value-decimal (suc m) m [] (omega arith)

decimal-digits :
    (f n : ℕ) (out : Text) → all is_digit out ≡ true → all is_digit (decimal f n out) ≡ true
unfolding all is_digit decimal
decimal-digits zero n out h = h
decimal-digits (suc f) n out h = ground (arith, decimal-digits f (n / 10) ((b'0' + n % 10) ∷ out))

pub str-digits : (n : ℕ) → all is_digit (str n) ≡ true
unfolding str all
str-digits n = decimal-digits (suc n) n [] refl

length-decimal :
    (k f n : ℕ) (out : Text) → n < 10 ^ suc k → length (decimal f n out) ≤ suc k + length out
unfolding decimal
length-decimal k zero n out h = omega arith
length-decimal zero (suc f) n out h = ground arith
length-decimal (suc k) (suc f) n out h =
    ground (arith, length-decimal k f (n / 10) ((b'0' + n % 10) ∷ out), pow-suc 10 (suc k))

-- A number below `10 ^ (k + 1)` has at most `k + 1` digits.
pub length-str : (k n : ℕ) → n < 10 ^ suc k → length (str n) ≤ suc k
unfolding str
length-str k n h = omega (arith, length-decimal k (suc n) n [] h)

length-decimal_pos : (f n : ℕ) (out : Text) → length out < length (decimal (suc f) n out)
unfolding decimal
length-decimal_pos zero n out = ground arith
length-decimal_pos (suc f) n out =
    ground (arith, length-decimal_pos f (n / 10) ((b'0' + n % 10) ∷ out))

pub length-str_pos : (n : ℕ) → 0 < length (str n)
unfolding str
length-str_pos n = length-decimal_pos n n []
