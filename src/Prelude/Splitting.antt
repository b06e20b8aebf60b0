-- ===== src/Prelude/Splitting.antt =====
-- Splitting a text at a separator.
use Prim.Native.Nat.{ℕ}
use mathlib.Core.Path.{◌≡◌, refl}
use mathlib.Core.Logic.{inl, inr}
use mathlib.Core.Bool.{Bool, true, false, not}
use mathlib.Core.List.{List, [], ◌∷◌, ◌++◌}
use native.Mathlib.Omega.{arith}
use k3s_minecraft.Prelude.Tests.{eqb, Bool-cases}
use k3s_minecraft.Prelude.Lists.{all}
use k3s_minecraft.Prelude.Texts.{Text, split}

abbrev pub lacks : ℕ → Text → Bool
lacks sep = all (λ c. not (eqb c sep))

split_part : (sep : ℕ) (s : Text) → (p : Text) × (ps : List Text) × (split sep s ≡ p ∷ ps)
unfolding split
split_part sep [] = ([], [], refl)
split_part sep (c ∷ s) =
    let (p, ps, e) = split_part sep s in
    elim (Bool-cases (eqb c sep)) [
      | inl same ↦ ([], p ∷ ps, rw (e, same) refl)
      | inr other ↦ (c ∷ p, ps, rw (e, other) refl)
    ]

pub split-lacks : (sep : ℕ) (p : Text) → lacks sep p ≡ true → split sep p ≡ p ∷ []
unfolding all split
split-lacks sep [] h = refl
split-lacks sep (c ∷ p) h =
    rw (split-lacks sep p (ground arith))
      (let other : eqb c sep ≡ false = ground arith in rw other refl)

pub split-append :
    (sep : ℕ) (p t : Text) → lacks sep p ≡ true → split sep (p ++ sep ∷ t) ≡ p ∷ split sep t
unfolding all split
split-append sep [] t h =
    let (p, ps, e) = split_part sep t in
    let same : eqb sep sep ≡ true = ground arith in rw (e, same) refl
split-append sep (c ∷ p) t h =
    rw (split-append sep p t (ground arith))
      (let other : eqb c sep ≡ false = ground arith in rw other refl)

-- The same, whatever stands before the separator.
pub split-two : (sep : ℕ) (s t : Text) → split sep (s ++ sep ∷ t) ≡ split sep s ++ split sep t
unfolding split all
split-two sep [] t = split-append sep [] t refl
split-two sep (c ∷ s) t =
    let (p, ps, e) = split_part sep s in
    let f : split sep (s ++ sep ∷ t) ≡ (p ∷ ps) ++ split sep t = rw (split-two sep s t, e) refl in
    elim (Bool-cases (eqb c sep)) [
      | inl same ↦ rw (f, e, same) refl
      | inr other ↦ rw (f, e, other) refl
    ]
