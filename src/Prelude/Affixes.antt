-- ===== src/Prelude/Affixes.antt =====
-- Beginnings and ends of texts, and the least element of a list.
use Prim.Native.Nat.{ℕ, zero, suc, ◌+◌, ◌-◌}
use mathlib.Core.Path.{◌≡◌, refl, sym, ◌∙◌, ap}
use mathlib.Core.Logic.{inl, inr}
use mathlib.Core.Bool.{Bool, true, false, ◌&&◌}
use mathlib.Core.List.{List, [], ◌∷◌, ◌++◌}
use native.Mathlib.Omega.{arith}
use k3s_minecraft.Prelude.Tests.{Bool-cases, leb}
use k3s_minecraft.Prelude.Lists.{length, take, drop, length-append, select}
use k3s_minecraft.Prelude.Keys.{◌==◌, contains, nat_eq, list_beq, list_beq_iff}
use k3s_minecraft.Prelude.Texts.{Text, text_eq, starts_with, ends_with, drop_end, count}
use k3s_minecraft.Prelude.Sorting.{min_of, list_lt}

pub take-drop {ℓ} : {A : Type ℓ} (n : ℕ) (xs : List A) → take n xs ++ drop n xs ≡ xs
take-drop zero xs = refl
take-drop (suc n) [] = refl
take-drop (suc n) (x ∷ xs) = ap (λ t. x ∷ t) (take-drop n xs)

pub take-length-append {ℓ} : {A : Type ℓ} (xs ys : List A) → take (length xs) (xs ++ ys) ≡ xs
take-length-append [] ys = refl
take-length-append (x ∷ xs) ys = ap (λ t. x ∷ t) (take-length-append xs ys)

pub drop-length-append {ℓ} : {A : Type ℓ} (xs ys : List A) → drop (length xs) (xs ++ ys) ≡ ys
drop-length-append [] ys = refl
drop-length-append (x ∷ xs) ys = drop-length-append xs ys

-- A text that ends with another is what stands before it, and that.
pub ends_with-split : (s t : Text) → ends_with s t ≡ true → (p : Text) × (s ≡ p ++ t)
unfolding ends_with
ends_with-split s t h =
    let k = length s - length t in
    let e : list_beq (drop k s) t ≡ true = ground arith in
    (take k s, sym (take-drop k s) ∙ ap (λ r. take k s ++ r) ((list_beq_iff (drop k s) t).0 e))

pub ends_with-append : (p t : Text) → ends_with (p ++ t) t ≡ true
unfolding ends_with
ends_with-append p t =
    let n = length-append p t in
    let le : leb (length t) (length (p ++ t)) ≡ true = ground arith in
    let at : length (p ++ t) - length t ≡ length p = omega arith in
    rw (le, at, drop-length-append p t) ((list_beq_iff t t).1 refl)

pub drop_end-append : (p t : Text) → drop_end (length t) (p ++ t) ≡ p
unfolding drop_end
drop_end-append p t =
    let n : length (p ++ t) - length t ≡ length p = omega (arith, length-append p t) in
    rw n (take-length-append p t)

pub starts_with-append : (p t : Text) → starts_with (p ++ t) p ≡ true
unfolding starts_with
starts_with-append [] t = refl
starts_with-append (c ∷ p) t = ground (arith, starts_with-append p t)

pub count-append : (c : ℕ) (s t : Text) → count c (s ++ t) ≡ count c s + count c t
unfolding count
count-append c [] t = omega arith
count-append c (d ∷ s) t = ground (arith, count-append c s t)

pub contains-select :
    (p : Text → Bool) (xs : List Text) (a : Text)
    → contains (select p xs) a ≡ (contains xs a && p a)
unfolding contains select
contains-select p [] a = refl
contains-select p (x ∷ xs) a = ground (arith, text_eq.same_iff a x, contains-select p xs a)

-- Not less, of lists of numbers.
pub list_lt-not_trans :
    (a b c : List ℕ) → list_lt a b ≡ false → list_lt b c ≡ false → list_lt a c ≡ false
unfolding list_lt
list_lt-not_trans [] b [] h k = refl
list_lt-not_trans (x ∷ a) b [] h k = refl
list_lt-not_trans a [] (z ∷ c) h k = ground arith
list_lt-not_trans [] (y ∷ b) (z ∷ c) h k = ground arith
list_lt-not_trans (x ∷ a) (y ∷ b) (z ∷ c) h k = ground (arith, list_lt-not_trans a b c)

pub list_lt_irrefl : (a : List ℕ) → list_lt a a ≡ false
unfolding list_lt
list_lt_irrefl [] = refl
list_lt_irrefl (x ∷ a) = ground (arith, list_lt_irrefl a)

pub list_lt-asym : (a b : List ℕ) → list_lt a b ≡ true → list_lt b a ≡ false
unfolding list_lt
list_lt-asym [] [] h = cc
list_lt-asym [] (y ∷ b) h = refl
list_lt-asym (x ∷ a) [] h = cc
list_lt-asym (x ∷ a) (y ∷ b) h = ground (arith, list_lt-asym a b)

-- The order is total.
pub list_lt-total : (a b : List ℕ) → list_lt a b ≡ false → list_lt b a ≡ false → a ≡ b
unfolding list_lt
list_lt-total [] [] h k = refl
list_lt-total [] (y ∷ b) h k = cc
list_lt-total (x ∷ a) [] h k = cc
list_lt-total (x ∷ a) (y ∷ b) h k = ground (arith, list_lt-total a b)

-- The least of a list of texts is in it, and none is less.
module _ (lt : Text → Text → Bool) (irrefl : (a : Text) → lt a a ≡ false)
    (asym : (a b : Text) → lt a b ≡ true → lt b a ≡ false)
    (not_trans : (a b c : Text) → lt a b ≡ false → lt b c ≡ false → lt a c ≡ false) where
  pub contains-min_of : (x : Text) (xs : List Text) → contains (x ∷ xs) (min_of lt x xs) ≡ true
  unfolding contains min_of
  contains-min_of x [] = ground (arith, text_eq.same_iff x x)
  contains-min_of x (y ∷ ys) = elim (Bool-cases (lt y x)) [
    | inl less ↦ rw less (ground (arith, contains-min_of y ys))
    | inr more ↦ rw more (ground (arith, contains-min_of x ys))
  ]

  min_of-head : (x : Text) (xs : List Text) → lt x (min_of lt x xs) ≡ false
  unfolding min_of
  min_of-head x [] = irrefl x
  min_of-head x (y ∷ ys) = elim (Bool-cases (lt y x)) [
    | inl less ↦ rw less (not_trans x y _ (asym y x less) (min_of-head y ys))
    | inr more ↦ rw more (min_of-head x ys)
  ]

  pub min_of-least :
      (x : Text) (xs : List Text) (a : Text)
      → contains (x ∷ xs) a ≡ true
      → lt a (min_of lt x xs) ≡ false
  unfolding contains min_of
  min_of-least x [] a h = let e : a ≡ x = ground (arith, text_eq.same_iff a x) in rw e (irrefl x)
  min_of-least x (y ∷ ys) a h = elim (Bool-cases (lt y x)) [
    | inl less ↦ rw less (elim (Bool-cases (a == x)) [
      | inl same ↦
          rw ((text_eq.same_iff a x).0 same) (not_trans x y _ (asym y x less) (min_of-head y ys))
      | inr other ↦ min_of-least y ys a (ground arith)
    ])
    | inr more ↦ rw more (elim (Bool-cases (a == y)) [
      | inl same ↦ rw ((text_eq.same_iff a y).0 same) (not_trans y x _ more (min_of-head x ys))
      | inr other ↦ min_of-least x ys a (ground arith)
    ])
  ]
