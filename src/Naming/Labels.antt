-- ===== src/Naming/Labels.antt =====
-- src/mcdash/naming.py: what `sanitize_world_name` returns passes `is_valid_world_name`.
use Prim.Native.Nat.{◌<◌, ◌≤◌}
use k3s_minecraft.Prelude.{
  Text, codes, ℕ, zero, suc, Bool, true, false, not, [], ◌∷◌, ◌++◌, ◌≡◌, refl, arith, length, take,
  all, length-append, length-take, is_lower, is_alpha, lower, strip, drop_while, drop_while_end, ap,
  Bool-cases, inl, inr,
}
use k3s_minecraft.Naming.{
  dash, is_dash, is_dns, sub_runs, strip_dashes, dash_for_underscore, or_world, with_letter,
  sanitize_world_name, is_label_tail, is_label, before_dollar, is_valid_world_name, max_world_name,
}

pub length-drop_while_end : (p : ℕ → Bool) (s : Text) → length (drop_while_end p s) ≤ length s
unfolding drop_while_end
length-drop_while_end p [] = omega arith
length-drop_while_end p (c ∷ s) = ground (arith, length-drop_while_end p s)

module _ (p q : ℕ → Bool) where
  all-drop_while : (s : Text) → all p s ≡ true → all p (drop_while q s) ≡ true
  unfolding all drop_while
  all-drop_while [] h = refl
  all-drop_while (c ∷ s) h = ground (arith, all-drop_while s)

  pub all-drop_while_end : (s : Text) → all p s ≡ true → all p (drop_while_end q s) ≡ true
  unfolding all drop_while_end
  all-drop_while_end [] h = refl
  all-drop_while_end (c ∷ s) h = ground (arith, all-drop_while_end s)

pub all-take : (p : ℕ → Bool) (n : ℕ) (s : Text) → all p s ≡ true → all p (take n s) ≡ true
unfolding all
all-take p zero s h = refl
all-take p (suc n) [] h = refl
all-take p (suc n) (c ∷ s) h = ground (arith, all-take p n s)

-- Replacing the bad runs leaves characters that are good or dashes.
all-sub_runs : (r : Bool) (s : Text) → all is_dns (sub_runs (λ c. not (is_dns c)) r s) ≡ true
unfolding all sub_runs is_dns
all-sub_runs r [] = refl
all-sub_runs r (c ∷ s) = ground (arith, all-sub_runs true s, all-sub_runs false s)

all-sub_runs_dash :
    (r : Bool) (s : Text) → all is_dns s ≡ true → all is_dns (sub_runs is_dash r s) ≡ true
unfolding all sub_runs is_dns
all-sub_runs_dash r [] h = refl
all-sub_runs_dash r (c ∷ s) h = ground (arith, all-sub_runs_dash true s, all-sub_runs_dash false s)

-- Dropping the dashes at the end leaves a tail that a label may have.
is_label_tail-drop_while_end :
    (s : Text) → all is_dns s ≡ true → is_label_tail (drop_while_end is_dash s) ≡ true
unfolding all drop_while_end is_label_tail
is_label_tail-drop_while_end [] h = refl
is_label_tail-drop_while_end (c ∷ s) h = ground (arith, is_label_tail-drop_while_end s)

-- A lower case letter in front makes it a label.
pub is_label-drop_while_end :
    (c : ℕ) (s : Text)
    → is_lower c ≡ true
    → all is_dns s ≡ true
    → is_label (drop_while_end is_dash (c ∷ s)) ≡ true
unfolding drop_while_end is_label is_dash is_lower
is_label-drop_while_end c s l h = ground (arith, is_label_tail-drop_while_end s)

-- Text that is not empty, starts with a letter and holds only label characters.
pub record IsStem (s : Text) : Type 0 where
  pub head : ℕ
  pub rest : Text
  pub shape : s ≡ head ∷ rest
  pub letter : is_lower head ≡ true
  pub good : all is_dns rest ≡ true

with_letter-IsStem : (s : Text) → all is_dns s ≡ true → IsStem (with_letter (or_world s))
unfolding or_world
with_letter-IsStem [] h = record {
  head = b'w';
  rest = codes "orld";
  shape = unfold with_letter codes in refl;
  letter = unfold is_lower in refl;
  good = unfold all is_dns codes in refl;
}
with_letter-IsStem (c ∷ s) h = elim (Bool-cases (is_alpha c)) [
  | inl a ↦ record {
    head = c;
    rest = s;
    shape = unfold with_letter in ground arith;
    letter = unfold all is_dns is_alpha is_lower in ground arith;
    good = unfold all in ground arith;
  }
  | inr n ↦ record {
    head = b'w';
    rest = dash ∷ c ∷ s;
    shape = unfold with_letter codes in ground arith;
    letter = unfold is_lower in refl;
    good = unfold all is_dns in ground arith;
  }
]

pub cut-IsLabel :
    (n : ℕ) (s : Text) → IsStem s → is_label (drop_while_end is_dash (take (suc n) s)) ≡ true
cut-IsLabel n s st =
    rw st.shape (is_label-drop_while_end st.head _ st.letter (all-take is_dns n st.rest st.good))

all-strip_dashes : (s : Text) → all is_dns s ≡ true → all is_dns (strip_dashes s) ≡ true
unfolding strip_dashes
all-strip_dashes s h = all-drop_while_end is_dns is_dash _ (all-drop_while is_dns is_dash s h)

-- What the two substitutions and `strip("-")` leave holds only label characters.
all-cleaned :
    (s : Text)
    → all is_dns (strip_dashes (sub_runs is_dash false (sub_runs (λ c. not (is_dns c)) false s)))
      ≡ true
all-cleaned s = all-strip_dashes _ (all-sub_runs_dash false _ (all-sub_runs false s))

-- What is left before the cut to 40 characters.
abbrev uncut : Text → Text
uncut raw = with_letter (
    or_world (
      strip_dashes (
        sub_runs is_dash false
          (sub_runs (λ c. not (is_dns c)) false (dash_for_underscore (lower (strip raw)))))))

sanitize_world_name-uncut :
    (raw : Text)
    → sanitize_world_name raw ≡ drop_while_end is_dash (take max_world_name (uncut raw))
unfolding sanitize_world_name
sanitize_world_name-uncut raw = refl

pub sanitize_world_name-is_label : (raw : Text) → is_label (sanitize_world_name raw) ≡ true
sanitize_world_name-is_label raw =
    rw sanitize_world_name-uncut (cut-IsLabel 39 _ (with_letter-IsStem _ (all-cleaned _)))

pub length-sanitize_world_name : (raw : Text) → length (sanitize_world_name raw) ≤ max_world_name
length-sanitize_world_name raw = rw sanitize_world_name-uncut (
    omega (
      arith,
      length-drop_while_end is_dash (take max_world_name (uncut raw)),
      length-take {0} max_world_name (uncut raw),
    ))

pub valid-of_is_label :
    (s : Text) → is_label s ≡ true → length s ≤ max_world_name → is_valid_world_name s ≡ true
unfolding is_valid_world_name
valid-of_is_label s l h = ground arith

-- Whatever text it is given, `sanitize_world_name` returns a name that `is_valid_world_name` takes.
pub sanitize_world_name-valid : (raw : Text) → is_valid_world_name (sanitize_world_name raw) ≡ true
sanitize_world_name-valid raw =
    valid-of_is_label _ (sanitize_world_name-is_label raw) (length-sanitize_world_name raw)

before_dollar-newline : (s : Text) → before_dollar (s ++ b'\n' ∷ []) ≡ s
unfolding before_dollar
before_dollar-newline [] = refl
before_dollar-newline (c ∷ []) = refl
before_dollar-newline (c ∷ d ∷ s) = ap (λ t. c ∷ t) (before_dollar-newline (d ∷ s))

-- `$` also matches before a newline at the end: behind a label of less than 40 characters
-- `is_valid_world_name` takes a newline, which no Kubernetes name may hold.
pub newline-valid :
    (s : Text)
    → is_label s ≡ true
    → length s < max_world_name
    → is_valid_world_name (s ++ b'\n' ∷ []) ≡ true
unfolding is_valid_world_name
newline-valid s l h = ground (arith, before_dollar-newline s, length-append {0} s (b'\n' ∷ []))
