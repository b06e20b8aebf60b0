-- ===== src/Naming/Candidates.antt =====
-- src/mcdash/naming.py: the numbered candidates of `unique_name` are different and valid.
use Prim.Native.Nat.{◌<◌, ◌≤◌, ◌^◌}
use k3s_minecraft.Prelude.{
  Text, ℕ, is_lower, drop_while_end, suc, ◌+◌, ◌-◌, true, Option, none, some, [], ◌∷◌, ◌++◌, ◌≡◌,
  refl, sym, ◌∙◌, ap, ◌≢◌, arith, if◌then◌else◌, eqb, leb, length, take, all, length-append,
  length-take, is_digit, text_eq, nat_eq, str, str_inj, str-digits, length-str, length-str_pos,
}
use k3s_minecraft.Naming.{
  dash, is_dash, is_dns, is_label, is_label_tail, slice_to, max_world_name, candidate,
  is_valid_world_name,
}
use k3s_minecraft.Naming.Labels.{
  IsStem, all-take, all-drop_while_end, length-drop_while_end, valid-of_is_label,
}

-- What stands behind the last dash.
after_dash : Text → Option Text
after_dash [] = none
after_dash (c ∷ s) = elim (after_dash s) [
  | some t ↦ some t
  | none ↦ if eqb c dash then some s else none
]

after_dash-digits : (s : Text) → all is_digit s ≡ true → after_dash s ≡ none
unfolding after_dash all is_digit
after_dash-digits [] h = refl
after_dash-digits (c ∷ s) h = ground (arith, after_dash-digits s)

after_dash-append : (s t : Text) → all is_digit t ≡ true → after_dash (s ++ dash ∷ t) ≡ some t
unfolding after_dash
after_dash-append [] t h = ground (arith, after_dash-digits t)
after_dash-append (c ∷ s) t h = ground (arith, after_dash-append s t)

some-eq {ℓ} : {A : Type ℓ} (a b : A) → some a ≡ some b → a ≡ b
some-eq a b e = cc

pub candidate_inj : (base : Text) (n m : ℕ) → candidate base n ≡ candidate base m → n ≡ m
unfolding candidate
candidate_inj base n m e = str_inj n m (
    some-eq _ _ (
      sym (after_dash-append _ (str n) (str-digits n))
      ∙ ap after_dash e
      ∙ after_dash-append _ (str m) (str-digits m)))

label_tail-append :
    (s t : Text)
    → all is_dns s ≡ true
    → is_label_tail t ≡ true
    → t ≢ []
    → is_label_tail (s ++ t) ≡ true
unfolding all is_label_tail
label_tail-append [] t h k ne = k
label_tail-append (c ∷ []) [] h k ne = absurd (ne refl)
label_tail-append (c ∷ []) (d ∷ t) h k ne = ground arith
label_tail-append (c ∷ d ∷ s) t h k ne = ground (arith, label_tail-append (d ∷ s) t)

digits-label_tail : (s : Text) → all is_digit s ≡ true → is_label_tail s ≡ true
unfolding all is_label_tail is_digit
digits-label_tail [] h = refl
digits-label_tail (c ∷ []) h = ground arith
digits-label_tail (c ∷ d ∷ s) h = ground (arith, digits-label_tail (d ∷ s))

suffix-label_tail : (n : ℕ) → is_label_tail (dash ∷ str n) ≡ true
suffix-label_tail n = go (str n) (str-digits n) (length-str_pos n)
  where
    go : (s : Text) → all is_digit s ≡ true → 0 < length s → is_label_tail (dash ∷ s) ≡ true
    go [] h p = elim p [ ]
    go (c ∷ s) h p = unfold is_label_tail in digits-label_tail (c ∷ s) h

label_tail-dns : (s : Text) → is_label_tail s ≡ true → all is_dns s ≡ true
unfolding all is_label_tail
label_tail-dns [] h = refl
label_tail-dns (c ∷ []) h = ground arith
label_tail-dns (c ∷ d ∷ s) h = ground (arith, label_tail-dns (d ∷ s))

IsStem-of_is_label : (s : Text) → is_label s ≡ true → IsStem s
unfolding is_label
IsStem-of_is_label [] h = cc
IsStem-of_is_label (c ∷ s) h = record {
  head = c;
  rest = s;
  shape = refl;
  letter = ground arith;
  good = label_tail-dns s (ground arith);
}

-- A label keeps its letter when it is cut and the dashes at its end go, so a suffix makes a label.
label-suffix :
    (c : ℕ) (s t : Text)
    → is_lower c ≡ true
    → all is_dns s ≡ true
    → is_label_tail t ≡ true
    → t ≢ []
    → is_label (drop_while_end is_dash (c ∷ s) ++ t) ≡ true
unfolding is_label drop_while_end is_dash is_lower
label-suffix c s t l h k ne =
    ground
      (arith, all-drop_while_end is_dns is_dash s, label_tail-append (drop_while_end is_dash s) t)

slice-IsStem :
    (base : Text) (n : ℕ)
    → n < max_world_name
    → IsStem base
    → IsStem (slice_to base max_world_name n)
unfolding slice_to
slice-IsStem base n h st = record {
  head = st.head;
  rest = take (39 - n) st.rest;
  shape =
      let e : 40 - n ≡ suc (39 - n) = omega arith in
      let short : leb n 40 ≡ true = ground arith in rw (short, e, st.shape) refl;
  letter = st.letter;
  good = all-take is_dns (39 - n) st.rest st.good;
}

length-slice_to :
    (base : Text) (n : ℕ) → n < max_world_name → length (slice_to base max_world_name n) + n ≤ 40
unfolding slice_to
length-slice_to base n h =
    let short : leb n 40 ≡ true = ground arith in
    rw short (omega (arith, length-take {0} (40 - n) base))

module _ (base : Text) (n : ℕ) (small : n < 10 ^ 38) (label : is_label base ≡ true) where
  suffix_fits : length (dash ∷ str n) < max_world_name
  suffix_fits = omega (arith, length-str 37 n small)

  candidate-is_label : is_label (candidate base n) ≡ true
  unfolding candidate
  candidate-is_label =
      let st =
        slice-IsStem base (length (dash ∷ str n)) suffix_fits (IsStem-of_is_label base label) in
      rw st.shape (
        label-suffix st.head st.rest (dash ∷ str n) st.letter st.good (suffix-label_tail n)
          (λ e. cc))

  length-candidate : length (candidate base n) ≤ max_world_name
  unfolding candidate
  length-candidate = rw length-append (
      omega (
        arith,
        length-slice_to base (length (dash ∷ str n)) suffix_fits,
        length-drop_while_end is_dash (slice_to base max_world_name (length (dash ∷ str n))),
      ))

  pub candidate-valid : is_valid_world_name (candidate base n) ≡ true
  candidate-valid = valid-of_is_label _ candidate-is_label length-candidate
