-- ===== src/Naming/Snapshots.antt =====
-- src/mcdash/naming.py: `parse_backup_name` on the name of a snapshot.
use k3s_minecraft.Prelude.{
  Text, codes, ℕ, Bool, true, false, ◌||◌, not, Option, none, some, [], ◌∷◌, ◌++◌, text_eq, eqb,
  all, is_digit, is_space, strip, drop_while, drop_while_end, lacks, ◌≡◌, ◌≢◌, refl, ◌∙◌, ap, arith,
  append-nil,
}
use k3s_minecraft.Naming.{before_dollar}
use k3s_minecraft.Naming.Dates.{
  gap, digits_due, in_digits, refused, dup_step, is_dups, cut_dups, strip_dup_suffix, DateTime,
  is_date, format_compact_timestamp,
}
use k3s_minecraft.Naming.BackupNames.{or_else, parse_backup_name}
use k3s_minecraft.Naming.Stamps.{parse_backup_name-stamped}

-- A character of a world's directory: no blank, no parenthesis and no slash.
abbrev pub is_name_code : ℕ → Bool
is_name_code c = not (is_space c || eqb c b'(' || eqb c b'/')

-- What a copy of a directory has behind its name: a number in parentheses.
abbrev pub copy_mark : Option Text → Text
copy_mark none = []
copy_mark (some d) = b'(' ∷ (d ++ b')' ∷ [])

abbrev pub IsCopy : Option Text → Type 0
IsCopy none = Unit {0}
IsCopy (some d) = (all is_digit d ≡ true) × (d ≢ [])

refused_dups : (s : Text) → is_dups refused s ≡ false
unfolding is_dups dup_step
refused_dups [] = refl
refused_dups (c ∷ s) = refused_dups s

gap_name : (c : ℕ) → is_name_code c ≡ true → dup_step gap c ≡ refused
unfolding dup_step
gap_name c h = ground arith

name_dups : (c : ℕ) (s : Text) → is_name_code c ≡ true → is_dups gap (before_dollar (c ∷ s)) ≡ false
unfolding is_dups before_dollar is_space
name_dups c [] h =
    let e = gap_name c h in
    let n : eqb c b'\n' ≡ false = ground arith in rw n (ap (λ st. is_dups st []) e)
name_dups c (d ∷ s) h =
    ap (λ st. is_dups st (before_dollar (d ∷ s))) (gap_name c h)
    ∙ refused_dups (before_dollar (d ∷ s))

cut_dups-name : (n s : Text) → all is_name_code n ≡ true → cut_dups (n ++ s) ≡ n ++ cut_dups s
unfolding cut_dups all
cut_dups-name [] s h = refl
cut_dups-name (c ∷ n) s h =
    rw (name_dups c (n ++ s) (ground arith), cut_dups-name n s (ground arith)) refl

before_dollar-closed : (s : Text) → before_dollar (s ++ b')' ∷ []) ≡ s ++ b')' ∷ []
unfolding before_dollar
before_dollar-closed [] = refl
before_dollar-closed (c ∷ []) = refl
before_dollar-closed (c ∷ d ∷ s) = ap (λ t. c ∷ t) (before_dollar-closed (d ∷ s))

digits_dups : (d : Text) → all is_digit d ≡ true → is_dups in_digits (d ++ b')' ∷ []) ≡ true
unfolding is_dups dup_step all is_digit
digits_dups [] h = refl
digits_dups (c ∷ d) h =
    let e : dup_step in_digits c ≡ in_digits = ground arith in
    ap (λ st. is_dups st (d ++ b')' ∷ [])) e ∙ digits_dups d (ground arith)

mark_dups : (d : Text) → all is_digit d ≡ true → d ≢ [] → is_dups gap (copy_mark (some d)) ≡ true
unfolding is_dups dup_step all is_digit is_space
mark_dups [] h ne = absurd (ne refl)
mark_dups (c ∷ d) h ne =
    let e : dup_step digits_due c ≡ in_digits = ground arith in
    ap (λ st. is_dups st (d ++ b')' ∷ [])) e ∙ digits_dups d (ground arith)

cut_dups-mark : (copy : Option Text) → IsCopy copy → cut_dups (copy_mark copy) ≡ []
unfolding cut_dups
cut_dups-mark none h = refl
cut_dups-mark (some d) h = rw (before_dollar-closed (b'(' ∷ d), mark_dups d h.0 h.1) refl

drop_while_end-name : (n : Text) → all is_name_code n ≡ true → drop_while_end is_space n ≡ n
unfolding drop_while_end all
drop_while_end-name [] h = refl
drop_while_end-name (c ∷ []) h = ground arith
drop_while_end-name (c ∷ d ∷ n) h = rw (drop_while_end-name (d ∷ n) (ground arith)) refl

strip-name : (n : Text) → all is_name_code n ≡ true → strip n ≡ n
unfolding strip drop_while all
strip-name [] h = refl
strip-name (c ∷ n) h =
    let e : is_space c ≡ false = ground arith in rw e (drop_while_end-name (c ∷ n) h)

-- The suffix of a copy is cut off, and nothing else.
strip_dup_suffix-copy :
    (n : Text) (copy : Option Text)
    → all is_name_code n ≡ true
    → IsCopy copy
    → strip_dup_suffix (n ++ copy_mark copy) ≡ n
unfolding strip_dup_suffix
strip_dup_suffix-copy n copy h k =
    ap strip (cut_dups-name n (copy_mark copy) h)
    ∙ ap (λ t. strip (n ++ t)) (cut_dups-mark copy k)
    ∙ ap strip (append-nil n)
    ∙ strip-name n h

lacks-append :
    (n s : Text) → all is_name_code n ≡ true → lacks b'/' s ≡ true → lacks b'/' (n ++ s) ≡ true
unfolding all
lacks-append [] s h k = k
lacks-append (c ∷ n) s h k = ground (arith, lacks-append n s)

lacks-digits : (d : Text) → all is_digit d ≡ true → lacks b'/' (d ++ b')' ∷ []) ≡ true
unfolding all is_digit
lacks-digits [] h = refl
lacks-digits (c ∷ d) h = ground (arith, lacks-digits d)

lacks-mark : (copy : Option Text) → IsCopy copy → lacks b'/' (copy_mark copy) ≡ true
unfolding all
lacks-mark none h = refl
lacks-mark (some d) h = lacks-digits d h.0

or_else-name : (n s : Text) → n ≢ [] → or_else n s ≡ n
or_else-name [] s h = absurd (h refl)
or_else-name (c ∷ n) s h = refl

name_there : (n s : Text) → n ≢ [] → n ++ s ≢ []
name_there [] s h e = absurd (h refl)
name_there (c ∷ n) s h e = cc

no_dot : (n : Text) (copy : Option Text) → n ≢ [] → n ≢ codes "." → n ++ copy_mark copy ≢ codes "."
unfolding codes
no_dot [] copy h k e = absurd (h refl)
no_dot (c ∷ []) none h k e = absurd (k e)
no_dot (c ∷ []) (some d) h k e = cc
no_dot (c ∷ x ∷ n) copy h k e = cc

-- The name of a snapshot, a directory and the compact timestamp of a valid date, is parsed to that
-- date and to the directory's name, where the name has no blank, no parenthesis and no slash and
-- is neither empty nor a dot; a number in parentheses behind it, the mark of a copy, is left out.
pub parse_backup_name-snapshot :
    (n : Text) (copy : Option Text) (t : DateTime) (fallback : Option DateTime)
    → all is_name_code n ≡ true
    → n ≢ []
    → n ≢ codes "."
    → IsCopy copy
    → is_date t ≡ true
    → parse_backup_name
        ((n ++ copy_mark copy) ++ b'/' ∷ (format_compact_timestamp t ++ codes ".zip"))
        fallback
      ≡ (n, some t)
parse_backup_name-snapshot n copy t fallback h ne nd k good =
    let s = format_compact_timestamp t in
    parse_backup_name-stamped (n ++ copy_mark copy) t fallback
      (lacks-append n (copy_mark copy) h (lacks-mark copy k)) (name_there n (copy_mark copy) ne)
      (no_dot n copy ne nd) good
    ∙ ap (λ w. (or_else w s, some t)) (strip_dup_suffix-copy n copy h k)
    ∙ ap (λ w. (w, some t)) (or_else-name n s ne)
