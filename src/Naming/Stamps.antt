-- ===== src/Naming/Stamps.antt =====
-- src/mcdash/naming.py: compact timestamps, and the names of snapshots.
use k3s_minecraft.Prelude.{
  Text, codes, ℕ, ◌+◌, ◌-◌, ◌*◌, ◌/◌, ◌%◌, ◌≤◌, ◌<◌, Bool, true, false, ◌||◌, not, Option, some, [],
  ◌∷◌, ◌++◌, nat_eq, text_eq, ◌==◌, list_beq, eqb, all, is_digit, is_space, strip, lower,
  lower_code, ends_with, select, drop_while, drop_while_end, lacks, split-lacks, split-append,
  ends_with-append, drop_end-append, ◌≡◌, ◌≢◌, refl, ◌∙◌, ap, arith,
}
use k3s_minecraft.Naming.{before_dollar}
use k3s_minecraft.Naming.Dates.{
  DupState, gap, digits_due, in_digits, closed, refused, dup_step, is_dups, cut_dups,
  strip_dup_suffix, DateTime, is_date, days_in, date_of, compact_time, skip_letter,
  parse_compact_timestamp, format_compact_timestamp, digits,
}
use k3s_minecraft.Naming.BackupNames.{
  path_names, last_two, without_zip, or_else, parse_stem, parse_backup_name,
}

digit-IsDigit : (n : ℕ) → is_digit (b'0' + n % 10) ≡ true
unfolding is_digit
digit-IsDigit n = ground arith

year_eq :
    (y : ℕ)
    → y ≤ 9999
    → ((b'0' + y / 100 / 10 % 10 - b'0') * 10 + (b'0' + y / 100 % 10 - b'0')) * 100
        + ((b'0' + y / 10 % 10 - b'0') * 10 + (b'0' + y % 10 - b'0'))
      ≡ y
year_eq y h = omega arith

two_eq : (n : ℕ) → n < 100 → (b'0' + n / 10 % 10 - b'0') * 10 + (b'0' + n % 10 - b'0') ≡ n
two_eq n h = omega arith

record IsSmall (t : DateTime) : Type 0 where
  year : t.year ≤ 9999
  month : t.month < 100
  day : t.day < 100
  hour : t.hour < 100
  minute : t.minute < 100
  second : t.second < 100

IsSmall-date : (t : DateTime) → is_date t ≡ true → IsSmall t
unfolding is_date days_in
IsSmall-date t h = record {
  year = ground arith;
  month = ground arith;
  day = ground arith;
  hour = ground arith;
  minute = ground arith;
  second = ground arith;
}

date_of-digits :
    (t : DateTime)
    → is_date t ≡ true
    → date_of (
        digits (t.year / 100)
        ++ (digits t.year
            ++ (digits t.month
                ++ (digits t.day ++ (digits t.hour ++ (digits t.minute ++ digits t.second))))))
      ≡ some t
unfolding date_of
date_of-digits t h =
    let s = IsSmall-date t h in
    rw
      (
        year_eq t.year s.year,
        two_eq t.month s.month,
        two_eq t.day s.day,
        two_eq t.hour s.hour,
        two_eq t.minute s.minute,
        two_eq t.second s.second,
        h,
      )
      refl

-- A valid date is parsed again from its compact timestamp.
pub parse_compact_timestamp-format_compact_timestamp :
    (t : DateTime)
    → is_date t ≡ true
    → parse_compact_timestamp (format_compact_timestamp t) ≡ some t
unfolding parse_compact_timestamp compact_time format_compact_timestamp skip_letter before_dollar
    all
parse_compact_timestamp-format_compact_timestamp t h =
    rw
      (
        digit-IsDigit (t.year / 100 / 10),
        digit-IsDigit (t.year / 100),
        digit-IsDigit (t.year / 10),
        digit-IsDigit t.year,
        digit-IsDigit (t.month / 10),
        digit-IsDigit t.month,
        digit-IsDigit (t.day / 10),
        digit-IsDigit t.day,
        digit-IsDigit (t.hour / 10),
        digit-IsDigit t.hour,
        digit-IsDigit (t.minute / 10),
        digit-IsDigit t.minute,
        digit-IsDigit (t.second / 10),
        digit-IsDigit t.second,
      )
      (unfold list_beq in date_of-digits t h)

-- The characters of a timestamp.
abbrev is_stamp : ℕ → Bool
is_stamp c = is_digit c || eqb c b'T' || eqb c b'Z'

all-is_stamp : (t : DateTime) → all is_stamp (format_compact_timestamp t) ≡ true
unfolding format_compact_timestamp all
all-is_stamp t =
    rw
      (
        digit-IsDigit (t.year / 100 / 10),
        digit-IsDigit (t.year / 100),
        digit-IsDigit (t.year / 10),
        digit-IsDigit t.year,
        digit-IsDigit (t.month / 10),
        digit-IsDigit t.month,
        digit-IsDigit (t.day / 10),
        digit-IsDigit t.day,
        digit-IsDigit (t.hour / 10),
        digit-IsDigit t.hour,
        digit-IsDigit (t.minute / 10),
        digit-IsDigit t.minute,
        digit-IsDigit (t.second / 10),
        digit-IsDigit t.second,
      )
      (unfold is_digit in refl)

lacks-stamp : (s : Text) → all is_stamp s ≡ true → lacks b'/' (s ++ codes ".zip") ≡ true
unfolding all is_digit codes
lacks-stamp [] h = refl
lacks-stamp (c ∷ s) h = ground (arith, lacks-stamp s)

no_dups :
    (st : DupState) (s : Text)
    → all is_stamp s ≡ true
    → st ≢ closed
    → st ≢ digits_due
    → st ≢ in_digits
    → is_dups st s ≡ false
unfolding all is_digit is_dups dup_step is_space
no_dups gap [] h k l m = refl
no_dups refused [] h k l m = refl
no_dups closed s h k l m = absurd (k refl)
no_dups digits_due s h k l m = absurd (l refl)
no_dups in_digits s h k l m = absurd (m refl)
no_dups gap (c ∷ s) h k l m =
    let e : dup_step gap c ≡ refused = ground arith in
    rw e (no_dups refused s (ground arith) (λ e. cc) (λ e. cc) (λ e. cc))
no_dups refused (c ∷ s) h k l m = no_dups refused s (ground arith) k l m

before_dollar-stamp : (s : Text) → all is_stamp s ≡ true → before_dollar s ≡ s
unfolding before_dollar all is_digit
before_dollar-stamp [] h = refl
before_dollar-stamp (c ∷ []) h = ground arith
before_dollar-stamp (c ∷ d ∷ s) h = ap (λ t. c ∷ t) (before_dollar-stamp (d ∷ s) (ground arith))

cut_dups-stamp : (s : Text) → all is_stamp s ≡ true → cut_dups s ≡ s
unfolding cut_dups
cut_dups-stamp [] h = refl
cut_dups-stamp (c ∷ s) h =
    rw
      (
        before_dollar-stamp (c ∷ s) h,
        no_dups gap (c ∷ s) h (λ e. cc) (λ e. cc) (λ e. cc),
        cut_dups-stamp s (unfold all in ground arith),
      )
      refl

drop_while_end-stamp : (s : Text) → all is_stamp s ≡ true → drop_while_end is_space s ≡ s
unfolding drop_while_end all is_digit is_space
drop_while_end-stamp [] h = refl
drop_while_end-stamp (c ∷ []) h = ground arith
drop_while_end-stamp (c ∷ d ∷ s) h = rw (drop_while_end-stamp (d ∷ s) (ground arith)) refl

strip-stamp : (s : Text) → all is_stamp s ≡ true → strip s ≡ s
unfolding strip drop_while all is_digit is_space
strip-stamp [] h = refl
strip-stamp (c ∷ s) h =
    let e : is_space c ≡ false = ground arith in rw e (drop_while_end-stamp (c ∷ s) h)

strip_dup_suffix-stamp : (s : Text) → all is_stamp s ≡ true → strip_dup_suffix s ≡ s
unfolding strip_dup_suffix
strip_dup_suffix-stamp s h = ap strip (cut_dups-stamp s h) ∙ strip-stamp s h

lower-append : (s t : Text) → lower (s ++ t) ≡ lower s ++ lower t
unfolding lower
lower-append [] t = refl
lower-append (c ∷ s) t = ap (λ u. lower_code c ∷ u) (lower-append s t)

without_zip-append : (s : Text) → without_zip (s ++ codes ".zip") ≡ s
unfolding without_zip
without_zip-append s =
    let e : lower (s ++ codes ".zip") ≡ lower s ++ codes ".zip" =
      lower-append s (codes ".zip") ∙ unfold lower codes lower_code in refl in
    let f : ends_with (lower (s ++ codes ".zip")) (codes ".zip") ≡ true =
      ap (λ u. ends_with u (codes ".zip")) e ∙ ends_with-append (lower s) (codes ".zip") in
    rw f (unfold codes in drop_end-append s (codes ".zip"))

abbrev kept_part : Text → Bool
kept_part x = not (x == [] || x == codes ".")

kept_zip : (s : Text) → kept_part (s ++ codes ".zip") ≡ true
unfolding list_beq codes
kept_zip [] = refl
kept_zip (c ∷ []) = ground arith
kept_zip (c ∷ d ∷ s) = ground arith

-- A name that a directory may have.
path_names-snapshot :
    (w s : Text)
    → lacks b'/' w ≡ true
    → kept_part w ≡ true
    → all is_stamp s ≡ true
    → path_names (w ++ b'/' ∷ (s ++ codes ".zip")) ≡ (w, s ++ codes ".zip")
unfolding path_names last_two select
path_names-snapshot w s h k l =
    rw
      (
        split-append b'/' w (s ++ codes ".zip") h,
        split-lacks b'/' (s ++ codes ".zip") (lacks-stamp s l),
        k,
        kept_zip s,
      )
      refl

parse_stem-compact :
    (parent stem : Text) (fallback : Option DateTime) (t : DateTime)
    → parse_compact_timestamp stem ≡ some t
    → parse_stem parent stem fallback ≡ (or_else (strip_dup_suffix parent) stem, some t)
unfolding parse_stem strip_dup_suffix
parse_stem-compact parent stem fallback t h = rw (h, parse_stem) refl

-- The name of a snapshot, a directory of the world and the compact timestamp of a valid date, is
-- parsed to that date and to the directory's name without a suffix such as "(1)"; where only such a
-- suffix is there, to the timestamp.
pub parse_backup_name-stamped :
    (w : Text) (t : DateTime) (fallback : Option DateTime)
    → lacks b'/' w ≡ true
    → w ≢ []
    → w ≢ codes "."
    → is_date t ≡ true
    → parse_backup_name (w ++ b'/' ∷ (format_compact_timestamp t ++ codes ".zip")) fallback
      ≡ (or_else (strip_dup_suffix w) (format_compact_timestamp t), some t)
unfolding parse_backup_name
parse_backup_name-stamped w t fallback h ne nd good =
    let s = format_compact_timestamp t in
    let stamp = all-is_stamp t in
    let kept : kept_part w ≡ true =
      ground (arith, text_eq.same_iff w [], text_eq.same_iff w (codes ".")) in
    let names = path_names-snapshot w s h kept stamp in
    rw (names, without_zip-append s, strip_dup_suffix-stamp s stamp)
      (parse_stem-compact w s fallback t (parse_compact_timestamp-format_compact_timestamp t good))
