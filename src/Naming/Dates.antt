-- ===== src/Naming/Dates.antt =====
-- src/mcdash/naming.py: timestamps, and the names of backups. A `datetime` is its fields, in UTC.
use k3s_minecraft.Prelude.{
  Text, ℕ, ◌+◌, ◌-◌, ◌*◌, ◌/◌, ◌%◌, Bool, true, false, ◌&&◌, ◌||◌, not, Option, none, some, [], ◌∷◌,
  ◌++◌, nat_eq, text_eq, ◌==◌, if◌then◌else◌, eqb, leb, ltb, length, take, drop, all, is_digit,
  is_space, strip,
}
use k3s_minecraft.Naming.{before_dollar}

-- `_DUP_SUFFIX`: where a match from here to the end is. `$` also matches before a last newline,
-- which `strip` takes away in any case.
pub data DupState : Type 0 where
  gap digits_due in_digits closed refused : DupState

unfoldable pub dup_step : DupState → ℕ → DupState
unfolding is_space is_digit
dup_step gap c = if is_space c then gap else if eqb c b'(' then digits_due else refused
dup_step digits_due c = if is_digit c then in_digits else refused
dup_step in_digits c = if is_digit c then in_digits else if eqb c b')' then closed else refused
dup_step closed c = if is_space c then gap else if eqb c b'(' then digits_due else refused
dup_step refused c = refused

unfoldable pub is_dups : DupState → Text → Bool
unfolding dup_step
is_dups closed [] = true
is_dups _ [] = false
is_dups st (c ∷ s) = is_dups (dup_step st c) s

-- The text before the first place where the pattern matches.
unfoldable pub cut_dups : Text → Text
unfolding is_dups before_dollar
cut_dups [] = []
cut_dups (c ∷ s) =
    let rest = cut_dups s in if is_dups gap (before_dollar (c ∷ s)) then [] else c ∷ rest

unfoldable pub strip_dup_suffix : Text → Text
unfolding cut_dups strip
strip_dup_suffix stem = strip (cut_dups stem)

pub record DateTime : Type 0 where
  pub year : ℕ
  pub month : ℕ
  pub day : ℕ
  pub hour : ℕ
  pub minute : ℕ
  pub second : ℕ

unfoldable pub is_leap : ℕ → Bool
is_leap y = eqb (y % 4) 0 && (not (eqb (y % 100) 0) || eqb (y % 400) 0)

unfoldable pub days_in : ℕ → ℕ → ℕ
unfolding is_leap
days_in y m =
    if eqb m 2
    then (if is_leap y then 29 else 28)
    else if eqb m 4 || eqb m 6 || eqb m 9 || eqb m 11
    then 30
    else 31

-- `datetime(...)` raises `ValueError` for other fields.
unfoldable pub is_date : DateTime → Bool
unfolding days_in
is_date t =
    leb 1 t.year
    && leb t.year 9999
    && leb 1 t.month
    && leb t.month 12
    && leb 1 t.day
    && leb t.day (days_in t.year t.month)
    && ltb t.hour 24
    && ltb t.minute 60
    && ltb t.second 60

abbrev pub checked : DateTime → Option DateTime
checked t = if is_date t then some t else none

abbrev digit : ℕ → ℕ
digit c = c - b'0'

abbrev two : ℕ → ℕ → ℕ
two c d = digit c * 10 + digit d

-- `strptime(..., "%Y%m%d%H%M%S")` of fourteen digits
unfoldable pub date_of : Text → Option DateTime
unfolding is_date
date_of (a ∷ b ∷ c ∷ d ∷ mo ∷ mo' ∷ dd ∷ dd' ∷ h ∷ h' ∷ mi ∷ mi' ∷ s ∷ s' ∷ []) = checked (record {
  year = two a b * 100 + two c d;
  month = two mo mo';
  day = two dd dd';
  hour = two h h';
  minute = two mi mi';
  second = two s s';
})
date_of _ = none

-- One optional character: `T?` and `Z?`, with `re.IGNORECASE`
unfoldable pub skip_letter : ℕ → ℕ → Text → Text
skip_letter up low [] = []
skip_letter up low (c ∷ s) = if eqb c up || eqb c low then s else c ∷ s

-- `_COMPACT`, and the date that it matches
unfoldable pub compact_time : Text → Text → Option DateTime
unfolding all is_digit skip_letter date_of before_dollar
compact_time date s =
    if all is_digit date
      && eqb (length date) 8
      && all is_digit (take 6 s)
      && eqb (length (take 6 s)) 6
      && before_dollar (skip_letter b'Z' b'z' (drop 6 s)) == []
    then date_of (date ++ take 6 s)
    else none

unfoldable pub parse_compact_timestamp : Text → Option DateTime
unfolding compact_time skip_letter
parse_compact_timestamp stem = compact_time (take 8 stem) (skip_letter b'T' b't' (drop 8 stem))

abbrev pub digits : ℕ → Text
digits n = (b'0' + n / 10 % 10) ∷ (b'0' + n % 10) ∷ []

-- A year has four digits, from the year 1000 on.
unfoldable pub format_compact_timestamp : DateTime → Text
format_compact_timestamp t =
    digits (t.year / 100)
    ++ (digits t.year
        ++ (digits t.month
            ++ (digits t.day
                ++ (b'T' ∷ digits t.hour ++ (digits t.minute ++ (digits t.second ++ b'Z' ∷ []))))))
