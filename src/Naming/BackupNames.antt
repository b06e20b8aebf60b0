-- ===== src/Naming/BackupNames.antt =====
-- src/mcdash/naming.py: `parse_backup_name`. The date of a file's `mtime` is a parameter.
use k3s_minecraft.Prelude.{
  Text, codes, ℕ, ◌+◌, ◌-◌, ◌*◌, Bool, ◌&&◌, ◌||◌, not, Option, none, some, List, [], ◌∷◌, nat_eq,
  text_eq, ◌==◌, contains, if◌then◌else◌, eqb, length, take, drop, all, is_digit, is_space, lower,
  ends_with, drop_end, select, split, drop_while,
}
use k3s_minecraft.Naming.Dates.{
  strip_dup_suffix, DateTime, is_date, checked, parse_compact_timestamp,
}

-- `int(s)` of digits
unfoldable pub int_of : ℕ → Text → ℕ
int_of acc [] = acc
int_of acc (c ∷ s) = int_of (acc * 10 + (c - b'0')) s

-- The fields of `_DATED`: the date, the time if there is one, and the name if there is one.
pub record Dated : Type 0 where
  pub y : Text
  pub mo : Text
  pub d : Text
  pub time : Option (Text × Text × Text)
  pub name : Option Text

unfoldable pub year_of : Text → ℕ
unfolding int_of
year_of y = if eqb (length y) 2 then int_of 0 y + 2000 else int_of 0 y

-- `_mk`
unfoldable pub mk : Dated → Option DateTime
unfolding year_of int_of is_date
mk m = elim m.time [
  | none ↦ checked (record {
    year = year_of m.y;
    month = int_of 0 m.mo;
    day = int_of 0 m.d;
    hour = 0;
    minute = 0;
    second = 0;
  })
  | some (h, mi, s) ↦ checked (record {
    year = year_of m.y;
    month = int_of 0 m.mo;
    day = int_of 0 m.d;
    hour = int_of 0 h;
    minute = int_of 0 mi;
    second = int_of 0 s;
  })
]

-- `\d{n}` at the front
unfoldable pub take_number : ℕ → Text → Option (Text × Text)
unfolding is_digit all
take_number n s =
    if eqb (length (take n s)) n && all is_digit (take n s) then some (take n s, drop n s) else none

-- A character of the set at the front
unfoldable pub take_sep : (ℕ → Bool) → Text → Option Text
take_sep p [] = none
take_sep p (c ∷ s) = if p c then some s else none

unfoldable pub then_take : {A B : Type 0} → Option A → (A → Option B) → Option B
then_take none f = none
then_take (some a) f = f a

infixl 5 ◌>>=◌
abbrev pub ◌>>=◌ : {A B : Type 0} → Option A → (A → Option B) → Option B
m >>= f = then_take m f

abbrev dash : ℕ → Bool
dash c = eqb c b'-'

-- `[-_+.T\s]`, `[-_.:]` and `[-_+.\s]`
unfoldable pub is_before_time : ℕ → Bool
unfolding is_space contains codes
is_before_time c = contains (codes "-_+.T") c || is_space c

unfoldable pub is_in_time : ℕ → Bool
unfolding contains codes
is_in_time c = contains (codes "-_.:") c

unfoldable pub is_before_name : ℕ → Bool
unfolding is_space contains codes
is_before_name c = contains (codes "-_+.") c || is_space c

unfoldable pub last_of : ℕ → Text → ℕ
last_of c [] = c
last_of c (d ∷ s) = last_of d s

-- `(?:[-_+.\s]+(?P<name>.+))?$`, in a stem without blanks at its ends. Where only separators are
-- left, the last one is the name.
abbrev name_of : ℕ → Text → Text → Option (Option Text)
name_of c [] [] = none
name_of c (d ∷ s) [] = some (some (last_of d s ∷ []))
name_of c s (e ∷ rest) = if contains (e ∷ rest) b'\n' then none else some (some (e ∷ rest))

unfoldable pub take_name : Text → Option (Option Text)
unfolding drop_while is_before_name last_of contains
take_name [] = some none
take_name (c ∷ s) = if is_before_name c then name_of c s (drop_while is_before_name s) else none

abbrev Time : Type 0
Time = Text × Text × Text

unfoldable pub take_time : Text → Option (Time × Text)
unfolding take_number take_sep is_before_time is_in_time then_take
take_time s = do
  s₁ ← take_sep is_before_time s
  (h, s₂) ← take_number 2 s₁
  s₃ ← take_sep is_in_time s₂
  (mi, s₄) ← take_number 2 s₃
  s₅ ← take_sep is_in_time s₄
  (sec, s₆) ← take_number 2 s₅
  some ((h, mi, sec), s₆)

-- The time is optional, and left out where the rest does not match behind it.
unfoldable pub with_time : Text → Option (Time × Option Text)
unfolding take_time take_name then_take
with_time s = do (t, rest) ← take_time s; name ← take_name rest; some (t, name)

unfoldable pub dated_rest : Text → Text → Text → Text → Option Dated
unfolding with_time take_name then_take
dated_rest y mo d s = elim (with_time s) [
  | some (t, name) ↦ some (record { y = y; mo = mo; d = d; time = some t; name = name })
  | none ↦ do name ← take_name s; some (record { y = y; mo = mo; d = d; time = none; name = name })
]

unfoldable pub take_year : Text → Option (Text × Text)
unfolding take_number take_sep then_take
take_year s = elim (take_number 4 s) [ some r ↦ some r | none ↦ take_number 2 s ]

-- `_DATED.match`
unfoldable pub match_dated : Text → Option Dated
unfolding take_year take_number take_sep dated_rest then_take
match_dated s = do
  (y, s₁) ← take_year s
  s₂ ← take_sep dash s₁
  (mo, s₃) ← take_number 2 s₂
  s₄ ← take_sep dash s₃
  (d, s₅) ← take_number 2 s₄
  dated_rest y mo d s₅

-- `PurePosixPath(relpath).parent.name` and `.name`: the last two parts.
unfoldable pub last_two : Text → Text → List Text → Text × Text
last_two before name [] = (before, name)
last_two before name (p ∷ ps) = last_two name p ps

unfoldable pub path_names : Text → Text × Text
unfolding last_two select split codes
path_names relpath =
    last_two [] [] (select (λ x. not (x == [] || x == codes ".")) (split b'/' relpath))

unfoldable pub without_zip : Text → Text
unfolding ends_with lower codes drop_end
without_zip stem = if ends_with (lower stem) (codes ".zip") then drop_end 4 stem else stem

-- `a or b` of texts
abbrev pub or_else : Text → Text → Text
or_else [] b = b
or_else (c ∷ a) b = c ∷ a

-- The last branch, for the fields that `_DATED` matches.
unfoldable pub name_with_date : Text → Option DateTime → Option Dated → Text × Option DateTime
unfolding mk strip_dup_suffix
name_with_date stem fallback none = (stem, fallback)
name_with_date stem fallback (some m) = elim m.name [
  | none ↦ (stem, fallback)
  | some name ↦ elim (mk m) [ none ↦ (stem, fallback) | some ts ↦ (strip_dup_suffix name, some ts) ]
]

unfoldable pub parse_stem : Text → Text → Option DateTime → Text × Option DateTime
unfolding parse_compact_timestamp strip_dup_suffix name_with_date match_dated
parse_stem parent stem fallback = elim (parse_compact_timestamp stem) [
  | some ts ↦ (or_else (strip_dup_suffix parent) stem, some ts)
  | none ↦ name_with_date stem fallback (match_dated stem)
]

-- `fallback` is the date of `mtime`, if that is given.
unfoldable pub parse_backup_name : Text → Option DateTime → Text × Option DateTime
unfolding path_names without_zip strip_dup_suffix parse_stem
parse_backup_name relpath fallback =
    let (parent, name) = path_names relpath in
    parse_stem parent (strip_dup_suffix (without_zip name)) fallback
