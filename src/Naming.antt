-- ===== src/Naming.antt =====
-- src/mcdash/naming.py: world names.
pub mod Labels
pub mod Search
pub mod Candidates
pub mod Unique
pub mod Dates
pub mod BackupNames
pub mod Stamps
pub mod Snapshots
use k3s_minecraft.Prelude.{
  Text, codes, ℕ, zero, suc, ◌+◌, ◌-◌, Bool, true, false, ◌&&◌, ◌||◌, not, Option, none, some, List,
  [], ◌∷◌, ◌++◌, if◌then◌else◌, eqb, leb, length, take, is_lower, is_alpha, is_digit, lower, strip,
  drop_while, drop_while_end, contains, list_beq, text_eq, nat_eq, str,
}

abbrev pub max_world_name : ℕ
max_world_name = 40

abbrev pub dash : ℕ
dash = b'-'

unfoldable pub is_dash : ℕ → Bool
is_dash c = eqb c dash

-- `[a-z0-9]` and `[-a-z0-9]`
unfoldable pub is_alnum : ℕ → Bool
unfolding is_lower is_digit
is_alnum c = is_lower c || is_digit c

unfoldable pub is_dns : ℕ → Bool
unfolding is_alnum is_dash
is_dns c = is_alnum c || is_dash c

-- `re.sub("[class]+", "-", s)`; the first argument says that a run is being replaced.
unfoldable pub sub_runs : (ℕ → Bool) → Bool → Text → Text
sub_runs bad inside [] = []
sub_runs bad inside (c ∷ s) = elim (bad c) [
  | false ↦ c ∷ sub_runs bad false s
  | true ↦ if inside then sub_runs bad true s else dash ∷ sub_runs bad true s
]

-- `s.replace("_", "-")`
unfoldable pub dash_for_underscore : Text → Text
dash_for_underscore [] = []
dash_for_underscore (c ∷ s) = (if eqb c b'_' then dash else c) ∷ dash_for_underscore s

-- `s.strip("-")`
unfoldable pub strip_dashes : Text → Text
unfolding drop_while drop_while_end is_dash
strip_dashes s = drop_while_end is_dash (drop_while is_dash s)

-- The two tests on the text that the regular expressions leave.
unfoldable pub or_world : Text → Text
unfolding codes
or_world [] = codes "world"
or_world (c ∷ s) = c ∷ s

unfoldable pub with_letter : Text → Text
unfolding is_alpha codes
with_letter [] = []
with_letter (c ∷ s) = if is_alpha c then c ∷ s else codes "w-" ++ c ∷ s

unfoldable pub sanitize_world_name : Text → Text
unfolding sub_runs dash_for_underscore strip_dashes or_world with_letter is_dns lower strip
sanitize_world_name raw =
    let s = sub_runs (λ c. not (is_dns c)) false (dash_for_underscore (lower (strip raw))) in
    let t = strip_dashes (sub_runs is_dash false s) in
    drop_while_end is_dash (take max_world_name (with_letter (or_world t)))

-- `([-a-z0-9]*[a-z0-9])?` up to the end
unfoldable pub is_label_tail : Text → Bool
unfolding is_dns
is_label_tail [] = true
is_label_tail (c ∷ []) = is_alnum c
is_label_tail (c ∷ d ∷ s) = is_dns c && is_label_tail (d ∷ s)

unfoldable pub is_label : Text → Bool
unfolding is_label_tail
is_label [] = false
is_label (c ∷ s) = is_lower c && is_label_tail s

-- What `$` lets stand behind a match: nothing, or one newline at the very end.
unfoldable pub before_dollar : Text → Text
before_dollar [] = []
before_dollar (c ∷ []) = if eqb c b'\n' then [] else c ∷ []
before_dollar (c ∷ d ∷ s) = c ∷ before_dollar (d ∷ s)

unfoldable pub is_valid_world_name : Text → Bool
unfolding is_label before_dollar
is_valid_world_name name =
    leb (length name) max_world_name && (is_label name || is_label (before_dollar name))

-- `base[: a - b]`: a negative bound counts from the end.
unfoldable pub slice_to : Text → ℕ → ℕ → Text
slice_to base a b = if leb b a then take (a - b) base else take (length base - (b - a)) base

unfoldable pub candidate : Text → ℕ → Text
unfolding slice_to drop_while_end is_dash str
candidate base n =
    let suffix = dash ∷ str n in
    drop_while_end is_dash (slice_to base max_world_name (length suffix)) ++ suffix

-- `while True`, from `n` on, with fuel; `none` means that the fuel ran out.
unfoldable pub first_free : (ℕ → Text) → List Text → ℕ → ℕ → Option Text
unfolding contains list_beq
first_free name taken zero n = none
first_free name taken (suc f) n =
    let rest = first_free name taken f (n + 1) in
    if contains taken (name n) then rest else some (name n)

-- The loop gets one round more than there are names taken.
unfoldable pub unique_name : Text → List Text → Option Text
unfolding sanitize_world_name candidate first_free
unique_name base taken =
    let s = sanitize_world_name base in
    if contains taken s then first_free (candidate s) taken (suc (length taken)) 2 else some s
