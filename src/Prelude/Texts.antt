-- ===== src/Prelude/Texts.antt =====
-- Python texts as lists of code points. The methods are those of ASCII text.
use Prim.Native.Nat.{ℕ, suc, ◌+◌, ◌-◌}
use Prim.Native.Char.{code}
use Prim.Native.String.{String}
use mathlib.Core.Bool.{Bool, true, false, ◌&&◌, ◌||◌}
use mathlib.Core.List.{List, [], ◌∷◌, ◌++◌}
use k3s_minecraft.Prelude.Tests.{eqb, leb, if◌then◌else◌}
use k3s_minecraft.Prelude.Lists.{length, take, drop}
use k3s_minecraft.Prelude.Keys.{HasEq, list_beq, list_beq_iff, nat_eq}

abbrev pub Text : Type 0
Text = List ℕ

instance abbrev pub text_eq : HasEq Text
text_eq = record { same = list_beq; same_iff = list_beq_iff }

-- The code points of a literal.
unfoldable pub codes : String → Text
codes String.[] = []
codes (String.◌∷◌ c s) = code c ∷ codes s

unfoldable pub is_space : ℕ → Bool
is_space c = (leb 9 c && leb c 13) || (leb 28 c && leb c 32)

unfoldable pub is_digit : ℕ → Bool
is_digit c = leb b'0' c && leb c b'9'

unfoldable pub is_upper : ℕ → Bool
is_upper c = leb b'A' c && leb c b'Z'

unfoldable pub is_lower : ℕ → Bool
is_lower c = leb b'a' c && leb c b'z'

unfoldable pub is_alpha : ℕ → Bool
unfolding is_lower is_upper
is_alpha c = is_lower c || is_upper c

unfoldable pub lower_code : ℕ → ℕ
unfolding is_upper
lower_code c = if is_upper c then c + 32 else c

-- `s.lower()`
unfoldable pub lower : Text → Text
unfolding lower_code
lower [] = []
lower (c ∷ s) = lower_code c ∷ lower s

-- Text without its leading characters that pass the test.
unfoldable pub drop_while : (ℕ → Bool) → Text → Text
drop_while p [] = []
drop_while p (c ∷ s) = let rest = drop_while p s in if p c then rest else c ∷ s

-- Text without its trailing characters that pass the test.
unfoldable pub drop_while_end : (ℕ → Bool) → Text → Text
drop_while_end p [] = []
drop_while_end p (c ∷ s) = elim (drop_while_end p s) [
  | [] ↦ if p c then [] else c ∷ []
  | d ∷ t ↦ c ∷ d ∷ t
]

-- `s.lstrip()`, `s.strip()`
unfoldable pub lstrip : Text → Text
unfolding drop_while is_space
lstrip = drop_while is_space

unfoldable pub strip : Text → Text
unfolding drop_while drop_while_end is_space
strip s = drop_while_end is_space (drop_while is_space s)

-- `s.startswith(t)`
unfoldable pub starts_with : Text → Text → Bool
starts_with s [] = true
starts_with [] (d ∷ t) = false
starts_with (c ∷ s) (d ∷ t) = eqb c d && starts_with s t

-- `s[:-n]`, for an `n` that is not 0
unfoldable pub drop_end : ℕ → Text → Text
drop_end n s = take (length s - n) s

-- `s.endswith(t)`
unfoldable pub ends_with : Text → Text → Bool
unfolding list_beq
ends_with s t = leb (length t) (length s) && list_beq (drop (length s - length t) s) t

-- `t in s`
unfoldable pub has_infix : Text → Text → Bool
unfolding starts_with
has_infix [] t = starts_with [] t
has_infix (c ∷ s) t = starts_with (c ∷ s) t || has_infix s t

-- `s.count(c)`
unfoldable pub count : ℕ → Text → ℕ
count c [] = 0
count c (d ∷ s) = if eqb d c then suc (count c s) else count c s

-- `s.replace(c, d)` of single characters
unfoldable pub replace_char : ℕ → ℕ → Text → Text
replace_char c d [] = []
replace_char c d (x ∷ s) = (if eqb x c then d else x) ∷ replace_char c d s

-- `s.split(sep)` for a separator of one character
unfoldable pub split : ℕ → Text → List Text
split sep [] = [] ∷ []
split sep (c ∷ s) = elim (split sep s) [
  | [] ↦ [] ∷ []
  | part ∷ parts ↦ if eqb c sep then [] ∷ part ∷ parts else (c ∷ part) ∷ parts
]

-- `sep.join(parts)`
unfoldable pub join : Text → List Text → Text
join sep [] = []
join sep (p ∷ []) = p
join sep (p ∷ q ∷ ps) = p ++ sep ++ join sep (q ∷ ps)
