-- ===== src/Helm.antt =====
-- src/mcdash/helmops.py: memory sizes and Minecraft versions.
pub mod Features
use k3s_minecraft.Prelude.{
  Text, codes, ℕ, ◌+◌, ◌-◌, ◌*◌, ◌/◌, Bool, true, false, ◌&&◌, ◌||◌, not, Option, none, some, List,
  [], ◌∷◌, ◌++◌, if◌then◌else◌, eqb, ltb, is_digit, is_space, is_upper, lower_code, drop_while,
  text_eq, nat_eq, contains, split, all, strip,
}

unfoldable pub rcon_secret_name : Text → Text
unfolding codes
rcon_secret_name world = world ++ codes "-rcon"

unfoldable pub pvc_name : Text → Text
unfolding codes
pvc_name world = world ++ codes "-data"

-- Leading digits and the rest.
unfoldable pub take_digits : Text → Text × Text
unfolding is_digit
take_digits [] = ([], [])
take_digits (c ∷ s) =
    let (ds, rest) = take_digits s in if is_digit c then (c ∷ ds, rest) else ([], c ∷ s)

-- `int(s)` of a text of digits
unfoldable pub number : ℕ → Text → ℕ
number acc [] = acc
number acc (c ∷ s) = number (acc * 10 + (c - b'0')) s

-- `[KMGT]?`, with `re.IGNORECASE`: the unit in upper case, and the rest
unfoldable pub take_unit : Text → Text × Text
unfolding contains lower_code codes is_upper
take_unit [] = ([], [])
take_unit (c ∷ s) =
    if contains (codes "kmgt") (lower_code c)
    then ((if is_upper c then c else c - 32) ∷ [], s)
    else ([], c ∷ s)

-- `i?`
unfoldable pub skip_i : Text → Text
unfolding lower_code
skip_i [] = []
skip_i (c ∷ s) = if eqb (lower_code c) b'i' then s else c ∷ s

abbrev is_nil {ℓ} : {A : Type ℓ} → List A → Bool
is_nil [] = true
is_nil (x ∷ xs) = false

-- The two groups of `\s*(\d+)\s*([KMGT]?)i?\s*`, if the whole text matches.
unfoldable pub memory_groups : Text → Option (Text × Text)
unfolding take_digits take_unit skip_i drop_while is_space
memory_groups s =
    let (ds, rest) = take_digits (drop_while is_space s) in
    let (unit, end) = take_unit (drop_while is_space rest) in
    if not (is_nil ds) && is_nil (drop_while is_space (skip_i end)) then some (ds, unit) else none

-- `none` where the source raises `MCDashError`.
unfoldable pub jvm_memory : Text → Option Text
unfolding memory_groups
jvm_memory s = elim (memory_groups s) [ none ↦ none | some (ds, unit) ↦ some (ds ++ unit) ]

abbrev in_mib : ℕ → Text → ℕ
in_mib n [] = n / (1024 * 1024)
in_mib n (c ∷ s) =
    if eqb c b'K'
    then n / 1024
    else if eqb c b'M'
    then n
    else if eqb c b'G'
    then n * 1024
    else n * 1024 * 1024

unfoldable pub memory_mib : Text → Option ℕ
unfolding memory_groups number
memory_mib s = elim (memory_groups s) [
  | none ↦ none
  | some (ds, unit) ↦ some (in_mib (number 0 ds) unit)
]

-- A version of two or three numbers, the third 0 if it is not there.
pub record Version : Type 0 where
  pub major : ℕ
  pub minor : ℕ
  pub patch : ℕ

unfoldable pub is_number : Text → Bool
unfolding all is_digit
is_number [] = false
is_number (c ∷ s) = all is_digit (c ∷ s)

-- `(\d+)\.(\d+)(?:\.(\d+))?`
unfoldable pub version_of_parts : List Text → Option Version
unfolding is_number number
version_of_parts (a ∷ b ∷ []) =
    if is_number a && is_number b
    then some (record { major = number 0 a; minor = number 0 b; patch = 0 })
    else none
version_of_parts (a ∷ b ∷ c ∷ []) =
    if is_number a && is_number b && is_number c
    then some (record { major = number 0 a; minor = number 0 b; patch = number 0 c })
    else none
version_of_parts _ = none

unfoldable pub version_tuple : Text → Option Version
unfolding version_of_parts split strip
version_tuple s = version_of_parts (split b'.' (strip s))

-- Python's order of tuples
unfoldable pub version_lt : Version → Version → Bool
version_lt a b =
    ltb a.major b.major
    || (eqb a.major b.major
        && (ltb a.minor b.minor || (eqb a.minor b.minor && ltb a.patch b.patch)))

abbrev version : ℕ → ℕ → ℕ → Version
version a b c = record { major = a; minor = b; patch = c }

unfoldable pub java_of : Version → Option Text
unfolding version_lt
java_of t =
    if version_lt t (version 1 17 0)
    then some (codes "java8")
    else if version_lt t (version 1 18 0)
    then some (codes "java16")
    else if version_lt t (version 1 20 5)
    then some (codes "java17")
    else if version_lt t (version 2 0 0)
    then some (codes "java21")
    else none

unfoldable pub java_tag_for : Text → Option Text
unfolding version_tuple java_of
java_tag_for [] = none
java_tag_for (c ∷ s) = elim (version_tuple (c ∷ s)) [ none ↦ none | some t ↦ java_of t ]
