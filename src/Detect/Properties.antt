-- ===== src/Detect/Properties.antt =====
-- src/mcdash/detect.py: `parse_properties`.
use k3s_minecraft.Prelude.{
  Text, ℕ, Bool, true, false, ◌&&◌, ◌||◌, not, Option, none, some, List, [], ◌∷◌, ◌++◌, Dict, put,
  text_eq, if◌then◌else◌, eqb, leb, all, is_space, strip, drop_while, contains, nat_eq, ◌≡◌, refl,
  ap, ◌∙◌, arith,
}
use k3s_minecraft.Naming.{before_dollar}

abbrev pub is_break : ℕ → Bool
is_break c = (leb 10 c && leb c 13) || (leb 28 c && leb c 30)

abbrev in_front : ℕ → List Text → List Text
in_front c [] = (c ∷ []) ∷ []
in_front c (line ∷ lines) = (c ∷ line) ∷ lines

-- `text.splitlines()`; the first argument says that the character before was "\r".
unfoldable pub splitlines : Bool → Text → List Text
splitlines cr [] = []
splitlines cr (c ∷ s) =
    let rest = splitlines (eqb c b'\r') s in
    if cr && eqb c b'\n' then rest else if is_break c then [] ∷ rest else in_front c rest

-- `[^=:\s\\]`
abbrev pub is_plain : ℕ → Bool
is_plain c = not (eqb c b'=' || eqb c b':' || is_space c || eqb c b'\\')

-- The key of a line, as long as it can be, and what follows it: `((?:\\.|[^=:\s\\])+)`
abbrev push : Text → Text × Text → Text × Text
push p (key, rest) = (p ++ key, rest)

unfoldable pub take_key : Text → Text × Text
unfolding is_space
take_key [] = ([], [])
take_key (c ∷ []) = if is_plain c then (c ∷ [], []) else ([], c ∷ [])
take_key (c ∷ d ∷ s) =
    let after_escape = take_key s in
    let after_plain = take_key (d ∷ s) in
    if eqb c b'\\' && not (eqb d b'\n')
    then push (c ∷ d ∷ []) after_escape
    else if is_plain c
    then push (c ∷ []) after_plain
    else ([], c ∷ d ∷ s)

-- `key.replace("\\", "")`
unfoldable pub drop_backslashes : Text → Text
drop_backslashes [] = []
drop_backslashes (c ∷ s) = let rest = drop_backslashes s in if eqb c b'\\' then rest else c ∷ rest

-- `re.sub(r"\\(.)", r"\1", s)`
unfoldable pub unescape : Text → Text
unescape [] = []
unescape (c ∷ []) = c ∷ []
unescape (c ∷ d ∷ s) =
    let after = unescape s in
    let next = unescape (d ∷ s) in if eqb c b'\\' && not (eqb d b'\n') then d ∷ after else c ∷ next

-- `\s*[=:\s]\s*(.*)$` behind a key; `none` where it does not match
abbrev behind_space : Text → Text
behind_space [] = []
behind_space (c ∷ s) = if eqb c b'=' || eqb c b':' then drop_while is_space s else c ∷ s

-- `(.*)$`: no dot matches a newline, and `$` also matches before one at the end.
unfoldable pub one_line : Text → Option Text
unfolding before_dollar contains
one_line s = if contains (before_dollar s) b'\n' then none else some (before_dollar s)

unfoldable pub value_of : Text → Option Text
unfolding drop_while is_space one_line
value_of [] = none
value_of (c ∷ s) =
    if eqb c b'=' || eqb c b':' || is_space c
    then one_line (behind_space (drop_while is_space (c ∷ s)))
    else none

-- A line that is stripped, and neither empty nor a comment.
unfoldable pub entry_of : Text → Text × Text → Option Text → Text × Text
unfolding drop_backslashes unescape
entry_of line ([], rest) v = (line, [])
entry_of line (c ∷ key, rest) none = (line, [])
entry_of line (c ∷ key, rest) (some v) = (drop_backslashes (c ∷ key), unescape v)

unfoldable pub parse_line : Text → Text × Text
unfolding take_key value_of entry_of
parse_line line = let r = take_key line in entry_of line r (value_of r.1)

-- One round of the loop.
unfoldable pub add_line : Dict Text Text → Text → Dict Text Text
unfolding parse_line
add_line props [] = props
add_line props (c ∷ s) =
    let (key, v) = parse_line (c ∷ s) in if eqb c b'#' || eqb c b'!' then props else put props key v

unfoldable pub add_lines : Dict Text Text → List Text → Dict Text Text
unfolding add_line strip
add_lines props [] = props
add_lines props (raw ∷ raws) = add_lines (add_line props (strip raw)) raws

unfoldable pub parse_properties : Text → Dict Text Text
unfolding add_lines splitlines
parse_properties text = add_lines [] (splitlines false text)

-- A key that is not empty, on a line that is no comment.
abbrev is_entry_head : Text → Bool
is_entry_head [] = false
is_entry_head (c ∷ key) = not (eqb c b'#' || eqb c b'!')

-- A key of plain characters, and what follows it.
take_key-plain :
    (key rest : Text) (d : ℕ)
    → all is_plain key ≡ true
    → is_plain d ≡ false
    → eqb d b'\\' ≡ false
    → take_key (key ++ d ∷ rest) ≡ (key, d ∷ rest)
unfolding take_key all
take_key-plain [] [] d h n b = ground arith
take_key-plain [] (r ∷ rest) d h n b = ground arith
take_key-plain (c ∷ []) rest d h n b = ground (arith, take_key-plain [] rest d)
take_key-plain (c ∷ c' ∷ key) rest d h n b = ground (arith, take_key-plain (c' ∷ key) rest d)

drop_backslashes-plain : (key : Text) → all is_plain key ≡ true → drop_backslashes key ≡ key
unfolding drop_backslashes all
drop_backslashes-plain [] h = refl
drop_backslashes-plain (c ∷ key) h = ground (arith, drop_backslashes-plain key)

abbrev is_literal : ℕ → Bool
is_literal c = not (eqb c b'\\')

unescape-literal : (v : Text) → all is_literal v ≡ true → unescape v ≡ v
unfolding unescape all
unescape-literal [] h = refl
unescape-literal (c ∷ []) h = refl
unescape-literal (c ∷ d ∷ v) h = ground (arith, unescape-literal (d ∷ v))

before_dollar-unbroken : (v : Text) → contains v b'\n' ≡ false → before_dollar v ≡ v
unfolding before_dollar contains
before_dollar-unbroken [] h = refl
before_dollar-unbroken (c ∷ []) h = ground (arith, nat_eq.same_iff b'\n' c)
before_dollar-unbroken (c ∷ d ∷ v) h =
    ap (λ t. c ∷ t) (before_dollar-unbroken (d ∷ v) (ground arith))

abbrev is_unbroken : ℕ → Bool
is_unbroken c = not (is_break c)

unbroken-newline : (v : Text) → all is_unbroken v ≡ true → contains v b'\n' ≡ false
unfolding all contains
unbroken-newline [] h = refl
unbroken-newline (c ∷ v) h = ground (arith, nat_eq.same_iff b'\n' c, unbroken-newline v)

-- An entry that a line may hold: a key of plain characters that is no comment, a value with no break
-- and no backslash, and no blank at either end of the line and in front of the value.
pub record IsEntry (key v : Text) : Type 0 where
  pub plain : all is_plain key ≡ true
  pub unbroken : all is_unbroken v ≡ true
  pub literal : all is_literal v ≡ true
  pub no_blank : drop_while is_space v ≡ v
  pub trimmed : strip (key ++ b'=' ∷ v) ≡ key ++ b'=' ∷ v
  pub head : is_entry_head key ≡ true

value_of-equals : (key v : Text) → IsEntry key v → value_of (b'=' ∷ v) ≡ some v
unfolding value_of one_line drop_while is_space
value_of-equals key v h =
    let n = unbroken-newline v h.unbroken in rw (h.no_blank, before_dollar-unbroken v n, n) refl

parse_line-entry :
    (c : ℕ) (key v : Text) → IsEntry (c ∷ key) v → parse_line ((c ∷ key) ++ b'=' ∷ v) ≡ (c ∷ key, v)
unfolding parse_line entry_of
parse_line-entry c key v h =
    let line = (c ∷ key) ++ b'=' ∷ v in
    ap (λ r. entry_of line r (value_of r.1)) (take_key-plain (c ∷ key) v b'=' h.plain refl refl)
    ∙ ap (entry_of line (c ∷ key, b'=' ∷ v)) (value_of-equals (c ∷ key) v h)
    ∙ ap (λ t. (t, unescape v)) (drop_backslashes-plain (c ∷ key) h.plain)
    ∙ ap (λ t. (c ∷ key, t)) (unescape-literal v h.literal)

add_line-entry :
    (props : Dict Text Text) (key v : Text)
    → IsEntry key v
    → add_line props (strip (key ++ b'=' ∷ v)) ≡ put props key v
add_line-entry props [] v h = cc h.head
add_line-entry props (c ∷ key) v h =
    ap (add_line props) h.trimmed
    ∙ unfold add_line in rw (parse_line-entry c key v h) (let k = h.head in ground arith)

-- The text of a properties file, a line for each entry.
abbrev pub write : List (Text × Text) → Text
write [] = []
write ((key, v) ∷ kvs) = (key ++ b'=' ∷ v) ++ b'\n' ∷ write kvs

abbrev pub put_all : Dict Text Text → List (Text × Text) → Dict Text Text
put_all props [] = props
put_all props ((key, v) ∷ kvs) = put_all (put props key v) kvs

abbrev pub AllEntries : List (Text × Text) → Type 0
AllEntries [] = Unit {0}
AllEntries ((key, v) ∷ kvs) = IsEntry key v × AllEntries kvs

splitlines-line :
    (line rest : Text) (cr : Bool)
    → cr ≡ false
    → all is_unbroken line ≡ true
    → splitlines cr (line ++ b'\n' ∷ rest) ≡ line ∷ splitlines false rest
unfolding splitlines all
splitlines-line [] rest cr e h = rw e refl
splitlines-line (c ∷ line) rest cr e h =
    let here : eqb c b'\r' ≡ false = ground arith in
    let k : is_break c ≡ false = ground arith in
    rw (e, k, splitlines-line line rest (eqb c b'\r') here (ground arith)) refl

plain-unbroken : (key : Text) → all is_plain key ≡ true → all is_unbroken key ≡ true
unfolding all is_space
plain-unbroken [] h = refl
plain-unbroken (c ∷ key) h = ground (arith, plain-unbroken key)

all-append : (p : ℕ → Bool) (a b : Text) → all p a ≡ true → all p b ≡ true → all p (a ++ b) ≡ true
unfolding all
all-append p [] b h k = k
all-append p (c ∷ a) b h k = ground (arith, all-append p a b)

add_lines-write :
    (props : Dict Text Text) (kvs : List (Text × Text))
    → AllEntries kvs
    → add_lines props (splitlines false (write kvs)) ≡ put_all props kvs
unfolding add_lines
add_lines-write props [] h = unfold splitlines in refl
add_lines-write props ((key, v) ∷ kvs) (e, h) =
    let whole : all is_unbroken (key ++ b'=' ∷ v) ≡ true =
      all-append is_unbroken key (b'=' ∷ v) (plain-unbroken key e.plain)
        (unfold all in e.unbroken) in
    ap (add_lines props) (splitlines-line (key ++ b'=' ∷ v) (write kvs) false refl whole)
    ∙ ap (λ d. add_lines d (splitlines false (write kvs))) (add_line-entry props key v e)
    ∙ add_lines-write (put props key v) kvs h

-- A file of lines `key=value` is parsed to its entries, of which the last one of a key counts. No key
-- is empty, begins a comment or has a blank, a colon, an equals sign or a backslash; no value has
-- a backslash, a line break or a blank at an end.
pub parse_properties-write :
    (kvs : List (Text × Text)) → AllEntries kvs → parse_properties (write kvs) ≡ put_all [] kvs
unfolding parse_properties
parse_properties-write kvs h = add_lines-write [] kvs h
