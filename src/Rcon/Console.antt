-- ===== src/Rcon/Console.antt =====
-- src/mcdash/rcon.py: `parse_list`, the players in the output of the command "list".
use k3s_minecraft.Prelude.{
  Text, codes, ℕ, true, Option, none, some, List, [], ◌∷◌, ◌++◌, ◌≡◌, ◌≢◌, refl, ◌∙◌, ap, arith,
  if◌then◌else◌, eqb, all, split, append_assoc, lacks, split-lacks, split-append, strip, join,
  drop_while, is_space,
}

-- What stands behind the first `sep`: `s.partition(sep)[2]`, if there is one.
unfoldable pub after_sep : ℕ → Text → Option Text
after_sep sep [] = none
after_sep sep (c ∷ s) = let rest = after_sep sep s in if eqb c sep then some s else rest

-- `p` in front, unless it is empty
unfoldable pub keep : Text → List Text → List Text
keep [] ps = ps
keep (c ∷ p) ps = (c ∷ p) ∷ ps

-- `[p.strip() for p in parts if p.strip()]`
unfoldable pub strip_parts : List Text → List Text
unfolding keep strip
strip_parts [] = []
strip_parts (p ∷ ps) = keep (strip p) (strip_parts ps)

unfoldable pub names_in : Option Text → List Text
unfolding strip_parts split
names_in none = []
names_in (some rest) = strip_parts (split b',' rest)

unfoldable pub parse_list : Text → List Text
unfolding after_sep names_in
parse_list output = names_in (after_sep b':' output)

-- A name as `list` prints it: not blank at its ends, without a comma.
pub record IsPrinted (n : Text) : Type 0 where
  pub trimmed : strip n ≡ n
  pub some_text : n ≢ []
  pub no_comma : lacks b',' n ≡ true

pub data AllPrinted : List Text → Type 0 where
  nil : AllPrinted []
  cons : {n : Text} {ns : List Text} → IsPrinted n → AllPrinted ns → AllPrinted (n ∷ ns)

strip-space : (n : Text) → strip (b' ' ∷ n) ≡ strip n
unfolding strip drop_while is_space
strip-space n = refl

keep-text : (n : Text) (ps : List Text) → n ≢ [] → keep n ps ≡ n ∷ ps
unfolding keep
keep-text [] ps h = absurd (h refl)
keep-text (c ∷ n) ps h = refl

keep-printed : (n : Text) (ps : List Text) → IsPrinted n → keep (strip (b' ' ∷ n)) ps ≡ n ∷ ps
keep-printed n ps h = rw (strip-space n, h.trimmed) (keep-text n ps h.some_text)

lacks-space : (n : Text) → lacks b',' n ≡ true → lacks b',' (b' ' ∷ n) ≡ true
unfolding all
lacks-space n h = ground arith

parts_lem :
    (n : Text) (ns : List Text)
    → AllPrinted (n ∷ ns)
    → strip_parts (split b',' (b' ' ∷ join (codes ", ") (n ∷ ns))) ≡ n ∷ ns
unfolding strip_parts join codes
parts_lem n [] (cons h hs) =
    rw (split-lacks b',' (b' ' ∷ n) (lacks-space n h.no_comma)) (keep-printed n [] h)
parts_lem n (m ∷ ns) (cons h hs) =
    let rest = join (codes ", ") (m ∷ ns) in
    ap (λ t. strip_parts (split b',' (b' ' ∷ t))) (append_assoc n (codes ", ") rest)
    ∙ ap strip_parts (split-append b',' (b' ' ∷ n) (b' ' ∷ rest) (lacks-space n h.no_comma))
    ∙ keep-printed n (strip_parts (split b',' (b' ' ∷ rest))) h
    ∙ ap (λ t. n ∷ t) (parts_lem m ns hs)

after_sep-append :
    (sep : ℕ) (p t : Text) → lacks sep p ≡ true → after_sep sep (p ++ sep ∷ t) ≡ some t
unfolding after_sep all
after_sep-append sep [] t h = ground arith
after_sep-append sep (c ∷ p) t h = ground (arith, after_sep-append sep p t)

-- The names that the server prints behind a colon, with a comma and a space between two, are those
-- that `parse_list` returns, provided none has a comma, is blank or begins or ends with a space, and
-- that no colon stands before.
pub parse_list-join :
    (intro : Text) (n : Text) (ns : List Text)
    → lacks b':' intro ≡ true
    → AllPrinted (n ∷ ns)
    → parse_list (intro ++ b':' ∷ b' ' ∷ join (codes ", ") (n ∷ ns)) ≡ n ∷ ns
unfolding parse_list
parse_list-join intro n ns h hs =
    ap names_in (after_sep-append b':' intro (b' ' ∷ join (codes ", ") (n ∷ ns)) h)
    ∙ unfold names_in in parts_lem n ns hs
