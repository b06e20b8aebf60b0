-- ===== src/Jobs/Seed/Paths.antt =====
-- src/mcdash/jobs/seed.py: a path that `safe_relpath` returns stays below the destination.
use k3s_minecraft.Prelude.{
  Text, codes, ℕ, Bool, true, false, ◌||◌, not, some, List, [], ◌∷◌, ◌++◌, append-nil, append_assoc,
  text_eq, nat_eq, ◌==◌, contains, if◌then◌else◌, eqb, all, select, split, replace_char,
  starts_with, ◌≡◌, refl, sym, ◌∙◌, arith, Bool-cases, inl, inr, subst,
}
use k3s_minecraft.Jobs.Seed.{path_parts, safe_parts, safe_relpath, is_drive, parent}

-- A part that names an entry of a directory.
unfoldable pub is_name : Text → Bool
unfolding codes
is_name p = not (p == [] || p == codes "." || p == codes ".." || contains p b'/')

-- What the system makes of a path from a directory, itself a list of parts.
unfoldable pub resolve : List Text → List Text → List Text
unfolding codes
resolve base [] = base
resolve base (p ∷ ps) =
    let here = resolve base ps in
    let up = resolve (parent base) ps in
    let down = resolve (base ++ p ∷ []) ps in
    if p == [] || p == codes "." then here else if p == codes ".." then up else down

-- Names lead straight down.
pub resolve-names : (base ps : List Text) → all is_name ps ≡ true → resolve base ps ≡ base ++ ps
unfolding resolve all is_name
resolve-names base [] h = sym (append-nil base)
resolve-names base (p ∷ ps) h =
    let e = resolve-names (base ++ p ∷ []) ps (ground arith) in
    let f = append_assoc base (p ∷ []) ps in
    let here : (p == [] || p == codes ".") ≡ false = ground arith in
    let up : (p == codes "..") ≡ false = ground arith in rw (here, up) (e ∙ f)

abbrev lacks_slash : Text → Bool
lacks_slash p = not (contains p b'/')

all-in_front :
    (c : ℕ) (p : Text) → eqb c b'/' ≡ false → lacks_slash p ≡ true → lacks_slash (c ∷ p) ≡ true
unfolding contains
all-in_front c p h k = ground arith

all-split : (s : Text) → all lacks_slash (split b'/' s) ≡ true
unfolding all split contains
all-split [] = refl
all-split (c ∷ s) = go (split b'/' s) (all-split s)
  where
    go :
        (ps : List Text)
        → all lacks_slash ps ≡ true
        → all lacks_slash (elim ps [
          | [] ↦ [] ∷ []
          | part ∷ parts ↦ if eqb c b'/' then [] ∷ part ∷ parts else (c ∷ part) ∷ parts
        ])
          ≡ true
    go [] h = refl
    go (p ∷ ps) h = elim (Bool-cases (eqb c b'/')) [
      | inl same ↦ rw same (ground arith)
      | inr other ↦ rw other (ground (arith, all-in_front c p other))
    ]

module _ (q p : Text → Bool) where
  all-select : (xs : List Text) → all q xs ≡ true → all q (select p xs) ≡ true
  unfolding all select
  all-select [] h = refl
  all-select (x ∷ xs) h = ground (arith, all-select xs)

  all-select_own : (xs : List Text) → all p (select p xs) ≡ true
  unfolding all select
  all-select_own [] = refl
  all-select_own (x ∷ xs) = ground (arith, all-select_own xs)

pub all-is_name :
    (ps : List Text)
    → all lacks_slash ps ≡ true
    → all (λ x. not (x == [] || x == codes ".")) ps ≡ true
    → contains ps (codes "..") ≡ false
    → all is_name ps ≡ true
unfolding all is_name contains
all-is_name [] h k l = refl
all-is_name (p ∷ ps) h k l =
    ground (arith, text_eq.same_iff (codes "..") p, text_eq.same_iff p (codes ".."), all-is_name ps)

safe_parts-names :
    (xs ps : List Text)
    → all lacks_slash xs ≡ true
    → all (λ x. not (x == [] || x == codes ".")) xs ≡ true
    → safe_parts xs ≡ some ps
    → all is_name ps ≡ true
unfolding safe_parts
safe_parts-names [] ps h k e = cc
safe_parts-names (x ∷ xs) ps h k e = elim (Bool-cases (contains (x ∷ xs) (codes ".."))) [
  | inl up ↦ absurd (ground arith)
  | inr down ↦ elim (Bool-cases (is_drive x)) [
    | inl drive ↦ absurd (ground arith)
    | inr plain ↦
        let f : x ∷ xs ≡ ps = ground arith in
        subst (λ t. all is_name t ≡ true) f (all-is_name (x ∷ xs) h k down)
  ]
]

pub path_parts-plain : (rel : Text) → all lacks_slash (path_parts rel) ≡ true
unfolding path_parts
path_parts-plain rel = all-select lacks_slash _ (split b'/' rel) (all-split rel)

pub path_parts-kept :
    (rel : Text) → all (λ x. not (x == [] || x == codes ".")) (path_parts rel) ≡ true
unfolding path_parts
path_parts-kept rel = all-select_own lacks_slash _ (split b'/' rel)

-- The parts that `safe_relpath` returns are names.
pub safe_relpath-names :
    (rel : Text) (ps : List Text) → safe_relpath rel ≡ some ps → all is_name ps ≡ true
unfolding safe_relpath
safe_relpath-names rel ps h =
    let r = replace_char b'\\' b'/' rel in
    elim (Bool-cases (starts_with r (codes "/"))) [
      | inl absolute ↦ absurd (ground arith)
      | inr relative ↦
          safe_parts-names (path_parts r) ps (path_parts-plain r) (path_parts-kept r) (ground arith)
    ]
