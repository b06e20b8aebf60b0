-- ===== src/Jobs/Snapshot/ArcNames.antt =====
-- src/mcdash/jobs: what the seed Job makes of the names that a snapshot is written under.
use k3s_minecraft.Prelude.{
  Text, codes, ℕ, Bool, true, false, ◌||◌, not, Option, none, some, List, [], ◌∷◌, ◌++◌, append-nil,
  append_assoc, nat_eq, text_eq, ◌==◌, list_beq, contains, eqb, all, select, split, join, lacks,
  split-lacks, split-append, replace_char, starts_with, ◌≡◌, ◌≢◌, refl, sym, ◌∙◌, ap, subst, arith,
}
use k3s_minecraft.Jobs.Seed.{
  excluded_top, is_drive, path_parts, safe_parts, safe_relpath, top_of, map_member,
}
use k3s_minecraft.Jobs.Seed.Paths.{is_name}
use k3s_minecraft.Jobs.Seed.Members.{map_member-full}
use k3s_minecraft.Jobs.Snapshot.{arc_name}
use k3s_minecraft.Jobs.Snapshot.Names.{is_plain}

abbrev slash : Text
slash = b'/' ∷ []

-- Names do not hold the separator, nor the other one.
lacks-contains : (c : ℕ) (p : Text) → contains p c ≡ false → lacks c p ≡ true
unfolding contains all
lacks-contains c [] h = refl
lacks-contains c (d ∷ p) h = ground (arith, lacks-contains c p)

lacks-is_plain : (p : Text) → is_plain p ≡ true → lacks b'/' p ≡ true
unfolding is_plain is_name
lacks-is_plain p h = lacks-contains b'/' p (ground arith)

replace_char-lacks :
    (c d : ℕ) (p t : Text)
    → contains p c ≡ false
    → replace_char c d (p ++ t) ≡ p ++ replace_char c d t
unfolding replace_char contains
replace_char-lacks c d [] t h = refl
replace_char-lacks c d (x ∷ p) t h =
    let e = replace_char-lacks c d p t (ground arith) in
    let other : eqb x c ≡ false = ground arith in rw other (ap (λ s. x ∷ s) e)

no_backslash : (p : Text) → is_plain p ≡ true → contains p b'\\' ≡ false
unfolding is_plain
no_backslash p h = ground arith

module _ (t : Text) where
  replace_char-join :
      (p : Text) (ps : List Text)
      → all is_plain (p ∷ ps) ≡ true
      → replace_char b'\\' b'/' (join (codes "/") (p ∷ ps) ++ t)
        ≡ join (codes "/") (p ∷ ps) ++ replace_char b'\\' b'/' t
  unfolding join all codes replace_char
  replace_char-join p [] h = replace_char-lacks b'\\' b'/' p t (no_backslash p (ground arith))
  replace_char-join p (q ∷ ps) h =
      let rest = join (codes "/") (q ∷ ps) in
      ap (replace_char b'\\' b'/')
        (append_assoc (p ++ codes "/") rest t ∙ append_assoc p (codes "/") (rest ++ t))
      ∙ replace_char-lacks b'\\' b'/' p (codes "/" ++ (rest ++ t)) (no_backslash p (ground arith))
      ∙ ap (λ s. p ++ b'/' ∷ s) (replace_char-join q ps (ground arith))
      ∙ sym (
          append_assoc (p ++ codes "/") rest (replace_char b'\\' b'/' t)
          ∙ append_assoc p (codes "/") (rest ++ replace_char b'\\' b'/' t))

  split-join_slash :
      (p : Text) (ps : List Text)
      → all is_plain (p ∷ ps) ≡ true
      → split b'/' (join (codes "/") (p ∷ ps) ++ b'/' ∷ t) ≡ (p ∷ ps) ++ split b'/' t
  unfolding join all codes
  split-join_slash p [] h = split-append b'/' p t (lacks-is_plain p (ground arith))
  split-join_slash p (q ∷ ps) h =
      let rest = join (codes "/") (q ∷ ps) in
      ap (split b'/') (
        append_assoc (p ++ codes "/") rest (b'/' ∷ t)
        ∙ append_assoc p (codes "/") (rest ++ b'/' ∷ t))
      ∙ split-append b'/' p (rest ++ b'/' ∷ t) (lacks-is_plain p (ground arith))
      ∙ ap (λ s. p ∷ s) (split-join_slash q ps (ground arith))

pub split-join :
    (p : Text) (ps : List Text)
    → all is_plain (p ∷ ps) ≡ true
    → split b'/' (join (codes "/") (p ∷ ps)) ≡ p ∷ ps
unfolding join all codes
split-join p [] h = split-lacks b'/' p (lacks-is_plain p (ground arith))
split-join p (q ∷ ps) h =
    let rest = join (codes "/") (q ∷ ps) in
    ap (split b'/') (append_assoc p (codes "/") rest)
    ∙ split-append b'/' p rest (lacks-is_plain p (ground arith))
    ∙ ap (λ s. p ∷ s) (split-join q ps (ground arith))

-- A directory's name ends with the separator, and splits into one part more.
abbrev ending : Option (List ℕ) → Text
ending none = slash
ending (some content) = []

abbrev last_part : Option (List ℕ) → List Text
last_part none = [] ∷ []
last_part (some content) = []

pub arc_name-ending :
    (path : List Text) (c : Option (List ℕ)) → arc_name path c ≡ join (codes "/") path ++ ending c
unfolding codes
arc_name-ending path none = refl
arc_name-ending path (some content) = sym (append-nil (join (codes "/") path))

split-arc :
    (p : Text) (ps : List Text) (c : Option (List ℕ))
    → all is_plain (p ∷ ps) ≡ true
    → split b'/' (join (codes "/") (p ∷ ps) ++ ending c) ≡ (p ∷ ps) ++ last_part c
split-arc p ps none h = unfold split in split-join_slash [] p ps h
split-arc p ps (some content) h =
    ap (split b'/') (append-nil (join (codes "/") (p ∷ ps)))
    ∙ split-join p ps h
    ∙ sym (append-nil (p ∷ ps))

replace_char-ending : (c : Option (List ℕ)) → replace_char b'\\' b'/' (ending c) ≡ ending c
unfolding replace_char
replace_char-ending none = refl
replace_char-ending (some content) = refl

-- Parts that are not dropped.
abbrev counts : Text → Bool
counts x = not (x == [] || x == codes ".")

counts-is_plain : (p : Text) → is_plain p ≡ true → counts p ≡ true
unfolding is_plain is_name
counts-is_plain p h = ground arith

select-counts :
    (ps rest : List Text)
    → all is_plain ps ≡ true
    → select counts (ps ++ rest) ≡ ps ++ select counts rest
unfolding select all
select-counts [] rest h = refl
select-counts (p ∷ ps) rest h =
    let e = select-counts ps rest (ground arith) in rw (counts-is_plain p (ground arith), e) refl

select-last_part : (c : Option (List ℕ)) → select counts (last_part c) ≡ []
unfolding select list_beq codes
select-last_part none = refl
select-last_part (some content) = refl

not_up : (p : Text) → is_plain p ≡ true → (codes ".." == p) ≡ false
unfolding is_plain is_name
not_up p h = ground (arith, text_eq.same_iff (codes "..") p, text_eq.same_iff p (codes ".."))

contains-up : (ps : List Text) → all is_plain ps ≡ true → contains ps (codes "..") ≡ false
unfolding contains all
contains-up [] h = refl
contains-up (p ∷ ps) h = rw (not_up p (ground arith)) (contains-up ps (ground arith))

-- What stands behind the first part.
abbrev tail_of : List Text → Text
tail_of [] = []
tail_of (q ∷ ps) = b'/' ∷ join (codes "/") (q ∷ ps)

join-tail : (p : Text) (ps : List Text) → join (codes "/") (p ∷ ps) ≡ p ++ tail_of ps
unfolding join codes
join-tail p [] = sym (append-nil p)
join-tail p (q ∷ ps) = append_assoc p (codes "/") (join (codes "/") (q ∷ ps))

arc-tail :
    (p : Text) (ps : List Text) (c : Option (List ℕ))
    → arc_name (p ∷ ps) c ≡ p ++ (tail_of ps ++ ending c)
arc-tail p ps c =
    arc_name-ending (p ∷ ps) c
    ∙ ap (λ t. t ++ ending c) (join-tail p ps)
    ∙ append_assoc p (tail_of ps) (ending c)

not_absolute : (p t : Text) → is_plain p ≡ true → starts_with (p ++ t) (codes "/") ≡ false
unfolding is_plain is_name starts_with contains codes list_beq
not_absolute [] t h = cc
not_absolute (c ∷ p) t h = ground arith

top_of-part : (p t : Text) → lacks b'/' p ≡ true → top_of t ≡ [] → top_of (p ++ t) ≡ p
unfolding top_of all
top_of-part [] t h k = k
top_of-part (c ∷ p) t h k =
    let e = top_of-part p t (ground arith) k in
    let other : eqb c b'/' ≡ false = ground arith in rw other (ap (λ s. c ∷ s) e)

top_of-tail : (ps : List Text) (c : Option (List ℕ)) → top_of (tail_of ps ++ ending c) ≡ []
unfolding top_of
top_of-tail [] none = refl
top_of-tail [] (some content) = refl
top_of-tail (q ∷ ps) c = refl

-- `safe_relpath` gives the path back.
pub safe_relpath-arc_name :
    (p : Text) (ps : List Text) (c : Option (List ℕ))
    → is_drive p ≡ false
    → all is_plain (p ∷ ps) ≡ true
    → safe_relpath (arc_name (p ∷ ps) c) ≡ some (p ∷ ps)
unfolding safe_relpath path_parts safe_parts
safe_relpath-arc_name p ps c drive h =
    let plain : is_plain p ≡ true = unfold all in ground arith in
    let name = join (codes "/") (p ∷ ps) ++ ending c in
    let same : replace_char b'\\' b'/' name ≡ name =
      replace_char-join (ending c) p ps h
      ∙ ap (λ t. join (codes "/") (p ∷ ps) ++ t) (replace_char-ending c) in
    let relative : starts_with name (codes "/") ≡ false =
      subst (λ t. starts_with t (codes "/") ≡ false)
        (sym (arc-tail p ps c) ∙ arc_name-ending (p ∷ ps) c)
        (not_absolute p (tail_of ps ++ ending c) plain) in
    let parts : select counts (split b'/' name) ≡ p ∷ ps =
      ap (select counts) (split-arc p ps c h)
      ∙ select-counts (p ∷ ps) (last_part c) h
      ∙ ap (λ t. (p ∷ ps) ++ t) (select-last_part c)
      ∙ append-nil (p ∷ ps) in
    rw (arc_name-ending (p ∷ ps) c, same, relative, parts, contains-up (p ∷ ps) h, drive) refl

-- In full mode `map_member` keeps the name.
pub map_member-arc_name :
    (p : Text) (ps : List Text) (c : Option (List ℕ))
    → excluded_top p ≡ false
    → all is_plain (p ∷ ps) ≡ true
    → map_member (arc_name (p ∷ ps) c) [] (codes "world/") (codes "full")
      ≡ some (arc_name (p ∷ ps) c)
map_member-arc_name p ps c kept h =
    let plain : is_plain p ≡ true = unfold all in ground arith in
    map_member-full (arc_name (p ∷ ps) c)
      (λ e. name_some p (tail_of ps ++ ending c) plain (sym (arc-tail p ps c) ∙ e))
      (subst (λ t. excluded_top t ≡ false)
        (sym (
          ap top_of (arc-tail p ps c)
          ∙ top_of-part p (tail_of ps ++ ending c) (lacks-is_plain p plain) (top_of-tail ps c)))
        kept)
  where
    name_some : (p t : Text) → is_plain p ≡ true → p ++ t ≢ []
    name_some [] t h = absurd (unfold is_plain is_name list_beq in cc)
    name_some (d ∷ p) t h = λ e. cc
