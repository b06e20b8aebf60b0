-- ===== src/Jobs/Snapshot/Names.antt =====
-- src/mcdash/jobs/snapshot.py: the paths that a snapshot stores.
use k3s_minecraft.Prelude.{
  Text, Bool, true, false, ◌&&◌, not, List, [], ◌∷◌, ◌++◌, nat_eq, contains, all, all-append,
  all-sort, sort, ◌≡◌, refl, ap, ◌∙◌, arith, Bool-cases, inl, inr,
}
use k3s_minecraft.Jobs.Seed.{excluded_top, is_drive}
use k3s_minecraft.Jobs.Seed.Paths.{is_name}
use k3s_minecraft.Jobs.Snapshot.{
  Entries, nil, entry, file, dir, other, Stored, Named, before, concat, sorted_concat, left_out,
  own_entry, files_of, dirs_of, walk,
}

-- A name without a separator of another system.
unfoldable pub is_plain : Text → Bool
unfolding is_name contains
is_plain n = is_name n && not (contains n b'\\')

-- At the top, no name is like a drive.
abbrev fits : List Text → Text → Bool
fits [] name = not (is_drive name)
fits (p ∷ path) name = true

-- The names of a volume are those of a file system, have no backslash, and none at the top is like
-- "C:".
unfoldable pub proper : List Text → Entries → Bool
proper path nil = true
proper path (entry name (file content) es) = is_plain name && fits path name && proper path es
proper path (entry name other es) = is_plain name && fits path name && proper path es
proper path (entry name (dir ds) es) =
    is_plain name && fits path name && proper (path ++ name ∷ []) ds && proper path es

abbrev starts_well : List Text → Bool
starts_well [] = true
starts_well (p ∷ path) = not (excluded_top p) && not (is_drive p)

abbrev at_ok : List Text → Bool
at_ok path = starts_well path && all is_plain path

abbrev some_path : List Text → Bool
some_path [] = false
some_path (p ∷ path) = true

-- A path that the seed Job keeps.
abbrev pub is_kept : Stored → Bool
is_kept s = some_path s.path && starts_well s.path && all is_plain s.path

and_three : (a b c : Bool) → (a && b && c) ≡ true → (a ≡ true) × (b ≡ true) × (c ≡ true)
and_three true true true h = (refl, refl, refl)
and_three true true false h = cc
and_three true false c h = cc
and_three false b c h = cc

and_four :
    (a b c d : Bool) → (a && b && c && d) ≡ true → (a ≡ true) × (b ≡ true) × (c ≡ true) × (d ≡ true)
and_four true b c d h = let (x, y, z) = and_three b c d h in (refl, x, y, z)
and_four false b c d h = cc

snoc_ok :
    (path : List Text) (name : Text)
    → at_ok path ≡ true
    → is_plain name ≡ true
    → fits path name ≡ true
    → left_out path name ≡ false
    → (some_path (path ++ name ∷ [])
        && starts_well (path ++ name ∷ [])
        && all is_plain (path ++ name ∷ []))
      ≡ true
unfolding left_out all
snoc_ok [] name h k l m = ground arith
snoc_ok (p ∷ path) name h k l m = ground (arith, all-append is_plain path (name ∷ []))

-- A test that all entries pass, all pass by the names that bring them, in whatever order.
all-concat : (p : Stored → Bool) (xs : List Named) → all p (concat xs) ≡ all (λ x. all p x.1) xs
unfolding all
all-concat p [] = refl
all-concat p ((n, ss) ∷ xs) =
    all-append p ss (concat xs) ∙ ap (λ b. all p ss && b) (all-concat p xs)

pub all-sorted_concat_eq :
    (p : Stored → Bool) (xs : List Named) → all p (sorted_concat xs) ≡ all (λ x. all p x.1) xs
unfolding sorted_concat
all-sorted_concat_eq p xs = all-concat p (sort before xs) ∙ all-sort before _ xs

abbrev named_kept : Named → Bool
named_kept x = all is_kept x.1

all-sorted_concat :
    (xs : List Named) → all named_kept xs ≡ true → all is_kept (sorted_concat xs) ≡ true
all-sorted_concat xs h = all-sorted_concat_eq is_kept xs ∙ h

all-files_of :
    (path : List Text) (es : Entries)
    → at_ok path ≡ true
    → proper path es ≡ true
    → all named_kept (files_of path es) ≡ true
unfolding files_of proper all
all-files_of path nil h k = refl
all-files_of path (entry name other es) h k =
    let (plain, fit, others) = and_three (is_plain name) (fits path name) (proper path es) k in
    all-files_of path es h others
all-files_of path (entry name (dir ds) es) h k =
    let (plain, fit, below, others) =
      and_four (is_plain name) (fits path name) (proper (path ++ name ∷ []) ds) (proper path es)
        k in
    all-files_of path es h others
all-files_of path (entry name (file content) es) h k =
    let (plain, fit, others) = and_three (is_plain name) (fits path name) (proper path es) k in
    let rest = all-files_of path es h others in
    elim (Bool-cases (left_out path name)) [
      | inl out ↦ rw out rest
      | inr kept ↦ let own = snoc_ok path name h plain fit kept in rw (kept, own) rest
    ]

own_entry_ok :
    (path : List Text)
    → some_path path ≡ true
    → starts_well path ≡ true
    → all is_plain path ≡ true
    → all is_kept (own_entry path) ≡ true
unfolding all
own_entry_ok [] h k l = refl
own_entry_ok (p ∷ path) h k l = ground arith

all-dirs_of :
    (path : List Text) (es : Entries)
    → at_ok path ≡ true
    → proper path es ≡ true
    → all named_kept (dirs_of path es) ≡ true
unfolding dirs_of proper all
all-dirs_of path nil h k = refl
all-dirs_of path (entry name other es) h k =
    let (plain, fit, others) = and_three (is_plain name) (fits path name) (proper path es) k in
    all-dirs_of path es h others
all-dirs_of path (entry name (file content) es) h k =
    let (plain, fit, others) = and_three (is_plain name) (fits path name) (proper path es) k in
    all-dirs_of path es h others
all-dirs_of path (entry name (dir ds) es) h k =
    let (plain, fit, below, others) =
      and_four (is_plain name) (fits path name) (proper (path ++ name ∷ []) ds) (proper path es)
        k in
    let rest = all-dirs_of path es h others in
    elim (Bool-cases (left_out path name)) [
      | inl out ↦ rw out rest
      | inr kept ↦
          let at = path ++ name ∷ [] in
          let good = snoc_ok path name h plain fit kept in
          let (there, well, names) =
            and_three (some_path at) (starts_well at) (all is_plain at) good in
          let at_good : at_ok at ≡ true = rw (well, names) refl in
          let own = own_entry_ok at there well names in
          let files = all-sorted_concat (files_of at ds) (all-files_of at ds at_good below) in
          let dirs = all-sorted_concat (dirs_of at ds) (all-dirs_of at ds at_good below) in
          let e =
            all-append is_kept (own_entry at)
              (sorted_concat (files_of at ds) ++ sorted_concat (dirs_of at ds)) in
          let f =
            all-append is_kept (sorted_concat (files_of at ds)) (sorted_concat (dirs_of at ds)) in
          rw (kept, e, f, own, files, dirs) rest
    ]

-- Each path that a snapshot of a proper volume stores is one that the seed Job keeps.
pub all-walk : (es : Entries) → proper [] es ≡ true → all is_kept (walk es) ≡ true
unfolding walk
all-walk es h =
    let start : at_ok [] ≡ true = unfold all in refl in
    rw
      (
        all-append is_kept (sorted_concat (files_of [] es)) (sorted_concat (dirs_of [] es)),
        all-sorted_concat (files_of [] es) (all-files_of [] es start h),
      )
      (all-sorted_concat (dirs_of [] es) (all-dirs_of [] es start h))
