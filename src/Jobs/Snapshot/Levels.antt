-- ===== src/Jobs/Snapshot/Levels.antt =====
-- src/mcdash/jobs/snapshot.py: a snapshot that is made holds world/level.dat.
use k3s_minecraft.Prelude.{
  Text, codes, ℕ, Bool, true, false, ◌&&◌, not, Option, none, some, List, [], ◌∷◌, ◌++◌, text_eq,
  ◌==◌, list_beq, contains, all, any, all-append, ◌≡◌, refl, ap, ◌∙◌, subst, arith, Bool-cases, inl,
  inr, starts_with, ends_with,
}
use k3s_minecraft.Jobs.Seed.{excluded_top, is_install_marker}
use k3s_minecraft.Jobs.Snapshot.{
  Entries, nil, entry, file, dir, other, Stored, Named, sorted_concat, left_out, own_entry,
  files_of, dirs_of, walk, has_file, has_level,
}
use k3s_minecraft.Jobs.Snapshot.Names.{all-sorted_concat_eq}

abbrev pub level_path : List Text
level_path = codes "world" ∷ codes "level.dat" ∷ []

abbrev is_some : Option (List ℕ) → Bool
is_some none = false
is_some (some content) = true

-- Whether an entry is not that file.
abbrev pub not_level : Stored → Bool
not_level s = not (list_beq s.path level_path && is_some s.content)

abbrev brings_none : Named → Bool
brings_none x = all not_level x.1

world_kept : left_out [] (codes "world") ≡ false
unfolding left_out excluded_top codes list_beq contains ends_with is_install_marker starts_with any
world_kept = refl

same_path : list_beq level_path level_path ≡ true
unfolding codes list_beq
same_path = refl

and_false : (b : Bool) → (b && false) ≡ false
and_false true = refl
and_false false = refl

and_middle : (a b : Bool) → ((a && false) && b) ≡ false
and_middle true b = refl
and_middle false b = refl

files_of-level :
    (es : Entries)
    → has_file (codes "level.dat") es ≡ true
    → all brings_none (files_of (codes "world" ∷ []) es) ≡ false
unfolding files_of has_file left_out all
files_of-level nil h = cc
files_of-level (entry n other es) h = files_of-level es h
files_of-level (entry n (dir ds) es) h = files_of-level es h
files_of-level (entry n (file content) es) h = elim (Bool-cases (codes "level.dat" == n)) [
  | inl same ↦
      let e : (codes "world" ∷ codes "level.dat" ∷ []) ≡ (codes "world" ∷ n ∷ []) =
        ap (λ t. codes "world" ∷ t ∷ []) ((text_eq.same_iff (codes "level.dat") n).0 same) in
      let f = subst (λ t. list_beq t level_path ≡ true) e same_path in rw f refl
  | inr differs ↦ let rest = files_of-level es (ground arith) in rw rest (and_false _)
]

dirs_of-level : (es : Entries) → has_level es ≡ true → all brings_none (dirs_of [] es) ≡ false
unfolding dirs_of has_level all
dirs_of-level nil h = cc
dirs_of-level (entry n other es) h = dirs_of-level es h
dirs_of-level (entry n (file content) es) h = dirs_of-level es h
dirs_of-level (entry n (dir ds) es) h =
    elim (Bool-cases (codes "world" == n && has_file (codes "level.dat") ds)) [
      | inl here ↦ at_world n ds es (ground arith) (ground arith)
      | inr later ↦ behind n ds es (dirs_of-level es (ground arith))
    ]
  where
    behind :
        (n : Text) (ds es : Entries)
        → all brings_none (dirs_of [] es) ≡ false
        → all brings_none (dirs_of [] (entry n (dir ds) es)) ≡ false
    behind n ds es h = elim (Bool-cases (left_out [] n)) [
      | inl out ↦ rw out h
      | inr kept ↦ rw (kept, h) (and_false _)
    ]

    at_world :
        (n : Text) (ds es : Entries)
        → (codes "world" == n) ≡ true
        → has_file (codes "level.dat") ds ≡ true
        → all brings_none (dirs_of [] (entry n (dir ds) es)) ≡ false
    at_world n ds es same h =
        let e = (text_eq.same_iff (codes "world") n).0 same in
        let at = codes "world" ∷ [] in
        let files = all-sorted_concat_eq not_level (files_of at ds) ∙ files_of-level ds h in
        subst (λ t. all brings_none (dirs_of [] (entry t (dir ds) es)) ≡ false) e
          (rw
            (
              world_kept,
              all-append not_level (own_entry at)
                  (sorted_concat (files_of at ds) ++ sorted_concat (dirs_of at ds)),
              all-append not_level (sorted_concat (files_of at ds)) (sorted_concat (dirs_of at ds)),
              files,
            )
            (and_middle (all not_level (own_entry at)) (all brings_none (dirs_of [] es))))

-- A volume with world/level.dat has it in its snapshot.
pub walk-level : (es : Entries) → has_level es ≡ true → all not_level (walk es) ≡ false
unfolding walk
walk-level es h =
    rw
      (
        all-append not_level (sorted_concat (files_of [] es)) (sorted_concat (dirs_of [] es)),
        all-sorted_concat_eq not_level (dirs_of [] es),
        dirs_of-level es h,
      )
      (and_false _)
