-- ===== src/Jobs/Snapshot/RoundTrip.antt =====
-- src/mcdash/jobs: the seed Job restores what a snapshot stores.
use k3s_minecraft.Prelude.{
  Text, codes, ℕ, suc, Bool, true, false, ◌&&◌, not, Option, none, some, List, [], ◌∷◌, ◌++◌,
  append-nil, append_assoc, text_eq, nat_eq, contains, list_beq, list_beq_iff, all, any, join, ◌≡◌,
  ◌≢◌, refl, sym, ◌∙◌, ap, subst, arith, Bool-cases, inl, inr,
}
use k3s_minecraft.Detect.{find_world}
use k3s_minecraft.Detect.Worlds.{find_world-root}
use k3s_minecraft.Jobs.Seed.{
  marker, Member, Write, wiped, make_dir, write_file, Disk, Outcome, wrote, parent, targets,
  is_dir_name, excluded_top, is_drive, map_member, write, place, place_in, place_member, extract,
  finish_seed, seed_world, seed, names_of,
}
use k3s_minecraft.Jobs.Snapshot.{
  Entries, Stored, arc_name, bytes_of, member_of, members_of, has_level, walk, snapshot,
}
use k3s_minecraft.Jobs.Snapshot.Names.{is_plain, is_kept, proper, all-walk}
use k3s_minecraft.Jobs.Snapshot.Levels.{level_path, not_level, walk-level}
use k3s_minecraft.Jobs.Snapshot.ArcNames.{safe_relpath-arc_name, map_member-arc_name}
use k3s_minecraft.Jobs.Snapshot.Plans.{
  own_write, plan, one_file, files, writes_file, IsCalm, ends_with-arc_name,
}

kept_parts :
    (p : Text) (ps : List Text) (c : Option (List ℕ))
    → is_kept (record { path = p ∷ ps; content = c }) ≡ true
    → (all is_plain (p ∷ ps) ≡ true) × (excluded_top p ≡ false) × (is_drive p ≡ false)
kept_parts p ps c h = (ground arith, ground arith, ground arith)

-- One entry: where `extract` goes on from.
module _ (d : Disk) (calm : IsCalm d) where
  write-calm :
      (w : Write) (done : List Write) (rest : List Write → List Write × Outcome)
      → write d w done rest ≡ rest (done ++ w ∷ [])
  unfolding write
  write-calm w done rest = rw (calm.fails_eq done w) refl

  place-calm :
      (path : List Text) (c : Option (List ℕ)) (n : ℕ) (done : List Write)
      (rest : ℕ → List Write → List Write × Outcome)
      → place d path (elim c [ none ↦ true | some content ↦ false ]) (bytes_of c) n done rest
        ≡ rest (one_file c n) ((done ++ make_dir (parent path) ∷ []) ++ own_write path c ∷ [])
  unfolding place place_in
  place-calm path none n done rest =
      let made = done ++ make_dir (parent path) ∷ [] in
      write-calm (make_dir (parent path)) done (place_in d path true [] n rest)
      ∙ rw (calm.escapes_eq made (parent path)) (write-calm (make_dir path) made (rest n))
  place-calm path (some content) n done rest =
      let made = done ++ make_dir (parent path) ∷ [] in
      write-calm (make_dir (parent path)) done (place_in d path false content n rest)
      ∙ rw (calm.escapes_eq made (parent path))
          (write-calm (write_file path content) made (rest (suc n)))

  place_member-calm :
      (path : List Text) (c : Option (List ℕ)) (n : ℕ) (done : List Write)
      (rest : ℕ → List Write → List Write × Outcome)
      → is_kept (record { path = path; content = c }) ≡ true
      → place_member d
          (targets
            (member_of (record { path = path; content = c }))
            (map_member (arc_name path c) [] (codes "world/") (codes "full")))
          (is_dir_name
            (arc_name path c)
            (map_member (arc_name path c) [] (codes "world/") (codes "full")))
          (bytes_of c)
          n
          done
          rest
        ≡ rest (one_file c n) ((done ++ make_dir (parent path) ∷ []) ++ own_write path c ∷ [])
  unfolding place_member member_of
  place_member-calm [] c n done rest h = cc
  place_member-calm (p ∷ ps) none n done rest h =
      let (plain, in_place, drive) = kept_parts p ps none h in
      rw
        (
          map_member-arc_name p ps none in_place plain,
          safe_relpath-arc_name p ps none drive plain,
          ends_with-arc_name p ps none plain,
        )
        (place-calm (p ∷ ps) none n done rest)
  place_member-calm (p ∷ ps) (some content) n done rest h =
      let (plain, in_place, drive) = kept_parts p ps (some content) h in
      rw
        (
          map_member-arc_name p ps (some content) in_place plain,
          safe_relpath-arc_name p ps (some content) drive plain,
          ends_with-arc_name p ps (some content) plain,
        )
        (place-calm (p ∷ ps) (some content) n done rest)

  extract-plan :
      (ss : List Stored) (finish : ℕ → List Write → List Write × Outcome) (n : ℕ)
      (done : List Write)
      → all is_kept ss ≡ true
      → extract d [] (codes "world/") (codes "full") (members_of ss) finish n done
        ≡ finish (files ss n) (done ++ plan ss)
  unfolding extract members_of all
  extract-plan [] finish n done h = ap (finish n) (sym (append-nil done))
  extract-plan (s ∷ ss) finish n done h =
      let kept : is_kept s ≡ true = ground arith in
      let more : all is_kept ss ≡ true = ground arith in
      let first = make_dir (parent s.path) in
      let own = own_write s.path s.content in
      place_member-calm s.path s.content n done
        (extract d [] (codes "world/") (codes "full") (members_of ss) finish) kept
      ∙ extract-plan ss finish (one_file s.content n) ((done ++ first ∷ []) ++ own ∷ []) more
      ∙ ap (finish (files ss (one_file s.content n))) (
          append_assoc (done ++ first ∷ []) (own ∷ []) (plan ss)
          ∙ append_assoc done (first ∷ []) (own ∷ plan ss))

not_both : (b : Bool) → not (b && false) ≢ false
not_both true h = cc
not_both false h = cc

-- A snapshot with the world's file has its name, and is restored with it.
level_name :
    (s : Stored) → not_level s ≡ false → arc_name s.path s.content ≡ codes "world/level.dat"
level_name s h = go s.content s.path h
  where
    go :
        (c : Option (List ℕ)) (path : List Text)
        → not_level (record { path = path; content = c }) ≡ false
        → arc_name path c ≡ codes "world/level.dat"
    go none path h = absurd (not_both (list_beq path level_path) h)
    go (some content) path h =
        ap (join (codes "/")) ((list_beq_iff path level_path).0 (ground arith))
        ∙ unfold join codes in refl

contains-level :
    (d : Disk) (ss : List Stored)
    → all not_level ss ≡ false
    → contains (names_of d (members_of ss)) (codes "world/level.dat") ≡ true
unfolding all contains members_of member_of
contains-level d [] h = cc
contains-level d (s ∷ ss) h = elim (Bool-cases (not_level s)) [
  | inl other ↦ let rest = contains-level d ss (ground arith) in ground arith
  | inr level ↦
      let same =
        (text_eq.same_iff (codes "world/level.dat") (arc_name s.path s.content)).1
          (sym (level_name s level)) in
      ground arith
]

own_write-level :
    (s : Stored) → not_level s ≡ false → writes_file level_path (own_write s.path s.content) ≡ true
own_write-level s h = go s.content h
  where
    go :
        (c : Option (List ℕ))
        → not_level (record { path = s.path; content = c }) ≡ false
        → writes_file level_path (own_write s.path c) ≡ true
    go none h = absurd (not_both (list_beq s.path level_path) h)
    go (some content) h = ground arith

plan-level :
    (ss : List Stored) → all not_level ss ≡ false → any (writes_file level_path) (plan ss) ≡ true
unfolding all any
plan-level [] h = cc
plan-level (s ∷ ss) h = elim (Bool-cases (not_level s)) [
  | inl other ↦ let rest = plan-level ss (ground arith) in ground arith
  | inr level ↦ let own = own_write-level s level in rw own refl
]

seed-full :
    (d : Disk) (marker_text : ℕ → List ℕ) (ms : List Member)
    → seed d (codes "full") true marker_text ms
      ≡ seed_world d (find_world (names_of d ms)) (codes "full") marker_text ms
unfolding seed codes list_beq
seed-full d marker_text ms = refl

-- What a full seed makes of a snapshot: the destination is wiped, and then each directory and file
-- of the snapshot written there, in its order and with its content, behind the directory that it is
-- in; the marker comes last. The Job returns how many files there are. It holds of a volume whose
-- names are proper and that has its world/level.dat, not through a link, on a disk that is calm.
pub seed-snapshot :
    (d : Disk) (es : Entries) (ss : List Stored) (marker_text : ℕ → List ℕ)
    → IsCalm d
    → proper [] es ≡ true
    → snapshot false es ≡ some ss
    → seed d (codes "full") true marker_text (members_of ss) ≡ (
      (wiped ∷ plan ss) ++ write_file (marker ∷ []) (marker_text (files ss 0)) ∷ [],
      wrote (files ss 0),
    )
unfolding snapshot seed_world finish_seed
seed-snapshot d es ss marker_text calm good h = elim (Bool-cases (has_level es)) [
  | inr missing ↦ absurd (cc (h, missing))
  | inl there ↦
      let e : walk es ≡ ss = ground arith in
      let level = subst (λ t. all not_level t ≡ false) e (walk-level es there) in
      let kept = subst (λ t. all is_kept t ≡ true) e (all-walk es good) in
      let found = find_world-root (names_of d (members_of ss)) (contains-level d ss level) in
      let file_there = calm.is_file_eq (plan ss) level_path (plan-level ss level) in
      rw (seed-full d marker_text (members_of ss), found)
        (write-calm d calm wiped [] (
            extract d [] (codes "world/") (codes "full") (members_of ss) (finish_seed d marker_text)
              0)
          ∙ extract-plan d calm ss (finish_seed d marker_text) 0 (wiped ∷ []) kept
          ∙ rw file_there (
              write-calm d calm (write_file (marker ∷ []) (marker_text (files ss 0)))
                (wiped ∷ plan ss) (λ w. (w, wrote (files ss 0)))))
]
