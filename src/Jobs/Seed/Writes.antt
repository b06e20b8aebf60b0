-- ===== src/Jobs/Seed/Writes.antt =====
-- src/mcdash/jobs/seed.py: what the seed Job writes is below the destination.
use k3s_minecraft.Prelude.{
  Text, codes, ℕ, suc, Bool, true, false, ◌||◌, Option, none, some, List, [], ◌∷◌, ◌++◌, text_eq,
  ◌==◌, if◌then◌else◌, all, list_beq, contains, all-append, ◌≡◌, refl, arith, Bool-cases, inl, inr,
}
use k3s_minecraft.Detect.{find_world}
use k3s_minecraft.Jobs.Seed.{
  marker, Member, Write, wiped, make_dir, write_file, Disk, Outcome, wrote, raised, escaping,
  parent, targets, safe_relpath, map_member, write, place, place_in, place_member, extract,
  finish_seed, seed_world, seed, names_of,
}
use k3s_minecraft.Jobs.Seed.Paths.{is_name, resolve, resolve-names, safe_relpath-names}

abbrev pub path_of : Write → List Text
path_of wiped = []
path_of (make_dir p) = p
path_of (write_file p content) = p

abbrev below : Write → Bool
below w = all is_name (path_of w)

all-parent : (ps : List Text) → all is_name ps ≡ true → all is_name (parent ps) ≡ true
unfolding all
all-parent [] h = refl
all-parent (p ∷ []) h = refl
all-parent (p ∷ q ∷ ps) h = ground (arith, all-parent (q ∷ ps))

-- A continuation whose writes are below, after writes that are.
abbrev IsGood : (List Write → List Write × Outcome) → Type 0
IsGood rest = (done : List Write) → all below done ≡ true → all below (rest done).0 ≡ true

all-snoc :
    (w : Write) (done : List Write)
    → below w ≡ true
    → all below done ≡ true
    → all below (done ++ w ∷ []) ≡ true
unfolding all
all-snoc w done h k = ground (arith, all-append below done (w ∷ []))

module _ (d : Disk) where
  write-IsGood :
      (w : Write) (rest : List Write → List Write × Outcome)
      → below w ≡ true
      → IsGood rest
      → IsGood (λ done. write d w done rest)
  unfolding write
  write-IsGood w rest h good done k = elim (Bool-cases (d.fails done w)) [
    | inl failed ↦ rw failed k
    | inr fine ↦ rw fine (good (done ++ w ∷ []) (all-snoc w done h k))
  ]

  place-IsGood :
      (rel : List Text) (is_dir : Bool) (content : List ℕ) (count : ℕ)
      (rest : ℕ → List Write → List Write × Outcome)
      → all is_name rel ≡ true
      → ((n : ℕ) → IsGood (rest n))
      → IsGood (λ done. place d rel is_dir content count done rest)
  unfolding place place_in
  place-IsGood rel is_dir content count rest h good =
      write-IsGood (make_dir (parent rel)) (place_in d rel is_dir content count rest)
        (all-parent rel h) (λ made k. inside (d.escapes made (parent rel)) made k)
    where
      kind :
          (b : Bool) (made : List Write)
          → all below made ≡ true
          → all below
              (if b
                then write d (make_dir rel) made (rest count)
                else write d (write_file rel content) made (rest (suc count))).0
            ≡ true
      kind true made k = write-IsGood (make_dir rel) (rest count) h (good count) made k
      kind false made k =
          write-IsGood (write_file rel content) (rest (suc count)) h (good (suc count)) made k

      inside :
          (b : Bool) (made : List Write)
          → all below made ≡ true
          → all below
              (if b
                then (made, raised escaping)
                else if is_dir
                then write d (make_dir rel) made (rest count)
                else write d (write_file rel content) made (rest (suc count))).0
            ≡ true
      inside true made k = k
      inside false made k = kind is_dir made k

  place_member-IsGood :
      (m : Member) (target : Option Text) (is_dir : Bool) (count : ℕ)
      (rest : ℕ → List Write → List Write × Outcome)
      → ((n : ℕ) → IsGood (rest n))
      → IsGood (λ done. place_member d (targets m target) is_dir m.content count done rest)
  unfolding place_member
  place_member-IsGood m none is_dir count rest good = good count
  place_member-IsGood m (some t) is_dir count rest good = elim (Bool-cases m.is_symlink) [
    | inl link ↦ rw link (good count)
    | inr plain ↦ rw plain (go (safe_relpath t) refl)
  ]
    where
      go :
          (x : Option (List Text))
          → safe_relpath t ≡ x
          → IsGood (λ done. place_member d x is_dir m.content count done rest)
      go none e = good count
      go (some rel) e =
          place-IsGood rel is_dir m.content count rest (safe_relpath-names t rel e) good

  extract-IsGood :
      (prefix world_dir mode : Text) (ms : List Member)
      (finish : ℕ → List Write → List Write × Outcome)
      → ((n : ℕ) → IsGood (finish n))
      → (count : ℕ) → IsGood (extract d prefix world_dir mode ms finish count)
  unfolding extract
  extract-IsGood prefix world_dir mode [] finish good count = good count
  extract-IsGood prefix world_dir mode (m ∷ ms) finish good count =
      place_member-IsGood m (map_member m.name prefix world_dir mode) _ count _
        (extract-IsGood prefix world_dir mode ms finish good)

  finish_seed-IsGood :
      (marker_text : ℕ → List ℕ) (count : ℕ) → IsGood (finish_seed d marker_text count)
  unfolding finish_seed
  finish_seed-IsGood marker_text count done k =
      elim (Bool-cases (d.is_file done (codes "world" ∷ codes "level.dat" ∷ []))) [
        | inr missing ↦ rw missing k
        | inl there ↦ rw there (
            write-IsGood (write_file (marker ∷ []) (marker_text count)) (λ w. (w, wrote count))
              (unfold all is_name codes list_beq contains in refl) (λ w h. h) done k)
      ]

  seed_world-below :
      (found : Option (Text × Text)) (mode : Text) (marker_text : ℕ → List ℕ) (ms : List Member)
      → all below (seed_world d found mode marker_text ms).0 ≡ true
  unfolding seed_world
  seed_world-below none mode marker_text ms = unfold all in refl
  seed_world-below (some (prefix, world_dir)) mode marker_text ms =
      write-IsGood wiped (extract d prefix world_dir mode ms (finish_seed d marker_text) 0)
        (unfold all in refl)
        (extract-IsGood prefix world_dir mode ms (finish_seed d marker_text)
          (finish_seed-IsGood marker_text) 0)
        [] (unfold all in refl)

  seed-below :
      (mode : Text) (dest_is_dir : Bool) (marker_text : ℕ → List ℕ) (ms : List Member)
      → all below (seed d mode dest_is_dir marker_text ms).0 ≡ true
  unfolding seed
  seed-below mode dest_is_dir marker_text ms =
      elim (Bool-cases (mode == codes "vanilla" || mode == codes "full")) [
        | inr bad ↦ rw bad (unfold all in refl)
        | inl good ↦ rw good (elim (Bool-cases dest_is_dir) [
          | inr no_dir ↦ rw no_dir (unfold all in refl)
          | inl dir ↦ rw dir (seed_world-below (find_world (names_of d ms)) mode marker_text ms)
        ])
      ]

abbrev pub StayBelow : List Text → List Write → Type 0
StayBelow base [] = Unit {0}
StayBelow base (w ∷ ws) = (resolve base (path_of w) ≡ base ++ path_of w) × StayBelow base ws

StayBelow-all : (base : List Text) (ws : List Write) → all below ws ≡ true → StayBelow base ws
unfolding all
StayBelow-all base [] h = tt
StayBelow-all base (w ∷ ws) h =
    (resolve-names base (path_of w) (ground arith), StayBelow-all base ws (ground arith))

-- Whatever the archive holds, whatever the mode and whatever the disk answers, also where the Job
-- fails: each path that it writes, below the destination `base`, leads straight down from there.
pub seed-stays_below :
    (d : Disk) (base : List Text) (mode : Text) (dest_is_dir : Bool) (marker_text : ℕ → List ℕ)
    (ms : List Member)
    → StayBelow base (seed d mode dest_is_dir marker_text ms).0
seed-stays_below d base mode dest_is_dir marker_text ms =
    StayBelow-all base _ (seed-below d mode dest_is_dir marker_text ms)
