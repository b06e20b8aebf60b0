-- ===== src/Jobs/Seed.antt =====
-- src/mcdash/jobs/seed.py: what a seed Job extracts. The disk is a parameter; a member's contents
-- are read whole. A path below the destination is the list of its parts.
pub mod Paths
pub mod Members
pub mod Writes
use k3s_minecraft.Prelude.{
  Text, codes, ℕ, suc, Bool, false, ◌&&◌, ◌||◌, not, Option, none, some, List, [], ◌∷◌, ◌++◌,
  text_eq, nat_eq, ◌==◌, contains, if◌then◌else◌, eqb, leb, length, drop, any, select, is_alpha,
  starts_with, ends_with, replace_char, split,
}
use k3s_minecraft.Naming.{before_dollar}
use k3s_minecraft.Detect.{find_world}

abbrev pub marker : Text
marker = codes ".mcdash-seed.json"

abbrev pub excluded_tops : List Text
excluded_tops =
    codes "libraries" ∷ codes "versions" ∷ codes "logs" ∷ codes ".cache" ∷ codes "?" ∷ []

-- `^\.(forge|fabric|neoforge|install)[-_.]`
unfoldable pub is_install_marker : Text → Bool
unfolding any starts_with codes
is_install_marker top =
    any
      (λ word.
        starts_with top (codes "." ++ word ++ codes "-")
        || starts_with top (codes "." ++ word ++ codes "_")
        || starts_with top (codes "." ++ word ++ codes "."))
      (codes "forge" ∷ codes "fabric" ∷ codes "neoforge" ∷ codes "install" ∷ [])

unfoldable pub excluded_top : Text → Bool
unfolding is_install_marker ends_with codes contains
excluded_top top =
    contains excluded_tops top
    || ends_with top (codes ".tmp")
    || top == marker
    || is_install_marker top

-- `VANILLA_FILES`, up to the end of the text
unfoldable pub is_vanilla_name : Text → Bool
unfolding starts_with ends_with codes contains
is_vanilla_name s =
    s == codes "ops.json"
    || s == codes "whitelist.json"
    || (starts_with s (codes "banned-")
        && ends_with s (codes ".json")
        && leb 12 (length s)
        && not (contains s b'/'))

-- `$` also matches before a newline at the end.
unfoldable pub is_vanilla_file : Text → Bool
unfolding is_vanilla_name before_dollar
is_vanilla_file s = is_vanilla_name s || is_vanilla_name (before_dollar s)

-- `[x for x in PurePosixPath(rel).parts if x not in ("", ".")]`, of a path that is not absolute
unfoldable pub path_parts : Text → List Text
unfolding select split codes
path_parts rel = select (λ x. not (x == [] || x == codes ".")) (split b'/' rel)

-- `^[A-Za-z]:`
unfoldable pub is_drive : Text → Bool
unfolding is_alpha
is_drive [] = false
is_drive (c ∷ []) = false
is_drive (c ∷ d ∷ s) = is_alpha c && eqb d b':'

unfoldable pub safe_parts : List Text → Option (List Text)
unfolding contains is_drive codes
safe_parts [] = none
safe_parts (p ∷ ps) =
    if contains (p ∷ ps) (codes "..") then none else if is_drive p then none else some (p ∷ ps)

unfoldable pub safe_relpath : Text → Option (List Text)
unfolding replace_char starts_with path_parts safe_parts codes
safe_relpath rel =
    let r = replace_char b'\\' b'/' rel in
    if starts_with r (codes "/") then none else safe_parts (path_parts r)

-- `rel.split("/")[0]`
unfoldable pub top_of : Text → Text
top_of [] = []
top_of (c ∷ s) = let rest = top_of s in if eqb c b'/' then [] else c ∷ rest

-- `map_member`, for a name below the prefix and outside the world's directory
unfoldable pub map_rest : Text → Text → Text → Text → Option Text
unfolding top_of is_vanilla_file excluded_top codes
map_rest [] prefix world_dir mode = none
map_rest (c ∷ rel) prefix world_dir mode =
    if not (world_dir == (prefix ++ codes "world/")) && top_of (c ∷ rel) == codes "world"
    then none
    else if mode == codes "vanilla"
    then (if is_vanilla_file (c ∷ rel) then some (c ∷ rel) else none)
    else if excluded_top (top_of (c ∷ rel))
    then none
    else some (c ∷ rel)

unfoldable pub map_member : Text → Text → Text → Text → Option Text
unfolding starts_with map_rest codes
map_member name prefix world_dir mode =
    if starts_with name world_dir
    then some (codes "world/" ++ drop (length world_dir) name)
    else if not (starts_with name prefix)
    then none
    else map_rest (drop (length prefix) name) prefix world_dir mode

pub record Member : Type 0 where
  pub name : Text
  pub is_symlink : Bool
  pub content : List ℕ

-- What the Job does to the destination, oldest first.
pub data Write : Type 0 where
  wiped : Write
  make_dir : List Text → Write
  write_file : List Text → List ℕ → Write

-- The disk: whether a write raises `OSError`, whether a directory resolves to one outside the
-- destination, and whether there is a file.
pub record Disk : Type 0 where
  pub fails : List Write → Write → Bool
  pub escapes : List Write → List Text → Bool
  pub is_file : List Write → List Text → Bool

pub data SeedError : Type 0 where
  bad_mode not_a_directory no_world escaping not_seeded os_error : SeedError

pub data Outcome : Type 0 where
  wrote : ℕ → Outcome
  raised : SeedError → Outcome

-- `out.parent`
abbrev pub parent : List Text → List Text
parent [] = []
parent (p ∷ []) = []
parent (p ∷ q ∷ ps) = p ∷ parent (q ∷ ps)

abbrev pub targets : Member → Option Text → Option (List Text)
targets m none = none
targets m (some target) = if m.is_symlink then none else safe_relpath target

abbrev pub is_dir_name : Text → Option Text → Bool
is_dir_name name none = ends_with name (codes "/")
is_dir_name name (some target) = ends_with name (codes "/") || ends_with target (codes "/")

module _ (d : Disk) where
  -- A write, and the rest if it does not raise.
  unfoldable pub write :
      Write → List Write → (List Write → List Write × Outcome) → List Write × Outcome
  write w done rest =
      let after = rest (done ++ w ∷ []) in if d.fails done w then (done, raised os_error) else after

  -- The rest of a round once the parent directory is there, and the whole of it, for the parts of
  -- the target and whether it is a directory.
  unfoldable pub place_in :
      List Text
      → Bool
      → List ℕ
      → ℕ
      → (ℕ → List Write → List Write × Outcome)
      → List Write
      → List Write × Outcome
  unfolding write
  place_in rel is_dir content count rest made =
      if d.escapes made (parent rel)
      then (made, raised escaping)
      else if is_dir
      then write (make_dir rel) made (rest count)
      else write (write_file rel content) made (rest (suc count))

  unfoldable pub place :
      List Text
      → Bool
      → List ℕ
      → ℕ
      → List Write
      → (ℕ → List Write → List Write × Outcome)
      → List Write × Outcome
  unfolding place_in
  place rel is_dir content count done rest =
      write (make_dir (parent rel)) done (place_in rel is_dir content count rest)

  unfoldable pub place_member :
      Option (List Text)
      → Bool
      → List ℕ
      → ℕ
      → List Write
      → (ℕ → List Write → List Write × Outcome)
      → List Write × Outcome
  unfolding place
  place_member none is_dir content count done rest = rest count done
  place_member (some rel) is_dir content count done rest = place rel is_dir content count done rest

  module _ (prefix world_dir mode : Text) where
    -- The loop over the members.
    unfoldable pub extract :
        List Member
        → (ℕ → List Write → List Write × Outcome)
        → ℕ
        → List Write
        → List Write × Outcome
    unfolding place_member map_member safe_relpath ends_with
    extract [] finish count done = finish count done
    extract (m ∷ ms) finish count done =
        let target = map_member m.name prefix world_dir mode in
        place_member (targets m target) (is_dir_name m.name target) m.content count done
          (extract ms finish)

  -- The checks and the marker after the loop; `chown` at the end changes no file.
  unfoldable pub finish_seed : (ℕ → List ℕ) → ℕ → List Write → List Write × Outcome
  unfolding write codes
  finish_seed marker_text count done =
      if not (d.is_file done (codes "world" ∷ codes "level.dat" ∷ []))
      then (done, raised not_seeded)
      else write (write_file (marker ∷ []) (marker_text count)) done (λ w. (w, wrote count))

  abbrev pub names_of : List Member → List Text
  names_of [] = []
  names_of (m ∷ ms) = m.name ∷ names_of ms

  unfoldable pub seed_world :
      Option (Text × Text) → Text → (ℕ → List ℕ) → List Member → List Write × Outcome
  unfolding extract finish_seed write
  seed_world none mode marker_text ms = ([], raised no_world)
  seed_world (some (prefix, world_dir)) mode marker_text ms =
      write wiped [] (extract prefix world_dir mode ms (finish_seed marker_text) 0)

  unfoldable pub seed : Text → Bool → (ℕ → List ℕ) → List Member → List Write × Outcome
  unfolding seed_world find_world codes
  seed mode dest_is_dir marker_text ms =
      if not (mode == codes "vanilla" || mode == codes "full")
      then ([], raised bad_mode)
      else if not dest_is_dir
      then ([], raised not_a_directory)
      else seed_world (find_world (names_of ms)) mode marker_text ms
