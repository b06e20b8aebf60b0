-- ===== src/Jobs/Snapshot.antt =====
-- src/mcdash/jobs/snapshot.py: what a snapshot of a world's volume holds.
pub mod Names
pub mod Levels
pub mod ArcNames
pub mod Plans
pub mod RoundTrip
use k3s_minecraft.Prelude.{
  Text, codes, ℕ, Bool, false, ◌&&◌, ◌||◌, Option, none, some, List, [], ◌∷◌, ◌++◌, text_eq, ◌==◌,
  if◌then◌else◌, join, list_lt, sort,
}
use k3s_minecraft.Jobs.Seed.{Member, excluded_top}

-- The volume. `other` is whatever is neither a directory nor a regular file, links too, or a file
-- that vanishes before it is read.
mutual
  pub data Node : Type 0 where
    file : List ℕ → Node
    dir : Entries → Node
    other : Node

  pub data Entries : Type 0 where
    nil : Entries
    entry : Text → Node → Entries → Entries

-- An entry of the archive, by its path from the volume; a directory has no content.
pub record Stored : Type 0 where
  pub path : List Text
  pub content : Option (List ℕ)

-- The name that it is written under.
abbrev pub arc_name : List Text → Option (List ℕ) → Text
arc_name path none = join (codes "/") path ++ codes "/"
arc_name path (some content) = join (codes "/") path

abbrev bytes_of : Option (List ℕ) → List ℕ
bytes_of none = []
bytes_of (some content) = content

unfoldable pub member_of : Stored → Member
unfolding join codes
member_of s = record {
  name = arc_name s.path s.content;
  is_symlink = false;
  content = bytes_of s.content;
}

unfoldable pub members_of : List Stored → List Member
unfolding member_of
members_of [] = []
members_of (s ∷ ss) = member_of s ∷ members_of ss

-- What the entries of a directory add, by their names.
abbrev pub Named : Type 0
Named = Text × List Stored

unfoldable pub before : Named → Named → Bool
unfolding list_lt
before a b = list_lt a.0 b.0

abbrev pub concat : List Named → List Stored
concat [] = []
concat ((n, ss) ∷ rest) = ss ++ concat rest

unfoldable pub sorted_concat : List Named → List Stored
unfolding sort before
sorted_concat xs = concat (sort before xs)

-- At the top, the excluded entries are left out.
unfoldable pub left_out : List Text → Text → Bool
unfolding excluded_top
left_out [] name = excluded_top name
left_out (p ∷ path) name = false

abbrev pub own_entry : List Text → List Stored
own_entry [] = []
own_entry (p ∷ path) = record { path = p ∷ path; content = none } ∷ []

unfoldable pub files_of : List Text → Entries → List Named
unfolding left_out
files_of path nil = []
files_of path (entry name (file content) es) =
    let rest = files_of path es in
    let own : Stored = record { path = path ++ name ∷ []; content = some content } in
    if left_out path name then rest else (name, own ∷ []) ∷ rest
files_of path (entry name (dir ds) es) = files_of path es
files_of path (entry name other es) = files_of path es

-- What `os.walk` adds below a directory, by the names of the directories there: the directory, its
-- files and then its own directories.
unfoldable pub dirs_of : List Text → Entries → List Named
unfolding files_of sorted_concat left_out
dirs_of path nil = []
dirs_of path (entry name (file content) es) = dirs_of path es
dirs_of path (entry name other es) = dirs_of path es
dirs_of path (entry name (dir ds) es) =
    let rest = dirs_of path es in
    let at = path ++ name ∷ [] in
    let own = own_entry at ++ (sorted_concat (files_of at ds) ++ sorted_concat (dirs_of at ds)) in
    if left_out path name then rest else (name, own) ∷ rest

-- The whole walk, from the volume on.
unfoldable pub walk : Entries → List Stored
unfolding dirs_of files_of sorted_concat
walk es = sorted_concat (files_of [] es) ++ sorted_concat (dirs_of [] es)

-- `(src / "world" / "level.dat").is_file()`
unfoldable pub has_file : Text → Entries → Bool
has_file name nil = false
has_file name (entry n (file content) es) = name == n || has_file name es
has_file name (entry n (dir ds) es) = has_file name es
has_file name (entry n other es) = has_file name es

unfoldable pub has_level : Entries → Bool
unfolding has_file codes
has_level nil = false
has_level (entry n (dir ds) es) =
    (codes "world" == n && has_file (codes "level.dat") ds) || has_level es
has_level (entry n (file content) es) = has_level es
has_level (entry n other es) = has_level es

-- What is stored, or `none` for the `SnapshotError`. The first argument says whether the file is
-- there through a link.
unfoldable pub snapshot : Bool → Entries → Option (List Stored)
unfolding has_level walk
snapshot linked es = if linked || has_level es then some (walk es) else none
