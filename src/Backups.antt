-- ===== src/Backups.antt =====
-- src/mcdash/backups.py: what `BackupIndex` reads. `detect_zip` and the conversion of a time of the
-- system are parameters.
pub mod Reads
pub mod Scan
pub mod Edits
pub mod Ids
pub mod Spared
use k3s_minecraft.Prelude.{
  Text, codes, ℕ, Bool, true, false, ◌||◌, not, Option, none, some, [], ◌∷◌, ◌++◌, nat_eq, text_eq,
  ◌==◌, contains, if◌then◌else◌, eqb, length, drop_end, lower, starts_with, ends_with, Dict, get,
}
use k3s_minecraft.Models.{ServerType, vanilla}
use k3s_minecraft.Naming.Dates.{DateTime}
use k3s_minecraft.Jobs.Seed.{path_parts}
use k3s_minecraft.Store.{
  path_eq, FilePath, FileError, not_found, ok, err, ZipFile, Files, Volume, M, ◌>>=◌,
}

-- Changes with what `detect_zip` finds.
abbrev pub detect_version : ℕ
detect_version = 2

pub record Detection : Type 0 where
  pub prefix : Option Text
  pub world_dir : Option Text
  pub server_type : ServerType
  pub mc_version : Option Text
  pub forge_version : Option Text
  pub properties : Dict Text Text

abbrev pub nothing_detected : Detection
nothing_detected = record {
  prefix = none;
  world_dir = none;
  server_type = vanilla;
  mc_version = none;
  forge_version = none;
  properties = [];
}

abbrev is_some : Option Text → Bool
is_some none = false
is_some (some t) = true

abbrev pub valid : Detection → Bool
valid det = is_some det.world_dir

pub data Tier : Type 0 where
  archive backup snapshot : Tier

unfoldable pub tier_name : Tier → Text
unfolding codes
tier_name archive = codes "archive"
tier_name backup = codes "backup"
tier_name snapshot = codes "snapshot"

-- `Tier(s)`
unfoldable pub tier_of : Text → Option Tier
unfolding codes
tier_of s =
    if s == codes "archive"
    then some archive
    else if s == codes "backup"
    then some backup
    else if s == codes "snapshot"
    then some snapshot
    else none

pub record Backup : Type 0 where
  pub id : Text
  pub tier : Tier
  pub world_name : Text
  pub timestamp : DateTime
  pub size_bytes : ℕ
  pub server_type : ServerType
  pub mc_version : Option Text
  pub properties : Dict Text Text
  pub label : Text
  pub description : Text

-- The configuration, and what the index relies on. `detect_zip` gives nothing where it raises.
pub record Site : Type 0 where
  pub volume : Volume Detection
  pub backups_dir : FilePath
  pub snapshots_dir : FilePath
  pub job_archive_mount : Text
  pub job_store_mount : Text
  pub detect_zip : ZipFile → Option Detection
  pub from_timestamp : ℕ → DateTime
  pub now : Files Detection → DateTime
  pub mtime_now : Files Detection → ℕ

abbrev pub N : Type 0 → Type 0
N A = M Detection A

unfoldable pub raise : {A : Type 0} → FileError → N A
raise e s = (err e, s)

unfoldable pub pure : {A : Type 0} → A → N A
pure a s = (ok a, s)

unfoldable pub gets : {A : Type 0} → (Files Detection → A) → N A
gets f s = (ok (f s), s)

unfoldable pub require : {A : Type 0} → FileError → Option A → N A
unfolding raise pure
require e none = raise e
require e (some a) = pure a

-- `s.partition("/")`, without the separator
unfoldable pub partition_slash : Text → Text × Text
partition_slash [] = ([], [])
partition_slash (c ∷ s) =
    let (before, after) = partition_slash s in if eqb c b'/' then ([], s) else (c ∷ before, after)

unfoldable pub is_bad_rel : Text → Bool
unfolding starts_with codes contains path_parts ends_with lower
is_bad_rel rel =
    rel == []
    || starts_with rel (codes "/")
    || contains (path_parts rel) (codes "..")
    || not (ends_with (lower rel) (codes ".zip"))

abbrev pub checked_rel : Text → Option Tier → Option (Tier × Text)
checked_rel rel none = none
checked_rel rel (some tier) = if is_bad_rel rel then none else some (tier, rel)

-- `none` is `NotFound`.
unfoldable pub split_id : Text → Option (Tier × Text)
unfolding tier_of partition_slash is_bad_rel
split_id backup_id = let (t, rel) = partition_slash backup_id in checked_rel rel (tier_of t)

-- `path.with_suffix(".json")` for a file that ends with ".zip"; ".zip" itself has no suffix.
unfoldable pub json_name : Text → Text
unfolding codes drop_end
json_name name =
    if eqb (length name) 4 then name ++ codes ".json" else drop_end 4 name ++ codes ".json"

unfoldable pub json_path : FilePath → FilePath
unfolding json_name
json_path [] = []
json_path (p ∷ []) = json_name p ∷ []
json_path (p ∷ q ∷ ps) = p ∷ json_path (q ∷ ps)

abbrev pub bid_of : Tier → Text → Text
bid_of tier rel = tier_name tier ++ codes "/" ++ rel

module _ (site : Site) where
  abbrev pub tier_root : Tier → FilePath
  tier_root archive = site.volume.archive_dir
  tier_root backup = site.backups_dir
  tier_root snapshot = site.snapshots_dir

  unfoldable pub zip_path : Tier → Text → FilePath
  unfolding path_parts
  zip_path tier rel = tier_root tier ++ path_parts rel

  -- `path_of`, and the file that is there
  unfoldable pub path_of : Text → N (FilePath × ZipFile)
  unfolding split_id require zip_path ◌>>=◌ gets get pure
  path_of backup_id = do
    (tier, rel) ← require not_found (split_id backup_id)
    file ← gets (λ s. get s.zips (zip_path tier rel))
    z ← require not_found file
    pure (zip_path tier rel, z)

  abbrev job_path : Option (Tier × Text) → Option Text
  job_path none = none
  job_path (some (archive, rel)) = some (site.job_archive_mount ++ codes "/" ++ rel)
  job_path (some (backup, rel)) = some (site.job_store_mount ++ codes "/backups/" ++ rel)
  job_path (some (snapshot, rel)) = some (site.job_store_mount ++ codes "/snapshots/" ++ rel)

  unfoldable pub job_path_of : Text → Option Text
  unfolding split_id codes
  job_path_of backup_id = job_path (split_id backup_id)
