-- ===== src/Backups/Edits.antt =====
-- src/mcdash/backups.py: labels, promotion, deletion and pruning.
use k3s_minecraft.Prelude.{
  Text, codes, ℕ, suc, ◌-◌, ◌/◌, Bool, true, false, not, Option, none, some, List, [], ◌∷◌, ◌++◌,
  nat_eq, text_eq, ◌==◌, if◌then◌else◌, length, take, select, Dict, get, put, remove, str, list_lt,
  sort,
}
use k3s_minecraft.Naming.{first_free}
use k3s_minecraft.Naming.Dates.{DateTime, digits}
use k3s_minecraft.Naming.BackupNames.{parse_backup_name}
use k3s_minecraft.Store.{
  path_eq, FilePath, archive_write, os_error, not_found, forbidden, ok, err, ZipFile, Sidecar,
  Files, protected, atomic_write, ◌>>=◌, set_label, drop_label,
}
use k3s_minecraft.Backups.{
  Detection, Tier, archive, backup, snapshot, tier_name, bid_of, Backup, Site, N, raise, pure, gets,
  require, split_id, json_path, path_of,
}
use k3s_minecraft.Backups.Reads.{get_backup}
use k3s_minecraft.Backups.Scan.{scan, is_snapshot_of, fields}

abbrev pub put_sidecar : FilePath → Sidecar → Files Detection → Files Detection
put_sidecar p side s = record s { sidecars = put s.sidecars p side }

abbrev pub put_zip : FilePath → ZipFile → Files Detection → Files Detection
put_zip p z s = record s { zips = put s.zips p z }

abbrev pub drop_zip : FilePath → Files Detection → Files Detection
drop_zip p s = record s { zips = remove s.zips p }

abbrev pub drop_sidecar : FilePath → Files Detection → Files Detection
drop_sidecar p s = record s { sidecars = remove s.sidecars p }

unfoldable pub when : Bool → N (Unit {0}) → N (Unit {0})
when true m = m
when false m = λ s. (ok tt, s)

abbrev is_archive : Tier → Bool
is_archive archive = true
is_archive _ = false

abbrev is_backup : Tier → Bool
is_backup backup = true
is_backup _ = false

abbrev is_snapshot : Tier → Bool
is_snapshot snapshot = true
is_snapshot _ = false

-- `data.update(...)` keeps the rest of a sidecar.
abbrev relabelled : Text → Text → Option Sidecar → Sidecar
relabelled label description none = record {
  label = label;
  name = label;
  description = description;
  world = [];
}
relabelled label description (some side) = record side {
  label = label;
  name = label;
  description = description;
}

-- `strftime("%Y-%m-%d_%H_%M_%S")`, of a year from 1000 on
unfoldable pub promoted_stamp : DateTime → Text
promoted_stamp t =
    digits (t.year / 100)
    ++ (digits t.year
        ++ (b'-' ∷ digits t.month
            ++ (b'-' ∷ digits t.day
                ++ (b'_' ∷ digits t.hour ++ (b'_' ∷ digits t.minute ++ b'_' ∷ digits t.second)))))

-- The name with `n`, from the second on.
unfoldable pub promoted_name : Text → Text → ℕ → Text
unfolding codes str
promoted_name stamp world n =
    if n == 1
    then stamp ++ codes "-" ++ world ++ codes ".zip"
    else stamp ++ codes "-" ++ world ++ codes "(" ++ str n ++ codes ").zip"

-- The names in a directory; `(dest_dir / name).exists()` is that the name is one of them.
abbrev in_front : FilePath → FilePath → List Text → List Text
in_front [] (name ∷ []) names = name ∷ names
in_front (p ∷ dir) (q ∷ path) names = if p == q then in_front dir path names else names
in_front _ _ names = names

unfoldable pub names_in : FilePath → Dict FilePath ZipFile → List Text
names_in dir [] = []
names_in dir ((path, z) ∷ zips) = in_front dir path (names_in dir zips)

module _ (site : Site) where
  -- `guard.check`
  unfoldable pub check : FilePath → N (Unit {0})
  unfolding protected
  check p s = if protected site.volume p then (err archive_write, s) else (ok tt, s)

  -- A change of the disk that is not guarded by itself.
  unfoldable pub change : FilePath → (Files Detection → Files Detection) → N (Unit {0})
  change p f s = if site.volume.fails s p then (err os_error, s) else (ok tt, f s)

  unfoldable pub label_backup : Text → Text → Text → N (Unit {0})
  unfolding split_id require path_of atomic_write json_path get put when gets ◌>>=◌ set_label
  label_backup backup_id label description = do
    (tier, rel) ← require not_found (split_id backup_id)
    (path, z) ← path_of site backup_id
    old ← gets (λ s. get s.sidecars (json_path path))
    _ ← when (is_backup tier) (
        atomic_write site.volume (json_path path)
          (put_sidecar (json_path path) (relabelled label description old)))
    set_label site.volume backup_id label description

  -- The loop for a name that is free, on fuel of one more than there are names in the directory.
  unfoldable pub free_name : Text → Text → Files Detection → Option Text
  unfolding promoted_name first_free names_in
  free_name stamp world s =
      let taken = names_in site.backups_dir s.zips in
      first_free (promoted_name stamp world) taken (suc (length taken)) 1

  abbrev date_or : Option DateTime → DateTime → DateTime
  date_or none t = t
  date_or (some t) _ = t

  -- The copy under a hidden name, and its renaming, are one change, which fails as a whole; the copy
  -- gets the time of its making.
  unfoldable pub promote : Text → Text → Text → N Backup
  unfolding split_id require path_of parse_backup_name promoted_stamp check free_name change
      atomic_write json_path get_backup when gets raise ◌>>=◌ codes tier_name
  promote snapshot_id label description = do
    (tier, rel) ← require not_found (split_id snapshot_id)
    _ ← when (not (is_snapshot tier)) (raise forbidden)
    (src, z) ← path_of site snapshot_id
    now ← gets (λ s. site.now s)
    let (world, ts) = parse_backup_name rel (some (site.from_timestamp z.mtime))
    _ ← check site.backups_dir
    name' ← gets (λ s. free_name (promoted_stamp (date_or ts now)) world s)
    name ← require os_error name'
    _ ← check (site.backups_dir ++ name ∷ [])
    made ← gets (λ s. site.mtime_now s)
    _ ←
        change (site.backups_dir ++ name ∷ [])
          (put_zip (site.backups_dir ++ name ∷ []) (record z { mtime = made }))
    _ ← atomic_write site.volume (json_path (site.backups_dir ++ name ∷ [])) (
        put_sidecar (json_path (site.backups_dir ++ name ∷ []))
          (record { label = label; name = label; description = description; world = world }))
    get_backup site (bid_of backup name)

  unfoldable pub delete : Text → N (Unit {0})
  unfolding split_id require path_of check change json_path drop_label when raise ◌>>=◌ remove
  delete backup_id = do
    (tier, rel) ← require not_found (split_id backup_id)
    _ ← when (is_archive tier) (raise forbidden)
    (path, z) ← path_of site backup_id
    _ ← check path
    _ ← change path (drop_zip path)
    _ ← when (is_backup tier) (change (json_path path) (drop_sidecar (json_path path)))
    drop_label site.volume backup_id

  unfoldable pub delete_all : List Backup → N (Unit {0})
  unfolding delete ◌>>=◌ pure
  delete_all [] = pure tt
  delete_all (b ∷ bs) = do _ ← delete b.id; delete_all bs

  unfoldable pub snapshots_of : Text → N (List Backup)
  unfolding scan is_snapshot_of select ◌>>=◌ pure
  snapshots_of world = do found ← scan site; pure (select (is_snapshot_of world) found)

  abbrev ids : List Backup → List Text
  ids [] = []
  ids (b ∷ bs) = b.id ∷ ids bs

  abbrev pub older : Backup → Backup → Bool
  older a b = list_lt (fields a.timestamp) (fields b.timestamp)

  unfoldable pub prune_snapshots : Text → ℕ → N (List Text)
  unfolding snapshots_of sort list_lt delete_all ◌>>=◌ pure
  prune_snapshots world keep = do
    found ← snapshots_of world
    let snaps = sort older found
    let doomed = take (length snaps - keep) snaps
    _ ← delete_all doomed
    pure (ids doomed)
