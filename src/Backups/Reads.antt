-- ===== src/Backups/Reads.antt =====
-- src/mcdash/backups.py: the cached detections, and what is known of a backup.
use k3s_minecraft.Prelude.{
  Text, codes, Bool, true, false, ◌&&◌, Option, none, some, [], nat_eq, text_eq, if◌then◌else◌, eqb,
  Dict, get, put,
}
use k3s_minecraft.Naming.BackupNames.{parse_backup_name, or_else}
use k3s_minecraft.Store.{
  path_eq, FilePath, os_error, not_found, FileResult, ok, err, ZipFile, Sidecar, IndexEntry, Files,
  ◌>>=◌, labels, load_index, save_index,
}
use k3s_minecraft.Backups.{
  detect_version, Detection, nothing_detected, valid, Tier, tier_name, Backup, Site, N, pure, gets,
  require, split_id, json_path, bid_of, path_of, backup,
}

-- `_detect_cached`: the detection, the index, and whether that changed.
unfoldable pub is_fresh : ZipFile → Option (IndexEntry Detection) → Option Detection
is_fresh z none = none
is_fresh z (some e) =
    if eqb e.size z.size && eqb e.mtime z.mtime && eqb e.detect_version detect_version
    then some e.detection
    else none

abbrev pub Index : Type 0
Index = Dict Text (IndexEntry Detection)

abbrev index_entry : ZipFile → Detection → IndexEntry Detection
index_entry z det = record {
  size = z.size;
  mtime = z.mtime;
  detect_version = detect_version;
  detection = det;
}

abbrev inspected : Option Detection → Detection
inspected none = nothing_detected
inspected (some det) = det

module _ (site : Site) where
  unfoldable pub detect_cached : Text → ZipFile → Index → Detection × Index × Bool
  unfolding is_fresh get put
  detect_cached bid z index = elim (is_fresh z (get index bid)) [
    | some det ↦ (det, index, false)
    | none ↦ (
      inspected (site.detect_zip z),
      put index bid (index_entry z (inspected (site.detect_zip z))),
      true,
    )
  ]

  -- An `OSError` is logged; the archive's error goes on.
  abbrev pub logged :
      FileResult (Unit {0}) × Files Detection → FileResult (Unit {0}) × Files Detection
  logged (err os_error, s) = (ok tt, s)
  logged r = r

  unfoldable pub save_index_if_changed : Bool → Index → N (Unit {0})
  unfolding save_index pure
  save_index_if_changed true index s = logged (save_index site.volume index s)
  save_index_if_changed false index s = (ok tt, s)

  unfoldable pub detection : Text → N Detection
  unfolding path_of detect_cached save_index_if_changed gets load_index ◌>>=◌ pure
  detection backup_id = do
    (path, z) ← path_of site backup_id
    index ← gets load_index
    let (det, index', dirty) = detect_cached backup_id z index
    _ ← save_index_if_changed dirty index'
    pure det

  -- The sidecar's texts, where the tier has one.
  unfoldable pub sidecar_of : Tier → FilePath → Files Detection → Option Sidecar
  unfolding json_path get
  sidecar_of backup path s = get s.sidecars (json_path path)
  sidecar_of _ path s = none

  -- The world, the label and the description, from the name, then the sidecar, then the labels.
  unfoldable pub with_sidecar : Text → Option Sidecar → Text × Text × Text
  with_sidecar world none = (world, [], [])
  with_sidecar world (some side) =
      (or_else side.world world, or_else side.label side.name, side.description)

  unfoldable pub with_labels : Text × Text × Text → Option (Text × Text) → Text × Text × Text
  with_labels texts none = texts
  with_labels (world, label, description) (some (l, d)) =
      (world, or_else l label, or_else d description)

  unfoldable pub make_backup :
      Tier → Text → ZipFile → Detection → Option Sidecar → Dict Text (Text × Text) → Option Backup
  unfolding parse_backup_name with_sidecar with_labels get codes tier_name
  make_backup tier rel z det side names =
      let (world, ts) = parse_backup_name rel (some (site.from_timestamp z.mtime)) in
      let (world', label, description) =
        with_labels (with_sidecar world side) (get names (bid_of tier rel)) in
      if valid det
      then some (record {
        id = bid_of tier rel;
        tier = tier;
        world_name = world';
        timestamp = elim ts [ some t ↦ t | none ↦ site.from_timestamp z.mtime ];
        size_bytes = z.size;
        server_type = det.server_type;
        mc_version = det.mc_version;
        properties = det.properties;
        label = label;
        description = description;
      })
      else none

  -- `get`
  unfoldable pub get_backup : Text → N Backup
  unfolding split_id require path_of detection make_backup sidecar_of gets labels ◌>>=◌
  get_backup backup_id = do
    (tier, rel) ← require not_found (split_id backup_id)
    (path, z) ← path_of site backup_id
    det ← detection backup_id
    made ← gets (λ s. make_backup tier rel z det (sidecar_of tier path s) (labels s))
    require not_found made
