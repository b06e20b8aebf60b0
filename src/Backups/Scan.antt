-- ===== src/Backups/Scan.antt =====
-- src/mcdash/backups.py: the scan of the three tiers. The files below a directory are those of the
-- volume's archives whose path is within it; none is a directory.
use k3s_minecraft.Prelude.{
  Text, codes, ℕ, Bool, true, false, ◌&&◌, ◌||◌, not, Option, none, some, List, [], ◌∷◌, ◌++◌,
  nat_eq, text_eq, ◌==◌, contains, if◌then◌else◌, eqb, ltb, length, drop, any, lower, starts_with,
  ends_with, join, Dict, list_lt, sort,
}
use k3s_minecraft.Naming.Dates.{DateTime}
use k3s_minecraft.Store.{FilePath, ZipFile, Files, is_within, ◌>>=◌, labels, load_index}
use k3s_minecraft.Backups.{
  Detection, Tier, archive, backup, snapshot, tier_name, bid_of, Backup, Site, N, pure, gets,
  tier_root, partition_slash,
}
use k3s_minecraft.Backups.Reads.{
  Index, detect_cached, save_index_if_changed, make_backup, sidecar_of,
}

-- `_hidden`
unfoldable pub hidden : FilePath → Bool
unfolding any starts_with codes
hidden parts = any (λ part. starts_with part (codes ".")) parts

abbrev last_part : FilePath → Text
last_part [] = []
last_part (p ∷ []) = p
last_part (p ∷ q ∷ ps) = last_part (q ∷ ps)

-- The patterns "**/*.zip", "*.zip" and "*/*.zip", on the path below the tier's root
unfoldable pub matches : Tier → FilePath → Bool
unfolding ends_with codes
matches archive rel = not (eqb (length rel) 0) && ends_with (last_part rel) (codes ".zip")
matches backup rel = eqb (length rel) 1 && ends_with (last_part rel) (codes ".zip")
matches snapshot rel = eqb (length rel) 2 && ends_with (last_part rel) (codes ".zip")

-- The order of paths: of their parts.
unfoldable pub path_lt : FilePath → FilePath → Bool
unfolding list_lt
path_lt [] [] = false
path_lt [] (q ∷ qs) = true
path_lt (p ∷ ps) [] = false
path_lt (p ∷ ps) (q ∷ qs) = list_lt p q || (p == q && path_lt ps qs)

pub record Found : Type 0 where
  pub tier : Tier
  pub rel : FilePath
  pub path : FilePath
  pub file : ZipFile

unfoldable pub found_in : Tier → FilePath → Dict FilePath ZipFile → List Found
unfolding is_within matches hidden
found_in tier root [] = []
found_in tier root ((path, z) ∷ files) =
    let rest = found_in tier root files in
    let rel = drop (length root) path in
    if is_within root path && matches tier rel && not (hidden rel)
    then record { tier = tier; rel = rel; path = path; file = z } ∷ rest
    else rest

abbrev found_lt : Found → Found → Bool
found_lt a b = path_lt a.path b.path

abbrev pub bid_found : Found → Text
bid_found f = bid_of f.tier (join (codes "/") f.rel)

-- `sort_key`: the world, then the newest first, then the tier and the identifier
abbrev tier_order : Tier → ℕ
tier_order archive = 1
tier_order backup = 0
tier_order snapshot = 2

abbrev pub fields : DateTime → List ℕ
fields t = t.year ∷ t.month ∷ t.day ∷ t.hour ∷ t.minute ∷ t.second ∷ []

unfoldable pub key_lt : Backup → Backup → Bool
unfolding list_lt lower
key_lt a b =
    let world_a = lower a.world_name in
    let world_b = lower b.world_name in
    let ta = fields a.timestamp in
    let tb = fields b.timestamp in
    list_lt world_a world_b
    || (world_a == world_b
        && (list_lt tb ta
            || (ta == tb
                && (ltb (tier_order a.tier) (tier_order b.tier)
                    || (eqb (tier_order a.tier) (tier_order b.tier) && list_lt a.id b.id)))))

-- The entries of files that are gone are left out; whether any was.
unfoldable pub drop_stale : List Text → Index → Index × Bool
unfolding contains
drop_stale seen [] = ([], false)
drop_stale seen ((bid, e) ∷ index) =
    let (rest, dirty) = drop_stale seen index in
    if contains seen bid then ((bid, e) ∷ rest, dirty) else (rest, true)

-- The identifiers of snapshots have the world as their second part.
unfoldable pub is_snapshot_of : Text → Backup → Bool
unfolding partition_slash tier_name
is_snapshot_of world b =
    tier_name b.tier == tier_name snapshot && (partition_slash (partition_slash b.id).1).0 == world

module _ (site : Site) where
  unfoldable pub iter_files : Files Detection → List Found
  unfolding found_in sort path_lt
  iter_files s =
      sort found_lt (found_in archive (tier_root site archive) s.zips)
      ++ (sort found_lt (found_in backup (tier_root site backup) s.zips)
          ++ sort found_lt (found_in snapshot (tier_root site snapshot) s.zips))

  abbrev with_made : Option Backup → List Backup → List Backup
  with_made none out = out
  with_made (some b) out = b ∷ out

  -- The loop of `scan`: what was seen, what was made, the index, and whether it changed.
  unfoldable pub scan_files :
      Files Detection → List Found → Index → Bool → List Text × List Backup × Index × Bool
  unfolding detect_cached make_backup sidecar_of labels join codes tier_name
  scan_files s [] index dirty = ([], [], index, dirty)
  scan_files s (f ∷ fs) index dirty =
      let (det, index', new) = detect_cached site (bid_found f) f.file index in
      let (seen, out, index'', dirty') = scan_files s fs index' (dirty || new) in
      (
        bid_found f ∷ seen,
        with_made
            (make_backup site f.tier (join (codes "/") f.rel) f.file det
              (sidecar_of site f.tier f.path s) (labels s))
            out,
        index'',
        dirty',
      )

  unfoldable pub scan : N (List Backup)
  unfolding scan_files iter_files drop_stale save_index_if_changed sort key_lt load_index ◌>>=◌ pure
      gets
  scan = do
    (seen, out, index, dirty) ← gets (λ s. scan_files s (iter_files s) (load_index s) false)
    let (index', stale) = drop_stale seen index
    _ ← save_index_if_changed site (dirty || stale) index'
    pure (sort key_lt out)
