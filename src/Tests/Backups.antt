-- ===== src/Tests/Backups.antt =====
-- src/mcdash/backups.py on a small store.
use Prim.Native.Nat.{◌≤◌, ◌<◌}
use k3s_minecraft.Prelude.{
  Text, Bool-cases, inl, inr, ◌==◌, ◌≢◌, sym, subst, arith, ends_with, ends_with-append, eqb,
  length, drop_end, codes, ℕ, true, false, none, some, List, [], ◌∷◌, contains, text_eq, list_beq,
  ◌≡◌, refl,
}
use k3s_minecraft.Naming.Dates.{DateTime}
use k3s_minecraft.Jobs.Seed.{path_parts}
use k3s_minecraft.Jobs.Seed.Paths.{resolve}
use k3s_minecraft.Store.{path_eq, FilePath, Files, Volume, ZipFile, is_within, protected}
use k3s_minecraft.Backups.{
  Detection, Site, snapshot, tier_root, zip_path, split_id, json_path, json_name,
}
use k3s_minecraft.Backups.Edits.{names_in, promoted_name, free_name}
use k3s_minecraft.Backups.Ids.{zip_path-stays, free_name-free}
use k3s_minecraft.Backups.Spared.{
  Edit, labelling, promotion, deletion, pruning, edit_all, at_path, edit_all-keeps_archive,
}

abbrev noon : DateTime
noon = record { year = 2026; month = 2; day = 28; hour = 12; minute = 5; second = 59 }

abbrev volume : Volume Detection
volume = record {
  realpath = λ p. p;
  fails = λ s p. false;
  dir = codes "store" ∷ codes "dashboard" ∷ [];
  archive_dir = codes "archive" ∷ [];
}

abbrev site : Site
site = record {
  volume = volume;
  backups_dir = codes "store" ∷ codes "backups" ∷ [];
  snapshots_dir = codes "store" ∷ codes "snapshots" ∷ [];
  job_archive_mount = codes "/archive";
  job_store_mount = codes "/store";
  detect_zip = λ z. none;
  from_timestamp = λ t. noon;
  now = λ s. noon;
  mtime_now = λ s. 7;
}

abbrev zip : ZipFile
zip = record { size = 3; mtime = 5; content = [] }

abbrev old : FilePath
old = codes "archive" ∷ codes "a.zip" ∷ []

abbrev files : Files Detection
files = record {
  roster_file = none;
  labels_file = none;
  index_file = none;
  audit_file = none;
  zips =
      (old, zip)
      ∷ (codes "store" ∷ codes "snapshots" ∷ codes "w" ∷ codes "20260228T120559Z.zip" ∷ [], zip)
      ∷ (codes "store" ∷ codes "backups" ∷ codes "2026-02-28_12_05_59-w.zip" ∷ [], zip)
      ∷ [];
  sidecars = [];
}

abbrev edits : List Edit
edits =
    deletion (codes "archive/a.zip")
    ∷ promotion (codes "snapshot/w/20260228T120559Z.zip") (codes "l") []
    ∷ labelling (codes "archive/a.zip") (codes "l") []
    ∷ pruning (codes "w") 0
    ∷ []

-- A sidecar is never the archive's directory itself.
outside_archive :
    (q : FilePath) → protected volume q ≡ false → protected volume (json_path q) ≡ false
unfolding protected is_within json_path
outside_archive [] h = h
outside_archive (p ∷ []) h = elim (Bool-cases (codes "archive" == json_name p)) [
  | inr other ↦ ground arith
  | inl same ↦ absurd (
      no_json (
        subst (λ t. ends_with t (codes ".json") ≡ true)
          (sym ((text_eq.same_iff (codes "archive") (json_name p)).0 same)) (json_ending p)))
]
  where
    json_ending : (p : Text) → ends_with (json_name p) (codes ".json") ≡ true
    json_ending p = elim (Bool-cases (eqb (length p) 4)) [
      | inl short ↦ unfold json_name in rw short (ends_with-append p (codes ".json"))
      | inr long ↦ unfold json_name in rw long (ends_with-append (drop_end 4 p) (codes ".json"))
    ]

    no_json : ends_with (codes "archive") (codes ".json") ≢ true
    no_json = unfold ends_with codes list_beq in λ e. cc
outside_archive (p ∷ q ∷ ps) h = ground arith

edit_all-keeps_archive_example : at_path old (edit_all site edits files) ≡ at_path old files
unfolding is_within list_beq codes protected
edit_all-keeps_archive_example = edit_all-keeps_archive site outside_archive old edits files refl

zip_path-stays_example :
    resolve (tier_root site snapshot) (path_parts (codes "w/20260228T120559Z.zip"))
    ≡ zip_path site snapshot (codes "w/20260228T120559Z.zip")
unfolding split_id list_beq codes
zip_path-stays_example =
    zip_path-stays site (codes "snapshot/w/20260228T120559Z.zip") (codes "w/20260228T120559Z.zip")
      snapshot refl

free_name-free_example :
    (m : ℕ) × (free_name site (codes "2026-02-28_12_05_59") (codes "w") files
      ≡ some (promoted_name (codes "2026-02-28_12_05_59") (codes "w") m))
    × (contains
          (names_in site.backups_dir files.zips)
          (promoted_name (codes "2026-02-28_12_05_59") (codes "w") m)
        ≡ false)
    × ((k : ℕ)
        → 1 ≤ k
        → k < m
        → contains
            (names_in site.backups_dir files.zips)
            (promoted_name (codes "2026-02-28_12_05_59") (codes "w") k)
          ≡ true)
free_name-free_example = free_name-free site (codes "2026-02-28_12_05_59") (codes "w") files
