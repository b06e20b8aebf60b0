-- ===== src/Tests/Files.antt =====
-- src/mcdash/store.py on a small store.
use Prim.Native.Nat.{◌≤◌}
use k3s_minecraft.Prelude.{
  Text, codes, ℕ, ◌-◌, true, false, none, some, List, [], ◌∷◌, ◌++◌, get, text_eq, ◌==◌, contains,
  any, if◌then◌else◌, length, drop, list_beq, ◌≡◌, refl,
}
use k3s_minecraft.Store.{
  FilePath, Files, Player, Volume, AuditRecord, is_within, read_json, relabel, roster, labels,
  set_roster, set_label, drop_label, audit, parsed, read_audit, put_roster, put_labels, put_audit,
}
use k3s_minecraft.Store.Guard.{label_change, perform, perform-protected}
use k3s_minecraft.Store.Roster.{lowers, is_asked, no_repeat, roster-set_roster}
use k3s_minecraft.Store.Labels.{entry_for, labels-set_label, labels-drop_label}
use k3s_minecraft.Store.Audit.{read_audit-audit}

abbrev store_at : FilePath → Volume ℕ
store_at dir = record {
  realpath = λ p. p;
  fails = λ s p. false;
  dir = dir;
  archive_dir = codes "archive" ∷ [];
}

abbrev volume : Volume ℕ
volume = store_at (codes "store" ∷ codes "dashboard" ∷ [])

abbrev files : Files ℕ
files = record {
  roster_file = none;
  labels_file = some ((codes "backup/a.zip", (codes "old", [])) ∷ []);
  index_file = none;
  audit_file = some (none ∷ []);
  zips = [];
  sidecars = [];
}

abbrev players : List Player
players =
    record { name = codes " Alex "; note = [] }
    ∷ record { name = codes "alex"; note = codes "again" }
    ∷ record { name = codes " "; note = [] }
    ∷ []

roster-set_roster_example :
    ((k : Text)
      → contains (lowers (roster (put_roster players files))) k ≡ any (is_asked k) players)
    × (no_repeat (lowers (roster (put_roster players files))) ≡ true)
unfolding set_roster list_beq codes
roster-set_roster_example = roster-set_roster volume players files (put_roster players files) refl

labels-set_label_example :
    get
      (labels (put_labels (relabel (codes "backup/a.zip") [] [] (labels files)) files))
      (codes "backup/a.zip")
    ≡ (if codes "backup/a.zip" == codes "backup/a.zip"
        then entry_for [] []
        else get (labels files) (codes "backup/a.zip"))
unfolding set_label list_beq codes
labels-set_label_example =
    labels-set_label volume (codes "backup/a.zip") [] [] files
      (put_labels (relabel (codes "backup/a.zip") [] [] (labels files)) files) refl
      (codes "backup/a.zip")

labels-drop_label_example : get (labels files) (codes "backup/a.zip") ≡ (
    if codes "backup/a.zip" == codes "backup/b.zip"
    then none
    else get (labels files) (codes "backup/a.zip"))
unfolding drop_label list_beq codes
labels-drop_label_example =
    labels-drop_label volume (codes "backup/b.zip") files files refl (codes "backup/a.zip")

abbrev started : AuditRecord
started = record {
  ts = codes "now";
  actor = codes "unknown";
  action = codes "start";
  target = codes "w";
}

read_audit-audit_example :
    (read_audit 1 (put_audit started files) ≡ parsed (drop (1 - 0) (none ∷ [])) ++ started ∷ [])
    × (length (read_audit 1 (put_audit started files)) ≤ 1)
unfolding audit read_json list_beq codes
read_audit-audit_example =
    read_audit-audit volume (codes "now") [] (codes "start") (codes "w") files
      (put_audit started files) 0 refl

perform-protected_example :
    (perform
      (store_at (codes "archive" ∷ codes "dashboard" ∷ []))
      (label_change (codes "a") (codes "b") [])
      files).1
    ≡ files
unfolding is_within list_beq codes
perform-protected_example =
    perform-protected (store_at (codes "archive" ∷ codes "dashboard" ∷ []))
      (label_change (codes "a") (codes "b") []) files refl (refl, (refl, (refl, (refl, tt))))
