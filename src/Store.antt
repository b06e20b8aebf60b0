-- ===== src/Store.antt =====
-- src/mcdash/store.py: the dashboard's files. A JSON file is the value that is written in it, and
-- `none` where it is missing or cannot be read. `os.path.realpath`, and which writes raise `OSError`,
-- are parameters. A path is the list of its parts; the lock makes each operation one step.
pub mod Roster
pub mod Labels
pub mod Audit
pub mod Guard
use k3s_minecraft.Prelude.{
  Text, codes, ℕ, zero, suc, ◌-◌, Bool, true, false, ◌&&◌, ◌||◌, Option, none, some, List, [], ◌∷◌,
  ◌++◌, text_eq, ◌==◌, contains, if◌then◌else◌, length, drop, strip, lower, Dict, get, put, remove,
  HasEq, list_beq, list_beq_iff,
}
use k3s_minecraft.Jobs.Seed.{parent}

abbrev pub FilePath : Type 0
FilePath = List Text

instance abbrev pub path_eq : HasEq FilePath
path_eq = record { same = list_beq; same_iff = list_beq_iff }

pub data FileError : Type 0 where
  archive_write os_error not_found forbidden : FileError

pub data FileResult (A : Type 0) : Type 0 where
  ok : A → FileResult A
  err : FileError → FileResult A

pub record Player : Type 0 where
  pub name : Text
  pub note : Text

-- The keyword arguments of `audit` are left out.
pub record AuditRecord : Type 0 where
  pub ts : Text
  pub actor : Text
  pub action : Text
  pub target : Text

-- An archive of a tier, and what is read of the file of labels beside a promoted one.
pub record ZipFile : Type 0 where
  pub size : ℕ
  pub mtime : ℕ
  pub content : List ℕ

pub record Sidecar : Type 0 where
  pub label : Text
  pub name : Text
  pub description : Text
  pub world : Text

-- What the index keeps of an archive; the detection is left as it is.
pub record IndexEntry (D : Type 0) : Type 0 where
  pub size : ℕ
  pub mtime : ℕ
  pub detect_version : ℕ
  pub detection : D

-- `none` is a line that is not JSON.
abbrev pub AuditLog : Type 0
AuditLog = List (Option AuditRecord)

pub record Files (D : Type 0) : Type 0 where
  pub roster_file : Option (List Player)
  pub labels_file : Option (Dict Text (Text × Text))
  pub index_file : Option (Dict Text (IndexEntry D))
  pub audit_file : Option AuditLog
  pub zips : Dict FilePath ZipFile
  pub sidecars : Dict FilePath Sidecar

-- `real == root or root in real.parents`
unfoldable pub is_within : FilePath → FilePath → Bool
is_within [] real = true
is_within (p ∷ ps) [] = false
is_within (p ∷ ps) (q ∷ qs) = p == q && is_within ps qs

pub record Volume (D : Type 0) : Type 0 where
  pub realpath : FilePath → FilePath
  pub fails : Files D → FilePath → Bool
  pub dir : FilePath
  pub archive_dir : FilePath

abbrev pub M : Type 0 → Type 0 → Type 0
M D A = Files D → FileResult A × Files D

unfoldable pub and_then :
    {D A B : Type 0} → FileResult A × Files D → (A → M D B) → FileResult B × Files D
and_then (ok a, s) f = f a s
and_then (err e, s) f = (err e, s)

infixl 5 ◌>>=◌
unfoldable pub ◌>>=◌ : {D A B : Type 0} → M D A → (A → M D B) → M D B
unfolding and_then
◌>>=◌ m f s = and_then (m s) f

module _ {D : Type 0} (v : Volume D) where
  -- `WriteGuard.check`, with the archive's directory as the only root: whether it raises
  unfoldable pub protected : FilePath → Bool
  unfolding is_within
  protected path = is_within (v.realpath v.archive_dir) (v.realpath path)

  -- A write that `atomic_write_bytes` makes
  unfoldable pub atomic_write : FilePath → (Files D → Files D) → M D (Unit {0})
  unfolding protected
  atomic_write path change s =
      if protected path || protected (parent path)
      then (err archive_write, s)
      else if v.fails s path
      then (err os_error, s)
      else (ok tt, change s)

  abbrev pub roster_path : FilePath
  roster_path = v.dir ++ codes "roster.json" ∷ []

  abbrev pub labels_path : FilePath
  labels_path = v.dir ++ codes "labels.json" ∷ []

  abbrev pub index_path : FilePath
  index_path = v.dir ++ codes "index.json" ∷ []

  abbrev pub audit_path : FilePath
  audit_path = v.dir ++ codes "audit.jsonl" ∷ []

-- `data` where it is there, and the default
unfoldable pub read_json : {A : Type 0} → Option A → A → A
read_json none default = default
read_json (some a) default = a

unfoldable pub named : List Player → List Player
named [] = []
named (p ∷ ps) = let rest = named ps in if p.name == [] then rest else p ∷ rest

unfoldable pub roster : {D : Type 0} → Files D → List Player
unfolding read_json named
roster s = named (read_json s.roster_file [])

-- The loop of `set_roster`.
unfoldable pub rows : List Text → List Player → List Player
unfolding strip lower contains
rows seen [] = []
rows seen (p ∷ ps) =
    let name = strip p.name in
    let skipped = rows seen ps in
    let kept = rows (lower name ∷ seen) ps in
    if name == [] || contains seen (lower name)
    then skipped
    else record { name = name; note = p.note } ∷ kept

unfoldable pub labels : {D : Type 0} → Files D → Dict Text (Text × Text)
unfolding read_json
labels s = read_json s.labels_file []

unfoldable pub load_index : {D : Type 0} → Files D → Dict Text (IndexEntry D)
unfolding read_json
load_index s = read_json s.index_file []

-- `data[backup_id] = ...`, or `data.pop(backup_id, None)` where both are empty
unfoldable pub relabel : Text → Text → Text → Dict Text (Text × Text) → Dict Text (Text × Text)
unfolding put remove
relabel backup_id [] [] data' = remove data' backup_id
relabel backup_id label description data' = put data' backup_id (label, description)

-- What the writes change.
abbrev pub put_roster : {D : Type 0} → List Player → Files D → Files D
put_roster players s = record s { roster_file = some (rows [] players) }

abbrev pub put_labels : {D : Type 0} → Dict Text (Text × Text) → Files D → Files D
put_labels data' s = record s { labels_file = some data' }

abbrev pub put_index : {D : Type 0} → Dict Text (IndexEntry D) → Files D → Files D
put_index index s = record s { index_file = some index }

abbrev pub put_audit : {D : Type 0} → AuditRecord → Files D → Files D
put_audit rec s = record s { audit_file = some (read_json s.audit_file [] ++ some rec ∷ []) }

-- `actor or "unknown"`
abbrev pub known : Text → Text
known [] = codes "unknown"
known (c ∷ actor) = c ∷ actor

module _ {D : Type 0} (v : Volume D) where
  unfoldable pub set_roster : List Player → M D (Unit {0})
  unfolding atomic_write rows
  set_roster players = atomic_write v (roster_path v) (put_roster players)

  unfoldable pub write_labels : Dict Text (Text × Text) → M D (Unit {0})
  unfolding atomic_write
  write_labels data' = atomic_write v (labels_path v) (put_labels data')

  unfoldable pub set_label : Text → Text → Text → M D (Unit {0})
  unfolding write_labels relabel labels
  set_label backup_id label description s =
      write_labels (relabel backup_id label description (labels s)) s

  unfoldable pub drop_label : Text → M D (Unit {0})
  unfolding write_labels labels get remove
  drop_label backup_id s = elim (get (labels s) backup_id) [
    | none ↦ (ok tt, s)
    | some old ↦ write_labels (remove (labels s) backup_id) s
  ]

  unfoldable pub save_index : Dict Text (IndexEntry D) → M D (Unit {0})
  unfolding atomic_write
  save_index index = atomic_write v (index_path v) (put_index index)

  -- Only the path itself is checked; the line is appended.
  unfoldable pub audit : Text → Text → Text → Text → M D (Unit {0})
  unfolding protected read_json
  audit ts actor action target s =
      if protected v (audit_path v)
      then (err archive_write, s)
      else if v.fails s (audit_path v)
      then (err os_error, s)
      else (
        ok tt,
        put_audit (record { ts = ts; actor = known actor; action = action; target = target }) s,
      )

unfoldable pub parsed : AuditLog → List AuditRecord
parsed [] = []
parsed (none ∷ lines) = parsed lines
parsed (some rec ∷ lines) = rec ∷ parsed lines

-- `lines[-limit:]`
unfoldable pub last_lines : ℕ → AuditLog → AuditLog
last_lines zero lines = lines
last_lines (suc n) lines = drop (length lines - suc n) lines

unfoldable pub read_audit : {D : Type 0} → ℕ → Files D → List AuditRecord
unfolding parsed last_lines read_json
read_audit limit s = parsed (last_lines limit (read_json s.audit_file []))
