-- ===== src/Backups/Spared.antt =====
-- src/mcdash/backups.py: no operation changes a file of the archive.
use k3s_minecraft.Prelude.{
  Text, ℕ, Bool, true, false, ◌||◌, Option, none, some, List, [], ◌∷◌, Dict, get, remove, get-put,
  get-remove, text_eq, ◌==◌, ◌≡◌, refl, ◌∙◌, ap, subst, arith, Bool-cases, inl, inr,
}
use k3s_minecraft.Jobs.Seed.{parent}
use k3s_minecraft.Store.{
  FilePath, path_eq, FileError, FileResult, ok, err, archive_write, os_error, not_found, forbidden,
  Files, ZipFile, protected, atomic_write, and_then, ◌>>=◌, set_label, drop_label, write_labels,
  labels, relabel, save_index, put_labels, put_index, Sidecar,
}
use k3s_minecraft.Backups.{
  Detection, Site, N, raise, pure, gets, require, path_of, json_path, Backup,
}
use k3s_minecraft.Backups.Reads.{detection, Index, logged, save_index_if_changed, get_backup}
use k3s_minecraft.Backups.Scan.{scan}
use k3s_minecraft.Backups.Edits.{
  put_sidecar, put_zip, drop_zip, drop_sidecar, when, check, change, label_backup, promote, delete,
  delete_all, snapshots_of, prune_snapshots,
}

-- What users and the reconciler ask of the backups.
pub data Edit : Type 0 where
  labelling : Text → Text → Text → Edit
  promotion : Text → Text → Text → Edit
  deletion : Text → Edit
  pruning : Text → ℕ → Edit

unfoldable pub edit : Site → Edit → Files Detection → Files Detection
unfolding label_backup promote delete prune_snapshots
edit site (labelling i label description) s = (label_backup site i label description s).1
edit site (promotion i label description) s = (promote site i label description s).1
edit site (deletion i) s = (delete site i s).1
edit site (pruning world keep) s = (prune_snapshots site world keep s).1

-- One after another, whether they return or raise.
unfoldable pub edit_all : Site → List Edit → Files Detection → Files Detection
unfolding edit
edit_all site [] s = s
edit_all site (e ∷ es) s = edit_all site es (edit site e s)

-- The archive and the sidecar at a path.
abbrev pub at_path : FilePath → Files Detection → Option ZipFile × Option Sidecar
at_path p s = (get s.zips p, get s.sidecars p)

-- Whatever it returns or raises, what is at the path stays as it is.
pub record Keeps (p : FilePath) {A : Type 0} (m : N A) : Type 0 where
  pub at : (s : Files Detection) → at_path p (m s).1 ≡ at_path p s

module _ (p : FilePath) where
  Keeps-and_then :
      {A B : Type 0} (r : FileResult A × Files Detection) (f : A → N B)
      (z : Option ZipFile × Option Sidecar)
      → at_path p r.1 ≡ z
      → ((a : A) → Keeps p (f a))
      → at_path p (and_then r f).1 ≡ z
  unfolding and_then
  Keeps-and_then (ok a, s) f z h k = (k a).at s ∙ h
  Keeps-and_then (err e, s) f z h k = h

  Keeps-bind :
      {A B : Type 0} (m : N A) (f : A → N B)
      → Keeps p m
      → ((a : A) → Keeps p (f a))
      → Keeps p (m >>= f)
  unfolding ◌>>=◌
  Keeps-bind m f h k = record { at = λ s. Keeps-and_then (m s) f (at_path p s) (h.at s) k }

  Keeps-gets : {A : Type 0} (f : Files Detection → A) → Keeps p (gets f)
  unfolding gets
  Keeps-gets f = record { at = λ s. refl }

  Keeps-pure : {A : Type 0} (a : A) → Keeps p (pure a)
  unfolding pure
  Keeps-pure a = record { at = λ s. refl }

  Keeps-raise : {A : Type 0} (e : FileError) → Keeps p {A = A} (raise e)
  unfolding raise
  Keeps-raise e = record { at = λ s. refl }

  Keeps-require : {A : Type 0} (e : FileError) (x : Option A) → Keeps p (require e x)
  unfolding require raise pure
  Keeps-require e none = record { at = λ s. refl }
  Keeps-require e (some a) = record { at = λ s. refl }

  Keeps-when : (b : Bool) (m : N (Unit {0})) → Keeps p m → Keeps p (when b m)
  unfolding when
  Keeps-when true m h = record { at = λ s. h.at s }
  Keeps-when false m h = record { at = λ s. refl }

  ruleset rules = (Keeps-bind, Keeps-gets, Keeps-pure, Keeps-raise, Keeps-require, Keeps-when, refl)

  module _ (site : Site) where
    -- A write that leaves the archives alone.
    Keeps-atomic_write :
        (q : FilePath) (f : Files Detection → Files Detection)
        → (protected site.volume q ≡ false → (s : Files Detection) → at_path p (f s) ≡ at_path p s)
        → Keeps p (atomic_write site.volume q f)
    unfolding atomic_write
    Keeps-atomic_write q f h = record {
      at = λ s. elim (Bool-cases (protected site.volume q || protected site.volume (parent q))) [
        | inl kept ↦ rw kept refl
        | inr open' ↦ rw open' (elim (Bool-cases (site.volume.fails s q)) [
          | inl failed ↦ rw failed refl
          | inr fine ↦ rw fine (h (ground arith) s)
        ])
      ];
    }

    Keeps-change :
        (q : FilePath) (f : Files Detection → Files Detection)
        → ((s : Files Detection) → at_path p (f s) ≡ at_path p s)
        → Keeps p (change site q f)
    unfolding change
    Keeps-change q f h = record {
      at = λ s. elim (Bool-cases (site.volume.fails s q)) [
        | inl failed ↦ rw failed refl
        | inr fine ↦ rw fine (h s)
      ];
    }

    -- After the guard, the rest may use that the path is not in the archive.
    Keeps-check :
        {B : Type 0} (q : FilePath) (f : Unit {0} → N B)
        → (protected site.volume q ≡ false → Keeps p (f tt))
        → Keeps p (check site q >>= f)
    unfolding check ◌>>=◌ and_then
    Keeps-check q f h = record {
      at = λ s. elim (Bool-cases (protected site.volume q)) [
        | inl kept ↦ rw kept refl
        | inr open' ↦ rw open' ((h open').at s)
      ];
    }

    path_of-Keeps : (backup_id : Text) → Keeps p (path_of site backup_id)
    unfolding path_of
    path_of-Keeps backup_id = search rules depth 10

    logged-same : (r : FileResult (Unit {0}) × Files Detection) → (logged site r).1 ≡ r.1
    logged-same (ok tt, s) = refl
    logged-same (err os_error, s) = refl
    logged-same (err archive_write, s) = refl
    logged-same (err not_found, s) = refl
    logged-same (err forbidden, s) = refl

    save_index-Keeps : (index : Index) → Keeps p (save_index site.volume index)
    unfolding save_index
    save_index-Keeps index = Keeps-atomic_write _ (put_index index) (λ out s. refl)

    save-Keeps : (dirty : Bool) (index : Index) → Keeps p (save_index_if_changed site dirty index)
    unfolding save_index_if_changed
    save-Keeps false index = record { at = λ s. refl }
    save-Keeps true index = record {
      at = λ s.
          ap (at_path p) (logged-same (save_index site.volume index s))
          ∙ (save_index-Keeps index).at s;
    }

    detection-Keeps : (backup_id : Text) → Keeps p (detection site backup_id)
    unfolding detection
    detection-Keeps backup_id = search (rules, path_of-Keeps, save-Keeps) depth 12

    get_backup-Keeps : (backup_id : Text) → Keeps p (get_backup site backup_id)
    unfolding get_backup
    get_backup-Keeps backup_id = search (rules, path_of-Keeps, detection-Keeps) depth 12

    scan-Keeps : Keeps p (scan site)
    unfolding scan
    scan-Keeps = search (rules, save-Keeps) depth 12

    snapshots_of-Keeps : (world : Text) → Keeps p (snapshots_of site world)
    unfolding snapshots_of
    snapshots_of-Keeps world = search (rules, scan-Keeps) depth 10

    write_labels-Keeps : (d : Dict Text (Text × Text)) → Keeps p (write_labels site.volume d)
    unfolding write_labels
    write_labels-Keeps d = Keeps-atomic_write _ (put_labels d) (λ out s. refl)

    set_label-Keeps :
        (i label description : Text) → Keeps p (set_label site.volume i label description)
    unfolding set_label
    set_label-Keeps i label description = record {
      at = λ s. (write_labels-Keeps (relabel i label description (labels s))).at s;
    }

    drop_label-Keeps : (i : Text) → Keeps p (drop_label site.volume i)
    unfolding drop_label
    drop_label-Keeps i = record { at = λ s. go s (get (labels s) i) refl }
      where
        go :
            (s : Files Detection) (x : Option (Text × Text))
            → get (labels s) i ≡ x
            → at_path p (drop_label site.volume i s).1 ≡ at_path p s
        go s none e = rw (drop_label, e) refl
        go s (some old) e = rw (drop_label, e) ((write_labels-Keeps (remove (labels s) i)).at s)

    module _ (inside : protected site.volume p ≡ true)
        (beside : (q : FilePath)
          → protected site.volume q ≡ false
          → protected site.volume (json_path q) ≡ false) where
      other_path : (q : FilePath) → protected site.volume q ≡ false → (p == q) ≡ false
      other_path q out = elim (Bool-cases (p == q)) [
        | inr other ↦ other
        | inl same ↦
            let e = (path_eq.same_iff p q).0 same in
            absurd (cc (subst (λ t. protected site.volume t ≡ true) e inside, out))
      ]

      put_zip-Keeps :
          (q : FilePath) (z : ZipFile)
          → protected site.volume q ≡ false
          → Keeps p (change site q (put_zip q z))
      put_zip-Keeps q z out =
          Keeps-change q (put_zip q z) (λ s. rw (get-put s.zips q p z, other_path q out) refl)

      drop_zip-Keeps :
          (q : FilePath) → protected site.volume q ≡ false → Keeps p (change site q (drop_zip q))
      drop_zip-Keeps q out =
          Keeps-change q (drop_zip q) (λ s. rw (get-remove s.zips q p, other_path q out) refl)

      put_sidecar-Keeps :
          (q : FilePath) (side : Sidecar)
          → Keeps p (atomic_write site.volume q (put_sidecar q side))
      put_sidecar-Keeps q side =
          Keeps-atomic_write q (put_sidecar q side)
            (λ out s. rw (get-put s.sidecars q p side, other_path q out) refl)

      drop_sidecar-Keeps :
          (q : FilePath)
          → protected site.volume q ≡ false
          → Keeps p (change site q (drop_sidecar q))
      drop_sidecar-Keeps q out =
          Keeps-change q (drop_sidecar q)
            (λ s. rw (get-remove s.sidecars q p, other_path q out) refl)

      label_backup-Keeps :
          (i label description : Text) → Keeps p (label_backup site i label description)
      unfolding label_backup
      label_backup-Keeps i label description =
          search (rules, path_of-Keeps, put_sidecar-Keeps, set_label-Keeps) depth 12

      ruleset edit_rules = (
        Keeps-check, put_zip-Keeps, drop_zip-Keeps, drop_sidecar-Keeps, put_sidecar-Keeps,
        path_of-Keeps, rules,
      )

      delete-Keeps : (i : Text) → Keeps p (delete site i)
      unfolding delete
      delete-Keeps i = search (edit_rules, drop_label-Keeps) depth 16

      promote-Keeps : (i label description : Text) → Keeps p (promote site i label description)
      unfolding promote
      promote-Keeps i label description = search (edit_rules, get_backup-Keeps) depth 26

      delete_all-Keeps : (bs : List Backup) → Keeps p (delete_all site bs)
      unfolding delete_all
      delete_all-Keeps [] = Keeps-pure tt
      delete_all-Keeps (b ∷ bs) = Keeps-bind _ _ (delete-Keeps b.id) (λ x. delete_all-Keeps bs)

      prune-Keeps : (world : Text) (keep : ℕ) → Keeps p (prune_snapshots site world keep)
      unfolding prune_snapshots
      prune-Keeps world keep = search (rules, snapshots_of-Keeps, delete_all-Keeps) depth 10

module _ (site : Site)
    (beside : (q : FilePath)
      → protected site.volume q ≡ false
      → protected site.volume (json_path q) ≡ false) where
  edit-same :
      (p : FilePath) (e : Edit) (s : Files Detection)
      → protected site.volume p ≡ true
      → at_path p (edit site e s) ≡ at_path p s
  unfolding edit
  edit-same p (labelling i label description) s h =
      (label_backup-Keeps p site h beside i label description).at s
  edit-same p (promotion i label description) s h =
      (promote-Keeps p site h beside i label description).at s
  edit-same p (deletion i) s h = (delete-Keeps p site h beside i).at s
  edit-same p (pruning world keep) s h = (prune-Keeps p site h beside world keep).at s

  -- Where the sidecar of a file outside the archive's directory is outside too, links followed,
  -- whatever is labelled, promoted, deleted and pruned, and whatever fails: no archive and no
  -- sidecar in the archive's directory is made, changed or removed.
  pub edit_all-keeps_archive :
      (p : FilePath) (es : List Edit) (s : Files Detection)
      → protected site.volume p ≡ true
      → at_path p (edit_all site es s) ≡ at_path p s
  unfolding edit_all
  edit_all-keeps_archive p [] s h = refl
  edit_all-keeps_archive p (e ∷ es) s h =
      edit_all-keeps_archive p es (edit site e s) h ∙ edit-same p e s h
