-- ===== src/Store/Guard.antt =====
-- src/mcdash/store.py: the archive guard.
use k3s_minecraft.Prelude.{
  Text, codes, true, ◌||◌, List, [], ◌∷◌, ◌++◌, Dict, Option, none, some, get, remove, text_eq, ◌≡◌,
  refl, ap, arith, Bool-cases, inl, inr,
}
use k3s_minecraft.Store.{
  FilePath, archive_write, ok, err, Files, IndexEntry, M, Player, Volume, is_within, protected,
  atomic_write, roster_path, labels_path, index_path, labels, put_roster, put_labels, put_index,
  relabel, set_roster, write_labels, set_label, drop_label, save_index, audit, parent,
}

module _ {D : Type 0} (v : Volume D) where
  -- A write that returned made its change.
  pub atomic_write-change :
      (path : FilePath) (change : Files D → Files D) (s s' : Files D)
      → atomic_write v path change s ≡ (ok tt, s')
      → change s ≡ s'
  unfolding atomic_write
  atomic_write-change path change s s' h =
      elim (Bool-cases (protected v path || protected v (parent path))) [
        | inl kept ↦ absurd (ground arith)
        | inr open' ↦ elim (Bool-cases (v.fails s path)) [
          | inl failed ↦ absurd (ground arith)
          | inr fine ↦ ground arith
        ]
      ]

  atomic_write-protected :
      (path : FilePath) (change : Files D → Files D) (s : Files D)
      → protected v path ≡ true
      → atomic_write v path change s ≡ (err archive_write, s)
  unfolding atomic_write
  atomic_write-protected path change s h = rw h refl

is_within-append :
    (root base rest : FilePath) → is_within root base ≡ true → is_within root (base ++ rest) ≡ true
unfolding is_within
is_within-append [] base rest h = refl
is_within-append (r ∷ root) [] rest h = cc
is_within-append (r ∷ root) (b ∷ base) rest h = ground (arith, is_within-append root base rest)

-- What a user may ask of the store.
pub data Change (D : Type 0) : Type 0 where
  roster_change : List Player → Change D
  label_change : Text → Text → Text → Change D
  label_drop : Text → Change D
  index_change : Dict Text (IndexEntry D) → Change D
  audit_change : Text → Text → Text → Text → Change D

unfoldable pub perform : {D : Type 0} → Volume D → Change D → M D (Unit {0})
unfolding set_roster set_label drop_label save_index audit
perform v (roster_change players) = set_roster v players
perform v (label_change i label description) = set_label v i label description
perform v (label_drop i) = drop_label v i
perform v (index_change index) = save_index v index
perform v (audit_change ts actor action target) = audit v ts actor action target

-- The files of the store, by their names in its directory, that these are no links.
abbrev pub store_files : List Text
store_files =
    codes "roster.json" ∷ codes "labels.json" ∷ codes "index.json" ∷ codes "audit.jsonl" ∷ []

abbrev pub NoLinks : {D : Type 0} → Volume D → List Text → Type 0
NoLinks v [] = Unit {0}
NoLinks v (name ∷ names) =
    (v.realpath (v.dir ++ name ∷ []) ≡ v.realpath v.dir ++ name ∷ []) × NoLinks v names

-- While the dashboard's directory is in the archive, links followed, and the four files of the store
-- in it are no links, no operation of the store changes a file.
pub perform-protected :
    {D : Type 0} (v : Volume D) (c : Change D) (s : Files D)
    → is_within (v.realpath v.archive_dir) (v.realpath v.dir) ≡ true
    → NoLinks v store_files
    → (perform v c s).1 ≡ s
unfolding perform set_roster set_label drop_label save_index audit write_labels
perform-protected v c s inside (roster_plain, (labels_plain, (index_plain, (audit_plain, _)))) =
    go c
  where
    at :
        (name : Text)
        → v.realpath (v.dir ++ name ∷ []) ≡ v.realpath v.dir ++ name ∷ []
        → protected v (v.dir ++ name ∷ []) ≡ true
    at name plain =
        unfold protected in
        rw plain (is_within-append (v.realpath v.archive_dir) (v.realpath v.dir) (name ∷ []) inside)

    dropped :
        (i : Text) (x : Option (Text × Text)) → get (labels s) i ≡ x → (drop_label v i s).1 ≡ s
    dropped i none e = rw (drop_label, e) refl
    dropped i (some old) e =
        rw (drop_label, e)
          (ap (λ r. r.1)
            (atomic_write-protected v (labels_path v) (put_labels (remove (labels s) i)) s
              (at (codes "labels.json") labels_plain)))

    go : (c : Change _) → (perform v c s).1 ≡ s
    go (roster_change players) =
        ap (λ r. r.1)
          (atomic_write-protected v (roster_path v) (put_roster players) s
            (at (codes "roster.json") roster_plain))
    go (label_change i label description) =
        ap (λ r. r.1)
          (atomic_write-protected v (labels_path v)
            (put_labels (relabel i label description (labels s))) s
            (at (codes "labels.json") labels_plain))
    go (label_drop i) = dropped i (get (labels s) i) refl
    go (index_change index) =
        ap (λ r. r.1)
          (atomic_write-protected v (index_path v) (put_index index) s
            (at (codes "index.json") index_plain))
    go (audit_change ts actor action target) = rw (at (codes "audit.jsonl") audit_plain) refl
