-- ===== src/Jobs/Snapshot/Plans.antt =====
-- src/mcdash/jobs: what restores the entries of a snapshot.
use k3s_minecraft.Prelude.{
  Text, codes, ℕ, suc, Bool, true, false, ◌||◌, Option, none, some, List, [], ◌∷◌, ◌++◌, text_eq,
  nat_eq, contains, contains-append, split-two, list_beq, all, any, split, join, ends_with,
  ends_with-split, ends_with-append, ◌≡◌, refl, sym, subst, arith, Bool-cases, inl, inr,
}
use k3s_minecraft.Jobs.Seed.{Write, wiped, make_dir, write_file, Disk, parent}
use k3s_minecraft.Jobs.Seed.Paths.{is_name}
use k3s_minecraft.Jobs.Snapshot.{Stored, arc_name}
use k3s_minecraft.Jobs.Snapshot.Names.{is_plain}
use k3s_minecraft.Jobs.Snapshot.ArcNames.{split-join}

-- What restores an entry: its parent directory, then itself.
abbrev pub own_write : List Text → Option (List ℕ) → Write
own_write path none = make_dir path
own_write path (some content) = write_file path content

abbrev pub plan : List Stored → List Write
plan [] = []
plan (s ∷ ss) = make_dir (parent s.path) ∷ own_write s.path s.content ∷ plan ss

abbrev pub one_file : Option (List ℕ) → ℕ → ℕ
one_file none n = n
one_file (some content) n = suc n

abbrev pub files : List Stored → ℕ → ℕ
files [] n = n
files (s ∷ ss) n = files ss (one_file s.content n)

abbrev pub writes_file : List Text → Write → Bool
writes_file path wiped = false
writes_file path (make_dir p) = false
writes_file path (write_file p content) = list_beq p path

-- A disk that takes every write, without links in the destination, and on which a file that was
-- written is there.
pub record IsCalm (d : Disk) : Type 0 where
  pub fails_eq : (done : List Write) (w : Write) → d.fails done w ≡ false
  pub escapes_eq : (done : List Write) (p : List Text) → d.escapes done p ≡ false
  pub is_file_eq :
      (done : List Write) (p : List Text)
      → any (writes_file p) done ≡ true
      → d.is_file (wiped ∷ done) p ≡ true

-- A name is a directory's if it ends with the separator.
split-ends : (q : Text) → contains (split b'/' (q ++ b'/' ∷ [])) [] ≡ true
split-ends q =
    rw (split-two b'/' q [], contains-append (split b'/' q) (split b'/' []) [])
      (unfold split contains list_beq in or_true (contains (split b'/' q) []))
  where
    or_true : (b : Bool) → (b || true) ≡ true
    or_true true = refl
    or_true false = refl

contains-plain : (ps : List Text) → all is_plain ps ≡ true → contains ps [] ≡ false
unfolding contains all is_plain is_name list_beq
contains-plain [] h = refl
contains-plain ([] ∷ ps) h = cc
contains-plain ((c ∷ p) ∷ ps) h = contains-plain ps (ground arith)

is_dir_name-file :
    (p : Text) (ps : List Text) (content : List ℕ)
    → all is_plain (p ∷ ps) ≡ true
    → ends_with (arc_name (p ∷ ps) (some content)) (codes "/") ≡ false
unfolding codes
is_dir_name-file p ps content h =
    let name = arc_name (p ∷ ps) (some content) in
    elim (Bool-cases (ends_with name (codes "/"))) [
      | inr fine ↦ fine
      | inl bad ↦
          let (q, e) = ends_with-split name (codes "/") bad in
          let with' = subst (λ t. contains (split b'/' t) [] ≡ true) (sym e) (split-ends q) in
          let without =
            subst (λ t. contains t [] ≡ false) (sym (split-join p ps h))
              (contains-plain (p ∷ ps) h) in
          absurd (cc (with', without))
    ]

pub ends_with-arc_name :
    (p : Text) (ps : List Text) (c : Option (List ℕ))
    → all is_plain (p ∷ ps) ≡ true
    → ends_with (arc_name (p ∷ ps) c) (codes "/") ≡ (elim c [ none ↦ true | some content ↦ false ])
ends_with-arc_name p ps none h = ends_with-append (join (codes "/") (p ∷ ps)) (codes "/")
ends_with-arc_name p ps (some content) h = is_dir_name-file p ps content h
