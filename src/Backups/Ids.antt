-- ===== src/Backups/Ids.antt =====
-- src/mcdash/backups.py: the paths of backups, and the names of promoted ones.
use k3s_minecraft.Prelude.{
  Text, codes, ℕ, suc, ◌≤◌, ◌<◌, Bool, true, false, ◌||◌, not, Option, none, some, [], ◌++◌,
  append_assoc, drop-length-append, drop_end-append, nat_eq, text_eq, ◌==◌, contains, if◌then◌else◌,
  length, drop, drop_end, starts_with, ends_with, lower, str, str_inj, ◌≡◌, ◌≢◌, refl, sym, ◌∙◌, ap,
  subst, arith, Bool-cases, inl, inr,
}
use k3s_minecraft.Naming.Search.{first_free-total, first_free-eq_some}
use k3s_minecraft.Jobs.Seed.{path_parts}
use k3s_minecraft.Jobs.Seed.Paths.{
  resolve, resolve-names, all-is_name, path_parts-plain, path_parts-kept,
}
use k3s_minecraft.Store.{Files}
use k3s_minecraft.Backups.{
  Detection, Tier, Site, tier_of, partition_slash, is_bad_rel, checked_rel, split_id, tier_root,
  zip_path,
}
use k3s_minecraft.Backups.Edits.{names_in, promoted_name, free_name}

or_third : (a b c d : Bool) → (a || b || c || d) ≡ false → c ≡ false
or_third true b c d h = cc
or_third false true c d h = cc
or_third false false true d h = cc
or_third false false false d h = refl

-- What an identifier that is taken says of its path.
checked_rel-good :
    (x : Text) (t : Option Tier) (rel : Text) (tier : Tier)
    → checked_rel x t ≡ some (tier, rel)
    → is_bad_rel rel ≡ false
checked_rel-good x none rel tier h = cc
checked_rel-good x (some t) rel tier h = elim (Bool-cases (is_bad_rel x)) [
  | inl bad ↦ absurd (ground arith)
  | inr good ↦ let e : x ≡ rel = ground arith in subst (λ y. is_bad_rel y ≡ false) e good
]

split_id-parts :
    (backup_id rel : Text) (tier : Tier)
    → split_id backup_id ≡ some (tier, rel)
    → contains (path_parts rel) (codes "..") ≡ false
unfolding split_id
split_id-parts backup_id rel tier h =
    let good =
      checked_rel-good (partition_slash backup_id).1 (tier_of (partition_slash backup_id).0) rel
        tier h in
    unfold is_bad_rel in
    or_third (rel == []) (starts_with rel (codes "/")) (contains (path_parts rel) (codes ".."))
      (not (ends_with (lower rel) (codes ".zip"))) good

-- The path of an identifier that is taken leads straight down from the tier's directory.
pub zip_path-stays :
    (site : Site) (backup_id rel : Text) (tier : Tier)
    → split_id backup_id ≡ some (tier, rel)
    → resolve (tier_root site tier) (path_parts rel) ≡ zip_path site tier rel
unfolding zip_path
zip_path-stays site backup_id rel tier h = resolve-names (tier_root site tier) (path_parts rel) (
    all-is_name (path_parts rel) (path_parts-plain rel) (path_parts-kept rel)
      (split_id-parts backup_id rel tier h))

-- Two rounds try different names.
stem_cancel : (a s t : Text) → a ++ s ≡ a ++ t → s ≡ t
stem_cancel a s t h = sym (drop-length-append a s) ∙ ap (drop (length a)) h ∙ drop-length-append a t

abbrev numbered : ℕ → Text
numbered n = codes "(" ++ (str n ++ codes ").zip")

numbered_inj : (n m : ℕ) → numbered n ≡ numbered m → n ≡ m
unfolding codes
numbered_inj n m h =
    let e = stem_cancel (codes "(") (str n ++ codes ").zip") (str m ++ codes ").zip") h in
    str_inj n m (
      sym (drop_end-append (str n) (codes ").zip"))
      ∙ ap (drop_end 5) e
      ∙ drop_end-append (str m) (codes ").zip"))

abbrev suffix_of : ℕ → Text
suffix_of n = if n == 1 then codes ".zip" else numbered n

promoted_name-suffix :
    (stamp world : Text) (n : ℕ)
    → promoted_name stamp world n ≡ (stamp ++ codes "-" ++ world) ++ suffix_of n
unfolding promoted_name
promoted_name-suffix stamp world n = elim (Bool-cases (n == 1)) [
  | inl one ↦ rw one refl
  | inr more ↦ rw more (
      append_assoc (stamp ++ codes "-" ++ world ++ codes "(") (str n) (codes ").zip")
      ∙ append_assoc (stamp ++ codes "-" ++ world) (codes "(") (str n ++ codes ").zip"))
]

plain_suffix : (t : Text) → codes ".zip" ≢ codes "(" ++ t
unfolding codes
plain_suffix t h = cc

suffix_cases :
    (a b : Bool) (n m : ℕ)
    → (n == 1) ≡ a
    → (m == 1) ≡ b
    → (if a then codes ".zip" else numbered n) ≡ (if b then codes ".zip" else numbered m)
    → n ≡ m
suffix_cases true true n m k l h = ground arith
suffix_cases true false n m k l h = absurd (plain_suffix (str m ++ codes ").zip") h)
suffix_cases false true n m k l h = absurd (plain_suffix (str n ++ codes ").zip") (sym h))
suffix_cases false false n m k l h = numbered_inj n m h

promoted_name_inj :
    (stamp world : Text) (n m : ℕ)
    → promoted_name stamp world n ≡ promoted_name stamp world m
    → n ≡ m
promoted_name_inj stamp world n m h = suffix_cases (n == 1) (m == 1) n m refl refl (
    stem_cancel (stamp ++ codes "-" ++ world) (suffix_of n) (suffix_of m)
      (sym (promoted_name-suffix stamp world n) ∙ h ∙ promoted_name-suffix stamp world m))

-- A promotion finds a name for its archive, whatever is there, and no archive has that name: the
-- first of them that is free.
pub free_name-free :
    (site : Site) (stamp world : Text) (s : Files Detection)
    → (m : ℕ) × (free_name site stamp world s ≡ some (promoted_name stamp world m))
      × (contains (names_in site.backups_dir s.zips) (promoted_name stamp world m) ≡ false)
      × ((k : ℕ)
          → 1 ≤ k
          → k < m
          → contains (names_in site.backups_dir s.zips) (promoted_name stamp world k) ≡ true)
unfolding free_name
free_name-free site stamp world s =
    let name = promoted_name stamp world in
    let taken = names_in site.backups_dir s.zips in
    let (r, found) =
      first_free-total name (promoted_name_inj stamp world) (suc (length taken)) 1 taken
        (omega arith) in
    let (m, e, low, high, out, before) =
      first_free-eq_some name taken (suc (length taken)) 1 r found in
    (m, found ∙ ap some e, subst (λ t. contains taken t ≡ false) e out, before)
