-- ===== src/Store/Labels.antt =====
-- src/mcdash/store.py: the labels that are read after one was set or dropped.
use k3s_minecraft.Prelude.{
  Text, Option, none, some, [], ◌∷◌, Dict, get, remove, get-put, get-remove, text_eq, ◌==◌,
  if◌then◌else◌, ◌≡◌, refl, sym, ap, ◌∙◌, Bool-cases, inl, inr,
}
use k3s_minecraft.Store.Guard.{atomic_write-change}
use k3s_minecraft.Store.{
  Files, ok, Volume, read_json, labels, relabel, put_labels, write_labels, set_label, drop_label,
  labels_path,
}

-- Nothing is kept where both texts are empty.
abbrev pub entry_for : Text → Text → Option (Text × Text)
entry_for [] [] = none
entry_for label description = some (label, description)

get-relabel :
    (i label description : Text) (d : Dict Text (Text × Text)) (j : Text)
    → get (relabel i label description d) j
      ≡ (if j == i then entry_for label description else get d j)
unfolding relabel
get-relabel i [] [] d j = get-remove d i j
get-relabel i [] (c ∷ description) d j = get-put d i j ([], c ∷ description)
get-relabel i (c ∷ label) [] d j = get-put d i j (c ∷ label, [])
get-relabel i (c ∷ label) (e ∷ description) d j = get-put d i j (c ∷ label, e ∷ description)

module _ {D : Type 0} (v : Volume D) where
  written :
      (d : Dict Text (Text × Text)) (s s' : Files D)
      → write_labels v d s ≡ (ok tt, s')
      → labels s' ≡ d
  unfolding write_labels labels read_json
  written d s s' h =
      ap (λ (t : Files D). labels t)
        (sym (atomic_write-change v (labels_path v) (put_labels d) s s' h))

  -- After `set_label` returned, the backup has the label and the description, none if both are
  -- empty, and every other backup what it had.
  pub labels-set_label :
      (i label description : Text) (s s' : Files D)
      → set_label v i label description s ≡ (ok tt, s')
      → (j : Text)
      → get (labels s') j ≡ (if j == i then entry_for label description else get (labels s) j)
  unfolding set_label
  labels-set_label i label description s s' h j =
      ap (λ d. get d j) (written (relabel i label description (labels s)) s s' h)
      ∙ get-relabel i label description (labels s) j

  drop_label-none :
      (i : Text) (s : Files D) → get (labels s) i ≡ none → drop_label v i s ≡ (ok tt, s)
  unfolding drop_label
  drop_label-none i s h = rw (drop_label, h) refl

  drop_label-some :
      (i : Text) (s : Files D) (old : Text × Text)
      → get (labels s) i ≡ some old
      → drop_label v i s ≡ write_labels v (remove (labels s) i) s
  unfolding drop_label
  drop_label-some i s old h = rw (drop_label, h) refl

  -- After `drop_label` returned, the backup has none, and every other backup what it had.
  pub labels-drop_label :
      (i : Text) (s s' : Files D)
      → drop_label v i s ≡ (ok tt, s')
      → (j : Text) → get (labels s') j ≡ (if j == i then none else get (labels s) j)
  labels-drop_label i s s' h j = go (get (labels s) i) refl
    where
      go :
          (x : Option (Text × Text))
          → get (labels s) i ≡ x
          → get (labels s') j ≡ (if j == i then none else get (labels s) j)
      go (some old) e =
          ap (λ d. get d j)
            (written (remove (labels s) i) s s' (sym (drop_label-some i s old e) ∙ h))
          ∙ get-remove (labels s) i j
      go none e =
          let same : s ≡ s' = cc (drop_label-none i s e, h) in
          ap (λ (t : Files D). get (labels t) j) (sym same) ∙ (elim (Bool-cases (j == i)) [
            | inl at ↦ rw at (ap (get (labels s)) ((text_eq.same_iff j i).0 at) ∙ e)
            | inr other ↦ rw other refl
          ])
