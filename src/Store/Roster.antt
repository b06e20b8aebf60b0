-- ===== src/Store/Roster.antt =====
-- src/mcdash/store.py: the roster that is read after one was set.
use k3s_minecraft.Prelude.{
  Text, Bool, true, false, ◌&&◌, ◌||◌, not, some, List, [], ◌∷◌, text_eq, ◌==◌, contains, any,
  strip, lower, ◌≡◌, refl, sym, ap, ◌∙◌, arith, Bool-cases, inl, inr,
}
use k3s_minecraft.Store.Guard.{atomic_write-change}
use k3s_minecraft.Store.{
  Files, ok, Player, Volume, read_json, named, roster, rows, put_roster, set_roster, roster_path,
}

-- The names in lower case.
abbrev pub lowers : List Player → List Text
lowers [] = []
lowers (p ∷ ps) = lower p.name ∷ lowers ps

-- Whether a player of that name is asked for.
abbrev pub is_asked : Text → Player → Bool
is_asked k p = not (strip p.name == []) && lower (strip p.name) == k

abbrev pub no_repeat : List Text → Bool
no_repeat [] = true
no_repeat (x ∷ xs) = not (contains xs x) && no_repeat xs

-- One round, from the tests of the loop: blank, seen before, asked for.
contains-rows :
    (seen : List Text) (ps : List Player) (k : Text)
    → contains (lowers (rows seen ps)) k ≡ (any (is_asked k) ps && not (contains seen k))
unfolding rows any contains
contains-rows seen [] k = refl
contains-rows seen (p ∷ ps) k =
    let n = strip p.name in
    let skipped = contains-rows seen ps k in
    let kept = contains-rows (lower n ∷ seen) ps k in
    let one_way = text_eq.same_iff (lower n) k in
    let other_way = text_eq.same_iff k (lower n) in
    elim (Bool-cases (n == [])) [
      | inl blank ↦ rw blank skipped
      | inr named' ↦ elim (Bool-cases (contains seen (lower n))) [
        | inl before ↦
            rw (named', before)
              (elim (Bool-cases (lower n == k)) [
                | inr other ↦ rw other skipped
                | inl same ↦
                    let e = one_way.0 same in
                    let f : contains seen k ≡ true = rw (sym e) before in ground arith
              ])
        | inr new ↦
            rw (named', new)
              (elim (Bool-cases (k == lower n)) [
                | inl same ↦
                    let e = other_way.0 same in
                    let f : contains seen k ≡ false = rw e new in ground arith
                | inr other ↦ ground arith
              ])
      ]
    ]

no_repeat-rows : (seen : List Text) (ps : List Player) → no_repeat (lowers (rows seen ps)) ≡ true
unfolding rows
no_repeat-rows seen [] = refl
no_repeat-rows seen (p ∷ ps) =
    let n = strip p.name in
    let later = contains-rows (lower n ∷ seen) ps (lower n) in
    let kept = no_repeat-rows (lower n ∷ seen) ps in
    elim (Bool-cases (n == [] || contains seen (lower n))) [
      | inl out ↦ rw out (no_repeat-rows seen ps)
      | inr new ↦ rw (new, later, kept) (unseen (lower n))
    ]
  where
    unseen : (k : Text) → (not (any (is_asked k) ps && not (contains (k ∷ seen) k)) && true) ≡ true
    unseen k = let same = (text_eq.same_iff k k).1 refl in unfold contains in ground arith

named-rows : (seen : List Text) (ps : List Player) → named (rows seen ps) ≡ rows seen ps
unfolding rows named
named-rows seen [] = refl
named-rows seen (p ∷ ps) =
    let n = strip p.name in
    let skipped = named-rows seen ps in
    let kept = named-rows (lower n ∷ seen) ps in
    elim (Bool-cases (n == [])) [
      | inl blank ↦ rw blank skipped
      | inr text ↦ elim (Bool-cases (contains seen (lower n))) [
        | inl before ↦ rw (text, before) skipped
        | inr new ↦ rw (text, new, text, kept) refl
      ]
    ]

-- What `set_roster` writes, where it returns.
written :
    {D : Type 0} (v : Volume D) (players : List Player) (s s' : Files D)
    → set_roster v players s ≡ (ok tt, s')
    → s'.roster_file ≡ some (rows [] players)
unfolding set_roster
written v players s s' h =
    ap (λ (t : Files _). t.roster_file)
      (sym (atomic_write-change v (roster_path v) (put_roster players) s s' h))

-- After `set_roster` returned, the roster has a name, up to its case and blanks around it, exactly
-- if it was given and is not blank; and no name twice.
pub roster-set_roster :
    {D : Type 0} (v : Volume D) (players : List Player) (s s' : Files D)
    → set_roster v players s ≡ (ok tt, s')
    → ((k : Text) → contains (lowers (roster s')) k ≡ any (is_asked k) players)
      × (no_repeat (lowers (roster s')) ≡ true)
unfolding roster read_json
roster-set_roster v players s s' h =
    let e : roster s' ≡ rows [] players = rw (written v players s s' h) (named-rows [] players) in
    (
      λ k.
          ap (λ r. contains (lowers r) k) e
          ∙ contains-rows [] players k
          ∙ unfold contains in and_true (any (is_asked k) players),
      ap (λ r. no_repeat (lowers r)) e ∙ no_repeat-rows [] players,
    )
  where
    and_true : (b : Bool) → (b && true) ≡ b
    and_true true = refl
    and_true false = refl
