-- ===== src/Service/Players/Edits.antt =====
-- src/mcdash/service.py: the names that `dedupe_players` and `next_ops` leave.
use k3s_minecraft.Prelude.{
  Text, Bool, true, false, not, ◌&&◌, Option, none, some, List, [], ◌∷◌, Dict, get, put, get-put,
  text_eq, contains, select, lower, strip, ◌≡◌, ◌≢◌, refl, arith, ◌==◌, Bool-cases, inl, inr, subst,
}
use k3s_minecraft.Service.Settings.{lowers}
use k3s_minecraft.Service.Players.{
  values, set_default, add_player, add_players, dedupe_players, is_gone, next_ops,
}

contains-select :
    (p : Text → Bool) (xs : List Text) (a : Text)
    → contains (select p xs) a ≡ (contains xs a && p a)
unfolding contains select
contains-select p [] a = refl
contains-select p (x ∷ xs) a = ground (arith, text_eq.same_iff a x, contains-select p xs a)

-- A key of the dictionary is among the lower case spellings of its values.
record IsKeyed (d : Dict Text Text) : Type 0 where
  keyed : (k v : Text) → get d k ≡ some v → lower v ≡ k

contains-values :
    (d : Dict Text Text) (k v : Text) → get d k ≡ some v → contains (values d) v ≡ true
unfolding contains get
contains-values [] k v h = cc
contains-values ((j, w) ∷ d) k v h = ground (arith, text_eq.same_iff v w, contains-values d k v)

contains-lowers :
    (xs : List Text) (v : Text) → contains xs v ≡ true → contains (lowers xs) (lower v) ≡ true
unfolding contains lowers
contains-lowers [] v h = cc
contains-lowers (x ∷ xs) v h =
    ground (arith, text_eq.same_iff v x, text_eq.same_iff (lower v) (lower x), contains-lowers xs v)

IsKeyed-put : (d : Dict Text Text) (n : Text) → IsKeyed d → IsKeyed (put d (lower n) n)
IsKeyed-put d n h = record {
  keyed = λ k v e. elim (Bool-cases (k == lower n)) [
    | inl same ↦ ground (arith, get-put d (lower n) k n, text_eq.same_iff k (lower n))
    | inr other ↦ h.keyed k v (ground (arith, get-put d (lower n) k n))
  ];
}

set_default-IsKeyed :
    (d : Dict Text Text) (n : Text) (x : Option Text) → IsKeyed d → IsKeyed (set_default d n x)
unfolding set_default
set_default-IsKeyed d n none h = IsKeyed-put d n h
set_default-IsKeyed d n (some m) h = h

add_player-IsKeyed : (d : Dict Text Text) (n : Text) → IsKeyed d → IsKeyed (add_player d n)
unfolding add_player
add_player-IsKeyed d [] h = h
add_player-IsKeyed d (c ∷ n) h = set_default-IsKeyed d (c ∷ n) _ h

-- What a key has, it keeps.
set_default-keeps :
    (d : Dict Text Text) (n : Text) (x : Option Text) (k v : Text)
    → get d (lower n) ≡ x
    → get d k ≡ some v
    → get (set_default d n x) k ≡ some v
unfolding set_default
set_default-keeps d n none k v e h = elim (Bool-cases (k == lower n)) [
  | inl same ↦ absurd (ground (arith, text_eq.same_iff k (lower n)))
  | inr other ↦ ground (arith, get-put d (lower n) k n)
]
set_default-keeps d n (some m) k v e h = h

set_default-has :
    (d : Dict Text Text) (n : Text) (x : Option Text)
    → get d (lower n) ≡ x
    → (v : Text) × (get (set_default d n x) (lower n) ≡ some v)
unfolding set_default
set_default-has d n none e =
    (n, ground (arith, get-put d (lower n) (lower n) n, text_eq.same_iff (lower n) (lower n)))
set_default-has d n (some m) e = (m, e)

add_player-keeps :
    (d : Dict Text Text) (n k v : Text) → get d k ≡ some v → get (add_player d n) k ≡ some v
unfolding add_player
add_player-keeps d [] k v h = h
add_player-keeps d (c ∷ n) k v h = set_default-keeps d (c ∷ n) _ k v refl h

add_player-has :
    (d : Dict Text Text) (n : Text)
    → n ≢ []
    → (v : Text) × (get (add_player d n) (lower n) ≡ some v)
unfolding add_player
add_player-has d [] ne = absurd (ne refl)
add_player-has d (c ∷ n) ne = set_default-has d (c ∷ n) _ refl

add_players-keeps :
    (d : Dict Text Text) (ns : List Text) (k v : Text)
    → get d k ≡ some v
    → get (add_players d ns) k ≡ some v
unfolding add_players
add_players-keeps d [] k v h = h
add_players-keeps d (n ∷ ns) k v h =
    add_players-keeps (add_player d (strip n)) ns k v (add_player-keeps d (strip n) k v h)

add_players-IsKeyed : (d : Dict Text Text) (ns : List Text) → IsKeyed d → IsKeyed (add_players d ns)
unfolding add_players
add_players-IsKeyed d [] h = h
add_players-IsKeyed d (n ∷ ns) h =
    add_players-IsKeyed (add_player d (strip n)) ns (add_player-IsKeyed d (strip n) h)

add_players-has :
    (d : Dict Text Text) (ns : List Text) (n : Text)
    → contains ns n ≡ true
    → strip n ≢ []
    → (v : Text) × (get (add_players d ns) (lower (strip n)) ≡ some v)
unfolding add_players contains
add_players-has d [] n h ne = cc
add_players-has d (m ∷ ns) n h ne = elim (Bool-cases (n == m)) [
  | inr other ↦ add_players-has (add_player d (strip m)) ns n (ground arith) ne
  | inl same ↦
      let i : n ≡ m = (text_eq.same_iff n m).0 same in
      let (v, e) = add_player-has d (strip n) ne in
      (
        v,
        subst (λ t. get (add_players (add_player d (strip t)) ns) (lower (strip n)) ≡ some v) i
            (add_players-keeps (add_player d (strip n)) ns (lower (strip n)) v e),
      )
]

-- `dedupe_players` drops no one: each name that is not blank is there, but for its case.
pub dedupe_players_complete :
    (names : List Text) (n : Text)
    → contains names n ≡ true
    → strip n ≢ []
    → contains (lowers (dedupe_players names)) (lower (strip n)) ≡ true
unfolding dedupe_players
dedupe_players_complete names n h ne =
    let (v, e) = add_players-has [] names n h ne in
    let keys = add_players-IsKeyed [] names (record { keyed = λ k u g. unfold get in cc }) in
    subst (λ t. contains (lowers (values (add_players [] names))) t ≡ true) (keys.keyed _ v e)
      (contains-lowers _ v (contains-values _ _ v e))

-- No one who is taken off the whitelist of a closed world stays an admin: an admin left who was on
-- the old whitelist is among the players.
pub next_ops-listed :
    (old ops players : List Text) (n : Text)
    → contains (next_ops old ops players false) n ≡ true
    → contains (lowers old) (lower n) ≡ true
    → contains (lowers players) (lower n) ≡ true
unfolding next_ops is_gone
next_ops-listed old ops players n h k =
    ground (arith, contains-select (λ p. not (is_gone old players p)) (dedupe_players ops) n)
