-- ===== src/Jobs/Seed/Members.antt =====
-- src/mcdash/jobs/seed.py: where `map_member` puts a member.
use k3s_minecraft.Prelude.{
  Text, codes, Bool, true, false, ◌&&◌, not, none, some, [], ◌∷◌, ◌++◌, text_eq, ◌==◌, list_beq,
  if◌then◌else◌, length, drop, starts_with, ends_with, ends_with-split, leb, contains,
  contains-append, nat_eq, ◌⊎◌, ◌-◌, sym, ◌∙◌, ◌≤◌, ℕ, length-append, suc, ◌≡◌, ◌≢◌, refl, ap,
  subst, arith, Bool-cases, inl, inr,
}
use k3s_minecraft.Jobs.Seed.{
  map_member, map_rest, top_of, is_vanilla_name, is_vanilla_file, excluded_top,
}
use k3s_minecraft.Naming.{before_dollar}

starts_with-split : (s t : Text) → starts_with s t ≡ true → t ++ drop (length t) s ≡ s
unfolding starts_with
starts_with-split s [] h = refl
starts_with-split [] (d ∷ t) h = cc
starts_with-split (c ∷ s) (d ∷ t) h = ground (arith, starts_with-split s t)

-- The lists of players: ops.json, whitelist.json and banned-<name>.json, in no directory.
pub data IsPlayerList (t : Text) : Type 0 where
  ops : t ≡ codes "ops.json" → IsPlayerList t
  whitelist : t ≡ codes "whitelist.json" → IsPlayerList t
  banned :
      (m : Text)
      → t ≡ codes "banned-" ++ (m ++ codes ".json")
      → contains m b'/' ≡ false
      → IsPlayerList t

-- How a member of the archive may be placed in vanilla mode: what was below the world's directory
-- goes below world/, and a list of players that was directly below the prefix keeps its name, where
-- a newline may follow this name.
pub data IsPlaced (name prefix world_dir t : Text) : Type 0 where
  in_world :
      (r : Text)
      → name ≡ world_dir ++ r
      → t ≡ codes "world/" ++ r
      → IsPlaced name prefix world_dir t
  as_list :
      (u : Text)
      → name ≡ prefix ++ t
      → (t ≡ u) ⊎ (t ≡ u ++ b'\n' ∷ [])
      → IsPlayerList u
      → IsPlaced name prefix world_dir t

ends_with-tail :
    (c : ℕ) (s t : Text) → length t ≤ length s → ends_with (c ∷ s) t ≡ true → ends_with s t ≡ true
unfolding ends_with
ends_with-tail c s t l h =
    let n : length (c ∷ s) - length t ≡ suc (length s - length t) = omega arith in
    let e : list_beq (drop (length (c ∷ s) - length t) (c ∷ s)) t ≡ true = ground arith in
    let le : leb (length t) (length s) ≡ true = ground arith in
    rw le (subst (λ k. list_beq (drop k (c ∷ s)) t ≡ true) n e)

ends_with-behind :
    (x s t : Text) → length t ≤ length s → ends_with (x ++ s) t ≡ true → ends_with s t ≡ true
ends_with-behind [] s t l h = h
ends_with-behind (c ∷ x) s t l h =
    let n = length-append x s in
    ends_with-behind x s t l (ends_with-tail c (x ++ s) t (omega arith) h)

banned_list :
    (s : Text)
    → starts_with s (codes "banned-") ≡ true
    → ends_with s (codes ".json") ≡ true
    → 12 ≤ length s
    → contains s b'/' ≡ false
    → IsPlayerList s
unfolding codes
banned_list s h e l c =
    let r = drop (length (codes "banned-")) s in
    let at : codes "banned-" ++ r ≡ s = starts_with-split s (codes "banned-") h in
    let n : length (codes "banned-" ++ r) ≡ length s = ap length at in
    let (m, d) = ends_with-split r (codes ".json") (
      ends_with-behind (codes "banned-") r (codes ".json") (omega arith)
        (subst (λ u. ends_with u (codes ".json") ≡ true) (sym at) e)) in
    let whole : s ≡ codes "banned-" ++ (m ++ codes ".json") =
      sym at ∙ ap (λ u. codes "banned-" ++ u) d in
    banned m whole (no_slash m (subst (λ u. contains u b'/' ≡ false) whole c))
  where
    no_slash :
        (m : Text)
        → contains (codes "banned-" ++ (m ++ codes ".json")) b'/' ≡ false
        → contains m b'/' ≡ false
    no_slash m c = ground (
      arith,
      contains-append (codes "banned-") (m ++ codes ".json") b'/',
      contains-append m (codes ".json") b'/',
    )

is_vanilla_name-IsPlayerList : (s : Text) → is_vanilla_name s ≡ true → IsPlayerList s
unfolding is_vanilla_name
is_vanilla_name-IsPlayerList s h = elim (Bool-cases (s == codes "ops.json")) [
  | inl found ↦ ops ((text_eq.same_iff s (codes "ops.json")).0 found)
  | inr other ↦ elim (Bool-cases (s == codes "whitelist.json")) [
    | inl found ↦ whitelist ((text_eq.same_iff s (codes "whitelist.json")).0 found)
    | inr third ↦ banned_list s (ground arith) (ground arith) (ground arith) (ground arith)
  ]
]

before_dollar-cases : (s : Text) → (s ≡ before_dollar s) ⊎ (s ≡ before_dollar s ++ b'\n' ∷ [])
unfolding before_dollar
before_dollar-cases [] = inl refl
before_dollar-cases (c ∷ []) = ground arith
before_dollar-cases (c ∷ d ∷ s) = elim (before_dollar-cases (d ∷ s)) [
  | inl e ↦ inl (ap (λ t. c ∷ t) e)
  | inr e ↦ inr (ap (λ t. c ∷ t) e)
]

is_vanilla_file-list :
    (t : Text)
    → is_vanilla_file t ≡ true
    → (u : Text) × ((t ≡ u) ⊎ (t ≡ u ++ b'\n' ∷ [])) × IsPlayerList u
unfolding is_vanilla_file
is_vanilla_file-list t h = elim (Bool-cases (is_vanilla_name t)) [
  | inl found ↦ (t, inl refl, is_vanilla_name-IsPlayerList t found)
  | inr other ↦ (
    before_dollar t,
    before_dollar-cases t,
    is_vanilla_name-IsPlayerList (before_dollar t) (ground arith),
  )
]

vanilla_choice :
    (a m v e : Bool) (x t : Text)
    → m ≡ true
    → (if a then none else if m then (if v then some x else none) else if e then none else some x)
      ≡ some t
    → (v ≡ true) × (x ≡ t)
vanilla_choice true m v e x t g h = cc
vanilla_choice false false v e x t g h = cc
vanilla_choice false true false e x t g h = cc
vanilla_choice false true true e x t g h = (refl, cc)

map_rest-vanilla :
    (rel prefix world_dir t : Text)
    → map_rest rel prefix world_dir (codes "vanilla") ≡ some t
    → (is_vanilla_file t ≡ true) × (rel ≡ t)
unfolding map_rest
map_rest-vanilla [] prefix world_dir t h = cc
map_rest-vanilla (c ∷ rel) prefix world_dir t h =
    let (yes', e) =
      vanilla_choice
        (not (world_dir == (prefix ++ codes "world/")) && top_of (c ∷ rel) == codes "world")
        (codes "vanilla" == codes "vanilla") (is_vanilla_file (c ∷ rel))
        (excluded_top (top_of (c ∷ rel))) (c ∷ rel) t
        ((text_eq.same_iff (codes "vanilla") (codes "vanilla")).1 refl) h in
    (subst (λ u. is_vanilla_file u ≡ true) e yes', e)

-- In vanilla mode a member is left out, or goes below world/ from the world's directory, or is a list
-- of players directly below the prefix that keeps its name.
pub map_member-vanilla :
    (name prefix world_dir t : Text)
    → map_member name prefix world_dir (codes "vanilla") ≡ some t
    → IsPlaced name prefix world_dir t
unfolding map_member
map_member-vanilla name prefix world_dir t h = elim (Bool-cases (starts_with name world_dir)) [
  | inl inside ↦
      in_world (drop (length world_dir) name) (sym (starts_with-split name world_dir inside))
        (ground arith)
  | inr outside ↦ elim (Bool-cases (starts_with name prefix)) [
    | inl below ↦
        let (yes', e) =
          map_rest-vanilla (drop (length prefix) name) prefix world_dir t (ground arith) in
        let (u, end, list) = is_vanilla_file-list t yes' in
        as_list u (sym (starts_with-split name prefix below) ∙ ap (λ r. prefix ++ r) e) end list
    | inr beside ↦ absurd (ground arith)
  ]
]

-- The layout of /data: in full mode each member but the excluded ones keeps its name.
pub map_member-full :
    (name : Text)
    → name ≢ []
    → excluded_top (top_of name) ≡ false
    → map_member name [] (codes "world/") (codes "full") ≡ some name
unfolding map_member map_rest
map_member-full [] ne h = absurd (ne refl)
map_member-full (c ∷ s) ne h = elim (Bool-cases (starts_with (c ∷ s) (codes "world/"))) [
  | inl inside ↦ rw inside (ap some (starts_with-split (c ∷ s) (codes "world/") inside))
  | inr outside ↦ rw (outside, h) (unfold codes starts_with list_beq in refl)
]
