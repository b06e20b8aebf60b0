-- ===== src/Detect/Worlds.antt =====
-- src/mcdash/detect.py: the world that `find_world` finds.
use k3s_minecraft.Prelude.{
  Text, codes, Bool, true, false, ◌&&◌, not, some, List, [], ◌∷◌, ◌++◌, text_eq, nat_eq, ◌==◌,
  contains, select, starts_with, ends_with, drop_end, count, min_of, list_beq, has_infix, ◌≡◌, refl,
  sym, ◌∙◌, ap, subst, arith, ◌⊎◌, inl, inr, Bool-cases, ends_with-split, drop_end-append,
  append_assoc, count-append, contains-select, list_lt-not_trans, list_lt_irrefl, list_lt-asym,
  contains-min_of, min_of-least,
}
use k3s_minecraft.Detect.{
  is_skipped, is_server, is_save, dir_of, dirs_of, servers, saves, shallower, find_save, find_in,
  find_world,
}

shallower_irrefl : (a : Text) → shallower a a ≡ false
unfolding shallower
shallower_irrefl a = ground (arith, list_lt_irrefl a)

shallower-not_trans :
    (a b c : Text) → shallower a b ≡ false → shallower b c ≡ false → shallower a c ≡ false
unfolding shallower
shallower-not_trans a b c h k = ground (arith, list_lt-not_trans a b c)

shallower-asym : (a b : Text) → shallower a b ≡ true → shallower b a ≡ false
unfolding shallower
shallower-asym a b h = ground (arith, list_lt-asym a b)

-- A directory of the list stands in front of "level.dat" in a name of the list.
contains-dirs_of :
    (ns : List Text) (d : Text)
    → contains (dirs_of ns) d ≡ true
    → (n : Text) × (contains ns n ≡ true) × (dir_of n ≡ d)
unfolding contains dirs_of
contains-dirs_of [] d h = cc
contains-dirs_of (m ∷ ns) d h = elim (Bool-cases (d == dir_of m)) [
  | inl same ↦
      (m, ground (arith, text_eq.same_iff m m), sym ((text_eq.same_iff d (dir_of m)).0 same))
  | inr other ↦ let (n, i, e) = contains-dirs_of ns d (ground arith) in (n, ground arith, e)
]

dir_of-contains :
    (ns : List Text) (n : Text) → contains ns n ≡ true → contains (dirs_of ns) (dir_of n) ≡ true
unfolding contains dirs_of
dir_of-contains [] n h = cc
dir_of-contains (m ∷ ns) n h = elim (Bool-cases (n == m)) [
  | inl same ↦
      rw ((text_eq.same_iff n m).0 same) (ground (arith, text_eq.same_iff (dir_of m) (dir_of m)))
  | inr other ↦ ground (arith, dir_of-contains ns n)
]

dir_of-append : (p : Text) → dir_of (p ++ codes "level.dat") ≡ p
unfolding dir_of codes
dir_of-append p = drop_end-append p (codes "level.dat")

at_root : dir_of (codes "world/level.dat") ≡ codes "world/"
unfolding dir_of codes drop_end
at_root = refl

-- A server's member is "world/level.dat", at the top or below another directory.
server_shape :
    (n : Text)
    → is_server n ≡ true
    → (n ≡ codes "world/level.dat") ⊎ ((p : Text) × (n ≡ p ++ codes "/world/" ++ codes "level.dat"))
unfolding is_server codes
server_shape n h = elim (Bool-cases (n == codes "world/level.dat")) [
  | inl same ↦ inl ((text_eq.same_iff n (codes "world/level.dat")).0 same)
  | inr other ↦
      let (p, e) = ends_with-split n (codes "/world/level.dat") (ground arith) in
      inr (p, e ∙ sym (append_assoc p (codes "/world/") (codes "level.dat")))
]

server_whole : (n : Text) → is_server n ≡ true → n ≡ dir_of n ++ codes "level.dat"
server_whole n h = elim (server_shape n h) [
  | inl e ↦ e ∙ unfold codes in sym (ap (λ t. t ++ codes "level.dat") (ap dir_of e ∙ at_root))
  | inr (p, e) ↦
      e
      ∙ sym (ap (λ t. t ++ codes "level.dat") (ap dir_of e ∙ dir_of-append (p ++ codes "/world/")))
]

save_whole : (n : Text) → is_save n ≡ true → n ≡ dir_of n ++ codes "level.dat"
unfolding is_save
save_whole n h = elim (Bool-cases (n == codes "level.dat")) [
  | inl same ↦
      let e = (text_eq.same_iff n (codes "level.dat")).0 same in
      e ∙ sym (ap (λ t. t ++ codes "level.dat") (ap dir_of e ∙ dir_of-append []))
  | inr other ↦
      let (p, e) = ends_with-split n (codes "/level.dat") (ground arith) in
      let f : n ≡ p ++ codes "/" ++ codes "level.dat" =
        e ∙ unfold codes in sym (append_assoc p (codes "/") (codes "level.dat")) in
      f ∙ sym (ap (λ t. t ++ codes "level.dat") (ap dir_of f ∙ dir_of-append (p ++ codes "/")))
]

servers-contains :
    (names : List Text) (n : Text)
    → contains names n ≡ true
    → is_skipped n ≡ false
    → is_server n ≡ true
    → contains (servers names) (dir_of n) ≡ true
unfolding servers
servers-contains names n h k s =
    dir_of-contains _ n
      (let e = contains-select (λ m. not (is_skipped m) && is_server m) names n in ground arith)

-- A member of a kind that is not skipped.
abbrev pub counts : (Text → Bool) → Text → Bool
counts p n = not (is_skipped n) && p n

-- The directory of a member of the kind, which none of the kind has shallower, or as deep and before.
pub record IsLeast (p : Text → Bool) (names : List Text) (wd : Text) : Type 0 where
  pub member : (n : Text) × (contains names n ≡ true) × (p n ≡ true) × (dir_of n ≡ wd)
  pub least : (n : Text) → contains names n ≡ true → p n ≡ true → shallower (dir_of n) wd ≡ false

-- What `find_world` may return for these members: the least directory of the server layout, or, if
-- there is none, the least one that holds a level.dat.
pub record IsFound (names : List Text) (wd : Text) : Type 0 where
  pub held : contains names (wd ++ codes "level.dat") ≡ true
  pub chosen :
      IsLeast (counts is_server) names wd
      ⊎ (((n : Text) → contains names n ≡ true → counts is_server n ≡ false)
          × IsLeast (counts is_save) names wd)

IsLeast-of :
    (p : Text → Bool) (names : List Text) (d : Text) (ds : List Text) (wd : Text)
    → d ∷ ds ≡ dirs_of (select p names)
    → min_of shallower d ds ≡ wd
    → IsLeast p names wd
IsLeast-of p names d ds wd a e = record {
  member =
      (let (n, i, f) = contains-dirs_of (select p names) wd (
          subst (λ t. contains t wd ≡ true) a
            (subst (λ t. contains (d ∷ ds) t ≡ true) e
              (contains-min_of shallower shallower_irrefl shallower-asym shallower-not_trans d
                ds))) in
        let both : (contains names n && p n) ≡ true = sym (contains-select p names n) ∙ i in
        (n, ground arith, ground arith, f));
  least = λ n i k.
      subst (λ t. shallower (dir_of n) t ≡ false) e
        (min_of-least shallower shallower_irrefl shallower-asym shallower-not_trans d ds (dir_of n)
          (subst (λ t. contains t (dir_of n) ≡ true) (sym a)
            (dir_of-contains (select p names) n
              (let both = contains-select p names n in ground arith))));
}

-- The member in front of whose "level.dat" the directory stands is in the archive.
IsLeast-held :
    (p : Text → Bool) (names : List Text) (wd : Text)
    → ((n : Text) → p n ≡ true → n ≡ dir_of n ++ codes "level.dat")
    → IsLeast p names wd
    → contains names (wd ++ codes "level.dat") ≡ true
IsLeast-held p names wd shape l =
    let (n, i, k, e) = l.member in
    subst (λ t. contains names t ≡ true) (shape n k ∙ ap (λ t. t ++ codes "level.dat") e) i

no_servers :
    (names : List Text)
    → [] ≡ servers names
    → (n : Text) → contains names n ≡ true
    → counts is_server n ≡ false
unfolding contains
no_servers names a n i = elim (Bool-cases (counts is_server n)) [
  | inr other ↦ other
  | inl server ↦
      let h = servers-contains names n i (ground arith) (ground arith) in
      absurd (cc (subst (λ t. contains t (dir_of n) ≡ true) (sym a) h))
]

abbrev other_save : Text → Bool
other_save n = not (is_skipped n) && not (is_server n) && is_save n

save-IsLeast :
    (names : List Text) (wd : Text)
    → ((n : Text) → contains names n ≡ true → counts is_server n ≡ false)
    → IsLeast other_save names wd
    → IsLeast (counts is_save) names wd
save-IsLeast names wd none' l = record {
  member = (let (n, i, k, e) = l.member in (n, i, ground arith, e));
  least = λ n i k. let s = none' n i in l.least n i (ground arith);
}

find_save-IsFound :
    (names ds : List Text) (prefix wd : Text)
    → ds ≡ saves names
    → ((n : Text) → contains names n ≡ true → counts is_server n ≡ false)
    → find_save ds ≡ some (prefix, wd)
    → IsFound names wd
unfolding find_save saves
find_save-IsFound names [] prefix wd b none' h = cc
find_save-IsFound names (d ∷ ds) prefix wd b none' h =
    let e : min_of shallower d ds ≡ wd = cc in
    let l : IsLeast (counts is_save) names wd =
      save-IsLeast names wd none' (IsLeast-of other_save names d ds wd b e) in
    record {
      held = IsLeast-held (counts is_save) names wd (λ n k. save_whole n (ground arith)) l;
      chosen = inr (none', l);
    }

find_in-IsFound :
    (names ds other : List Text) (prefix wd : Text)
    → ds ≡ servers names
    → other ≡ saves names
    → find_in ds other ≡ some (prefix, wd)
    → IsFound names wd
unfolding find_in servers
find_in-IsFound names [] other prefix wd a b h =
    find_save-IsFound names other prefix wd b (no_servers names a) h
find_in-IsFound names (d ∷ ds) other prefix wd a b h =
    let e : min_of shallower d ds ≡ wd = cc in
    let l : IsLeast (counts is_server) names wd = IsLeast-of (counts is_server) names d ds wd a e in
    record {
      held = IsLeast-held (counts is_server) names wd (λ n k. server_whole n (ground arith)) l;
      chosen = inl l;
    }

-- The world directory found holds a level.dat of the archive: it is the one of the server layout that
-- no other of this layout is shallower than, or as deep and before, of the members that are not
-- skipped; if there is none of the server layout, then so among all that hold a level.dat.
pub find_world-IsFound :
    (names : List Text) (prefix wd : Text) → find_world names ≡ some (prefix, wd) → IsFound names wd
unfolding find_world
find_world-IsFound names prefix wd h =
    find_in-IsFound names (servers names) (saves names) prefix wd refl refl h

servers_shape :
    (names : List Text) (d : Text)
    → contains (servers names) d ≡ true
    → (d ≡ codes "world/") ⊎ ((p : Text) × (d ≡ p ++ codes "/world/"))
unfolding servers
servers_shape names d h =
    let (n, i, e) = contains-dirs_of (select _ names) d h in
    let both = sym (contains-select (λ m. not (is_skipped m) && is_server m) names n) ∙ i in
    elim (server_shape n (ground arith)) [
      | inl f ↦ inl (sym e ∙ ap dir_of f ∙ at_root)
      | inr (p, f) ↦ inr (p, sym e ∙ ap dir_of f ∙ dir_of-append (p ++ codes "/world/"))
    ]

deeper : (p : Text) → shallower (codes "world/") (p ++ codes "/world/") ≡ true
unfolding shallower codes count
deeper p = ground (arith, count-append b'/' p (codes "/world/"))

find_root :
    (names ds other : List Text)
    → ds ≡ servers names
    → contains ds (codes "world/") ≡ true
    → find_in ds other ≡ some ([], codes "world/")
unfolding find_in contains
find_root names [] other e h = cc
find_root names (d ∷ ds) other e h =
    let wd = min_of shallower d ds in
    let least =
      min_of-least shallower shallower_irrefl shallower-asym shallower-not_trans d ds
        (codes "world/") h in
    let found =
      subst (λ t. contains t wd ≡ true) e
        (contains-min_of shallower shallower_irrefl shallower-asym shallower-not_trans d ds) in
    let root : wd ≡ codes "world/" = elim (servers_shape names wd found) [
      | inl r ↦ r
      | inr (p, r) ↦
          absurd (cc (deeper p, subst (λ t. shallower (codes "world/") t ≡ false) r least))
    ] in
    rw root (unfold drop_end codes in refl)

-- An archive that has world/level.dat at its top is laid out like /data, whatever else it holds.
pub find_world-root :
    (names : List Text)
    → contains names (codes "world/level.dat") ≡ true
    → find_world names ≡ some ([], codes "world/")
unfolding find_world
find_world-root names h = find_root names (servers names) (saves names) refl (
    subst (λ t. contains (servers names) t ≡ true) at_root
      (servers-contains names (codes "world/level.dat") h skipped server))
  where
    skipped : is_skipped (codes "world/level.dat") ≡ false
    skipped = unfold is_skipped codes ends_with has_infix starts_with list_beq in refl

    server : is_server (codes "world/level.dat") ≡ true
    server = unfold is_server codes list_beq in refl
