-- ===== src/Service/Whitelist/Server.antt =====
-- src/mcdash/service.py: the commands of `set_whitelist`, as a server executes them.
use k3s_minecraft.Prelude.{
  Text, codes, Bool, true, false, ◌&&◌, ◌||◌, not, List, [], ◌∷◌, ◌++◌, nat_eq, text_eq, ◌==◌,
  contains, select, lower, ◌≡◌, refl, sym, ◌∙◌, ap, arith, Bool-cases, inl, inr,
}
use k3s_minecraft.Service.Settings.{lowers}
use k3s_minecraft.Service.Whitelist.{
  prefixed, add_cmds, remove_cmds, mode_cmds, op_cmds, whitelist_cmds,
}

-- A Minecraft server's commands, as documented, by what they make of whether a player is on its
-- whitelist. The names of players are the same up to case.
pub record IsServer (server : Text → Bool → Text → Bool) : Type 0 where
  pub adds :
      (p q : Text) (was : Bool)
      → server p was (codes "whitelist add " ++ q) ≡ (lower p == lower q || was)
  pub removes :
      (p q : Text) (was : Bool)
      → server p was (codes "whitelist remove " ++ q) ≡ (not (lower p == lower q) && was)
  pub opens : (p : Text) (was : Bool) → server p was (codes "whitelist off") ≡ was
  pub closes : (p : Text) (was : Bool) → server p was (codes "whitelist on") ≡ was
  pub ops : (p q : Text) (was : Bool) → server p was (codes "op " ++ q) ≡ was
  pub deops : (p q : Text) (was : Bool) → server p was (codes "deop " ++ q) ≡ was

pub lowers-find :
    (xs : List Text) (n : Text)
    → contains (lowers xs) n ≡ true
    → (x : Text) × (contains xs x ≡ true) × (lower x ≡ n)
unfolding lowers contains
lowers-find [] n h = cc
lowers-find (x ∷ xs) n h = elim (Bool-cases (n == lower x)) [
  | inl same ↦
      (x, ground (arith, text_eq.same_iff x x), sym ((text_eq.same_iff n (lower x)).0 same))
  | inr other ↦ let (y, at, e) = lowers-find xs n (ground arith) in (y, ground arith, e)
]

pub lowers-here :
    (xs : List Text) (x n : Text)
    → contains xs x ≡ true
    → lower x ≡ n
    → contains (lowers xs) n ≡ true
unfolding lowers contains
lowers-here [] x n h e = cc
lowers-here (y ∷ xs) x n h e = elim (Bool-cases (x == y)) [
  | inl same ↦
      let i = (text_eq.same_iff x y).0 same in
      let j : (n == lower y) ≡ true = (text_eq.same_iff n (lower y)).1 (sym e ∙ ap lower i) in
      ground arith
  | inr other ↦ let k = lowers-here xs x n (ground arith) e in ground arith
]

-- A player is on the list, as the server tells players apart.
abbrev pub is_on : List Text → Text → Bool
is_on xs p = contains (lowers xs) (lower p)

-- Who is added and who is removed.
abbrev pub added : List Text → List Text → Bool → List Text
added old players closing = select (λ x. closing || not (contains old x)) players

abbrev pub removed : List Text → List Text → List Text
removed old players = select (λ x. not (contains players x)) old

module _ (server : Text → Bool → Text → Bool) where
  -- Whether a player is on the whitelist once the server has executed the commands.
  unfoldable pub joins : Text → Bool → List Text → Bool
  joins p was [] = was
  joins p was (c ∷ cs) = joins p (server p was c) cs

  joins-append :
      (p : Text) (was : Bool) (a b : List Text) → joins p was (a ++ b) ≡ joins p (joins p was a) b
  unfolding joins
  joins-append p was [] b = refl
  joins-append p was (c ∷ a) b = joins-append p (server p was c) a b

  joins-other :
      (p word : Text) (was : Bool) (xs : List Text)
      → ((q : Text) → server p was (word ++ q) ≡ was)
      → joins p was (prefixed word xs) ≡ was
  unfolding joins prefixed
  joins-other p word was [] h = refl
  joins-other p word was (x ∷ xs) h =
      ap (λ b. joins p b (prefixed word xs)) (h x) ∙ joins-other p word was xs h

  module _ (is_server : IsServer server) where
    joins-add :
        (p : Text) (was : Bool) (xs : List Text)
        → joins p was (prefixed (codes "whitelist add ") xs) ≡ (is_on xs p || was)
    unfolding joins prefixed contains lowers
    joins-add p was [] = refl
    joins-add p was (x ∷ xs) =
        joins-add p (server p was (codes "whitelist add " ++ x)) xs
        ∙ rw (is_server.adds p x was) (ground arith)

    joins-remove :
        (p : Text) (was : Bool) (xs : List Text)
        → joins p was (prefixed (codes "whitelist remove ") xs) ≡ (not (is_on xs p) && was)
    unfolding joins prefixed contains lowers
    joins-remove p was [] = refl
    joins-remove p was (x ∷ xs) =
        joins-remove p (server p was (codes "whitelist remove " ++ x)) xs
        ∙ rw (is_server.removes p x was) (ground arith)

    joins-mode : (p : Text) (was a b : Bool) → joins p was (mode_cmds a b) ≡ was
    unfolding joins mode_cmds
    joins-mode p was true true = refl
    joins-mode p was true false = is_server.closes p was
    joins-mode p was false true = is_server.opens p was
    joins-mode p was false false = refl

    -- What the commands make of a player being on the whitelist: the additions, then the removals.
    pub joins-changes :
        (p : Text) (was : Bool) (old players : List Text) (was_open open_to_all : Bool)
        (old_ops new_ops : List Text)
        → joins p was (whitelist_cmds old players was_open open_to_all old_ops new_ops) ≡ (
            not (is_on (removed old players) p)
            && (is_on (added old players (was_open && not open_to_all)) p || was))
    unfolding whitelist_cmds add_cmds remove_cmds op_cmds
    joins-changes p was old players was_open open_to_all old_ops new_ops =
        let adds = added old players (was_open && not open_to_all) in
        let removes = removed old players in
        let modes = mode_cmds was_open open_to_all in
        let ops = op_cmds (codes "op ") new_ops old_ops in
        let deops = op_cmds (codes "deop ") old_ops new_ops in
        let more : Bool = is_on adds p || was in
        let left : Bool = not (is_on removes p) && more in
        joins-append p was (prefixed (codes "whitelist add ") adds)
          (prefixed (codes "whitelist remove ") removes ++ (modes ++ (ops ++ deops)))
        ∙ ap
            (λ b.
              joins p b (prefixed (codes "whitelist remove ") removes ++ (modes ++ (ops ++ deops))))
            (joins-add p was adds)
        ∙ joins-append p more (prefixed (codes "whitelist remove ") removes)
            (modes ++ (ops ++ deops))
        ∙ ap (λ b. joins p b (modes ++ (ops ++ deops))) (joins-remove p more removes)
        ∙ joins-append p left modes (ops ++ deops)
        ∙ ap (λ b. joins p b (ops ++ deops)) (joins-mode p left was_open open_to_all)
        ∙ joins-append p left ops deops
        ∙ ap (λ b. joins p b deops)
            (joins-other p (codes "op ") left _ (λ q. is_server.ops p q left))
        ∙ joins-other p (codes "deop ") left _ (λ q. is_server.deops p q left)
