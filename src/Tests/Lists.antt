-- ===== src/Tests/Lists.antt =====
-- src/mcdash/service.py: lists of players at concrete names.
use k3s_minecraft.Prelude.{
  Bool, ◌==◌, ◌||◌, ◌&&◌, not, drop, starts_with, if◌then◌else◌, ◌⊎◌, inl, inr, ◌≢◌, sym, ◌∙◌, ap,
  arith, Text, codes, true, false, List, [], ◌∷◌, contains, list_beq, put, text_eq, lower, strip,
  ◌≡◌, refl,
}
use k3s_minecraft.Service.Settings.{lowers}
use k3s_minecraft.Service.Whitelist.{whitelist_cmds}
use k3s_minecraft.Service.Whitelist.Joins.{joins-whitelist_cmds, joins-recased}
use k3s_minecraft.Service.Whitelist.Server.{IsServer, is_on, joins}
use k3s_minecraft.Service.Players.{dedupe_players, next_ops}
use k3s_minecraft.Service.Players.Edits.{dedupe_players_complete, next_ops-listed}

abbrev names : List Text
names = codes " Ann" ∷ codes "ann " ∷ codes "" ∷ codes "Bob" ∷ []

abbrev admins : List Text
admins = codes "bob" ∷ codes "Ann" ∷ []

dedupe_players_complete_example :
    contains (lowers (dedupe_players names)) (lower (strip (codes "ann "))) ≡ true
unfolding contains list_beq codes strip
dedupe_players_complete_example = dedupe_players_complete names (codes "ann ") refl (λ e. cc)

next_ops-listed_example : contains (lowers (codes "BOB" ∷ [])) (lower (codes "bob")) ≡ true
unfolding next_ops contains lowers lower list_beq codes put
next_ops-listed_example =
    next_ops-listed (codes "Ann" ∷ codes "Bob" ∷ []) admins (codes "BOB" ∷ []) (codes "bob") refl
      refl

-- A server that reads the commands.
abbrev server : Text → Bool → Text → Bool
server p was cmd =
    if starts_with cmd (codes "whitelist add ")
    then lower p == lower (drop 14 cmd) || was
    else if starts_with cmd (codes "whitelist remove ")
    then not (lower p == lower (drop 17 cmd)) && was
    else was

server-IsServer : IsServer server
unfolding starts_with codes
server-IsServer = record {
  adds = λ p q was. refl;
  removes = λ p q was. refl;
  opens = λ p was. refl;
  closes = λ p was. refl;
  ops = λ p q was. refl;
  deops = λ p q was. refl;
}

one_of_two : (a b x : Text) → contains (a ∷ b ∷ []) x ≡ true → (x ≡ a) ⊎ (x ≡ b)
unfolding contains
one_of_two a b x h = ground (arith, text_eq.same_iff x a, text_eq.same_iff x b)

abbrev before : List Text
before = codes "Alex" ∷ codes "Steve" ∷ []

abbrev after : List Text
after = codes "Steve" ∷ codes "Kai" ∷ []

lists_alike :
    (x y : Text) → contains before x ≡ true → contains after y ≡ true → lower x ≡ lower y → x ≡ y
unfolding lower codes
lists_alike x y h k e = elim (one_of_two (codes "Alex") (codes "Steve") x h) [
  | inl i ↦ elim (one_of_two (codes "Steve") (codes "Kai") y k) [
    | inl j ↦ absurd (alex_steve (ap lower (sym i) ∙ e ∙ ap lower j))
    | inr j ↦ absurd (alex_kai (ap lower (sym i) ∙ e ∙ ap lower j))
  ]
  | inr i ↦ elim (one_of_two (codes "Steve") (codes "Kai") y k) [
    | inl j ↦ i ∙ sym j
    | inr j ↦ absurd (steve_kai (ap lower (sym i) ∙ e ∙ ap lower j))
  ]
]
  where
    alex_steve : lower (codes "Alex") ≢ lower (codes "Steve")
    alex_steve e = cc

    alex_kai : lower (codes "Alex") ≢ lower (codes "Kai")
    alex_kai e = cc

    steve_kai : lower (codes "Steve") ≢ lower (codes "Kai")
    steve_kai e = cc

joins-whitelist_cmds_example :
    joins server (codes "alex") true (whitelist_cmds before after false false [] (codes "Kai" ∷ []))
    ≡ is_on after (codes "alex")
unfolding contains list_beq codes lowers lower
joins-whitelist_cmds_example =
    joins-whitelist_cmds server (codes "alex") true before after false false [] (codes "Kai" ∷ [])
      server-IsServer lists_alike (λ e. refl) (λ e. cc)

joins-recased_example :
    (joins server
        (codes "steve")
        true
        (whitelist_cmds (codes "Steve" ∷ []) (codes "steve" ∷ []) false false [] [])
      ≡ false)
    × (is_on (codes "steve" ∷ []) (codes "steve") ≡ true)
unfolding contains list_beq codes lowers lower
joins-recased_example =
    joins-recased server (codes "steve") (codes "Steve") true (codes "Steve" ∷ [])
      (codes "steve" ∷ []) false false [] [] server-IsServer refl refl refl refl
