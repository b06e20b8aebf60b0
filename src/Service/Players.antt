-- ===== src/Service/Players.antt =====
-- src/mcdash/service.py: the lists of players and admins.
pub mod Edits
use k3s_minecraft.Prelude.{
  Text, codes, Bool, not, ◌&&◌, Option, none, some, List, [], ◌∷◌, ◌++◌, Dict, get, put, text_eq,
  contains, if◌then◌else◌, select, lower, strip, join, all,
}
use k3s_minecraft.Models.{conflict}
use k3s_minecraft.Service.Exec.{M, pure, raise}
use k3s_minecraft.Service.Settings.{lowers}

abbrev pub values {ℓ κ} : {K : Type ℓ} {V : Type κ} → Dict K V → List V
values [] = []
values ((k, v) ∷ d) = v ∷ values d

-- `out.setdefault(n.lower(), n)`
unfoldable pub set_default : Dict Text Text → Text → Option Text → Dict Text Text
set_default out n none = put out (lower n) n
set_default out n (some m) = out

-- One round of the loop, for a name that is stripped.
unfoldable pub add_player : Dict Text Text → Text → Dict Text Text
unfolding set_default get lower
add_player out [] = out
add_player out (c ∷ n) = set_default out (c ∷ n) (get out (lower (c ∷ n)))

unfoldable pub add_players : Dict Text Text → List Text → Dict Text Text
unfolding add_player strip
add_players out [] = out
add_players out (n ∷ ns) = add_players (add_player out (strip n)) ns

unfoldable pub dedupe_players : List Text → List Text
unfolding add_players
dedupe_players names = values (add_players [] names)

-- `gone`: on the old whitelist and not among the players, ignoring case
unfoldable pub is_gone : List Text → List Text → Text → Bool
unfolding contains lowers lower
is_gone old_whitelist players p =
    contains (lowers old_whitelist) (lower p) && not (contains (lowers players) (lower p))

unfoldable pub next_ops : List Text → List Text → List Text → Bool → List Text
unfolding dedupe_players select is_gone
next_ops old_whitelist ops players open_to_all =
    let new_ops = dedupe_players ops in
    if open_to_all then new_ops else select (λ p. not (is_gone old_whitelist players p)) new_ops

unfoldable pub same_players : List Text → List Text → Bool
unfolding all contains lowers
same_players a b = all (contains (lowers b)) (lowers a) && all (contains (lowers a)) (lowers b)

-- The message when the last admin would go, by those who were asked for.
unfoldable pub refuse_last : Text → List Text → M (Unit {0})
unfolding raise codes join
refuse_last name [] = raise (record {
  kind = conflict;
  text = name ++ codes " is not running; start it to remove its last admin";
})
refuse_last name (n ∷ dropped) = raise (record {
  kind = conflict;
  text =
      codes "taking "
      ++ join (codes ", ") (n ∷ dropped)
      ++ codes " off the whitelist would remove "
      ++ name
      ++ codes "'s last admin; start it first";
})

unfoldable pub check_ops_change : Text → List Text → List Text → List Text → M (Unit {0})
unfolding refuse_last pure dedupe_players
check_ops_change name [] requested new_ops = pure tt
check_ops_change name (n ∷ old_ops) requested (m ∷ new_ops) = pure tt
check_ops_change name (n ∷ old_ops) requested [] = refuse_last name (dedupe_players requested)
