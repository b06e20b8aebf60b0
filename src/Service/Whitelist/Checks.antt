-- ===== src/Service/Whitelist/Checks.antt =====
-- src/mcdash/service.py: the refusals of `set_whitelist` change nothing.
use k3s_minecraft.Prelude.{Text, Bool, List, [], ◌∷◌}
use k3s_minecraft.Service.Exec.{State}
use k3s_minecraft.Service.Exec.Keeps.{Keeps, keeps_rules}
use k3s_minecraft.Service.Players.{refuse_last, check_ops_change}
use k3s_minecraft.Service.Whitelist.{refuse_starting}

module _ {P : State → Type 0} where
  refuse_last-Keeps : (name : Text) (dropped : List Text) → Keeps P (refuse_last name dropped)
  unfolding refuse_last
  refuse_last-Keeps name [] = search keeps_rules
  refuse_last-Keeps name (n ∷ dropped) = search keeps_rules

  pub check_ops_change-Keeps :
      (name : Text) (old requested new_ops : List Text)
      → Keeps P (check_ops_change name old requested new_ops)
  unfolding check_ops_change
  check_ops_change-Keeps name [] requested new_ops = search keeps_rules
  check_ops_change-Keeps name (n ∷ old) requested (m ∷ new_ops) = search keeps_rules
  check_ops_change-Keeps name (n ∷ old) requested [] = refuse_last-Keeps name _

  pub refuse_starting-Keeps :
      (name : Text) (starting same_mode same_ops : Bool)
      → Keeps P (refuse_starting name starting same_mode same_ops)
  unfolding refuse_starting
  refuse_starting-Keeps name starting same_mode same_ops = search keeps_rules
