-- ===== src/Service/Whitelist.antt =====
-- src/mcdash/service.py: `set_whitelist`, who may join a world and who its admins are.
pub mod Server
pub mod Joins
pub mod Checks
use k3s_minecraft.Prelude.{
  Text, codes, Bool, true, false, ◌&&◌, ◌||◌, not, Option, none, some, List, [], ◌∷◌, ◌++◌, text_eq,
  ◌==◌, contains, if◌then◌else◌, eqb, select, lower, strip,
}
use k3s_minecraft.Models.{WorldSettings}
use k3s_minecraft.Service.Exec.{
  Op, Values, Event, Outside, M, pure, raise, gets, modify, ◌>>=◌, ◌>>◌, when, call,
}
use k3s_minecraft.Service.Records.{replicas, save, load}
use k3s_minecraft.Service.Jobs.{any_ready, pods_of}
use k3s_minecraft.Service.Operations.{is_none, refuse_conflict}
use k3s_minecraft.Service.Players.{next_ops, same_players, check_ops_change}
use k3s_minecraft.Service.Settings.{check_settings, lowers}

-- `list(dict.fromkeys(p.strip() for p in players if p.strip()))`
unfoldable pub stripped : List Text → List Text → List Text
unfolding strip contains
stripped seen [] = []
stripped seen (p ∷ ps) =
    let skipped = stripped seen ps in
    let kept = stripped (strip p ∷ seen) ps in
    if strip p == [] || contains seen (strip p) then skipped else strip p ∷ kept

-- `[f"{word} {p}" for p in ps]`, with the blank in the word
unfoldable pub prefixed : Text → List Text → List Text
prefixed word [] = []
prefixed word (p ∷ ps) = (word ++ p) ∷ prefixed word ps

unfoldable pub add_cmds : List Text → List Text → Bool → List Text
unfolding prefixed select contains codes
add_cmds old players closing =
    prefixed (codes "whitelist add ") (select (λ p. closing || not (contains old p)) players)

unfoldable pub remove_cmds : List Text → List Text → List Text
unfolding prefixed select contains codes
remove_cmds old players =
    prefixed (codes "whitelist remove ") (select (λ p. not (contains players p)) old)

abbrev same_bool : Bool → Bool → Bool
same_bool true b = b
same_bool false b = not b

unfoldable pub mode_cmds : Bool → Bool → List Text
unfolding codes
mode_cmds was_open open_to_all =
    if same_bool was_open open_to_all
    then []
    else (if open_to_all then codes "whitelist off" else codes "whitelist on") ∷ []

-- The names of `ps` that are not among `others`, but for their case.
unfoldable pub op_cmds : Text → List Text → List Text → List Text
unfolding prefixed select contains lowers lower
op_cmds word ps others = prefixed word (select (λ p. not (contains (lowers others) (lower p))) ps)

unfoldable pub whitelist_cmds :
    List Text → List Text → Bool → Bool → List Text → List Text → List Text
unfolding add_cmds remove_cmds mode_cmds op_cmds codes
whitelist_cmds old players was_open open_to_all old_ops new_ops =
    add_cmds old players (was_open && not open_to_all)
    ++ (remove_cmds old players
        ++ (mode_cmds was_open open_to_all
            ++ (op_cmds (codes "op ") new_ops old_ops ++ op_cmds (codes "deop ") old_ops new_ops)))

-- The refusals while the server starts.
unfoldable pub refuse_starting : Text → Bool → Bool → Bool → M (Unit {0})
unfolding pure codes raise
refuse_starting name starting same_mode same_ops =
    if starting && not same_mode
    then refuse_conflict (name ++ codes " is starting; change who can join once it is running")
    else if starting && not same_ops
    then refuse_conflict (name ++ codes " is starting; change its admins once it is running")
    else pure tt

abbrev requested_ops : List Text → Option (List Text) → List Text
requested_ops old_ops none = old_ops
requested_ops old_ops (some ops) = ops

abbrev put_lists : WorldSettings → List Text → Bool → List Text → WorldSettings
put_lists settings players open_to_all new_ops = record settings {
  whitelist = players;
  open_to_all = open_to_all;
  ops = new_ops;
}

module _ (o : Outside) where
  -- `_rcon_cmds`, if there are any
  unfoldable pub send_cmds : Text → List Text → M (Unit {0})
  unfolding pure call
  send_cmds name [] = pure tt
  send_cmds name (c ∷ cs) = call o (Event.rcon name (c ∷ cs))

  -- The checks and the commands, and then the record.
  unfoldable pub apply_lists :
      Text
      → Option Op
      → Option Values
      → Text
      → WorldSettings
      → List Text
      → Bool
      → List Text
      → List Text
      → M (Unit {0})
  unfolding check_settings pods_of refuse_starting same_players check_ops_change send_cmds
      whitelist_cmds save
  apply_lists name op v actor settings players open_to_all requested new_ops = do
    check_settings o.config (put_lists settings players open_to_all new_ops)
    pods ← pods_of o name v
    refuse_starting name (not (eqb (replicas v) 0) && not (any_ready pods))
        (same_bool settings.open_to_all open_to_all) (same_players settings.ops new_ops)
    when (not (is_none v) && eqb (replicas v) 0)
        (check_ops_change name settings.ops requested new_ops)
    when (not (eqb (replicas v) 0) && any_ready pods) (
        send_cmds name (
          whitelist_cmds settings.whitelist players settings.open_to_all open_to_all settings.ops
            new_ops))
    modify (λ s. record s {
      spec = record s.spec { settings = put_lists settings players open_to_all new_ops };
    })
    save o name op
    call o (Event.audit actor (codes "set_whitelist") name)

  unfoldable pub set_whitelist : Text → List Text → Text → Bool → Option (List Text) → M (Unit {0})
  unfolding load stripped next_ops apply_lists
  set_whitelist name given actor open_to_all ops = do
    (op, v) ← load o name
    settings ← gets (λ s. s.spec.settings)
    let players = stripped [] given
    let requested = requested_ops settings.ops ops
    apply_lists name op v actor settings players open_to_all requested
        (next_ops settings.whitelist requested players open_to_all)
