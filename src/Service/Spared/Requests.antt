-- ===== src/Service/Spared/Requests.antt =====
-- src/mcdash/service.py: no request deletes an object of any world.
use k3s_minecraft.Prelude.{
  Bool, false, any, arith, Text, Option, none, some, List, [], ◌∷◌, Dict, text_eq, ◌≡◌, refl, ◌∙◌,
}
use k3s_minecraft.Models.{WorldSettings}
use k3s_minecraft.Service.Exec.{State, Op, Entry, Values, Outside, History}
use k3s_minecraft.Service.Exec.Keeps.{keeps_rules}
use k3s_minecraft.Service.Settings.Keeps.{check_settings-Keeps, check_name-Keeps}
use k3s_minecraft.Service.Operations.{
  busy, start, stop, snapshot, restore, request_delete, update_settings, reserve, launch_reserved,
  create_reserved, claim, claim_if_new, refuse_taken, launch, create_world, world_state,
  values_after_create, retry_seed, start_server, stop_server,
}
use k3s_minecraft.Service.Requests.{
  Request, launch_backup, new_world, start_world, stop_world, take_snapshot, delete_world,
  restore_backup, change_settings, change_players, is_deletion, respond, serve, serve_all,
}
use k3s_minecraft.Service.Whitelist.{set_whitelist, apply_lists, send_cmds}
use k3s_minecraft.Service.Whitelist.Checks.{check_ops_change-Keeps, refuse_starting-Keeps}
use k3s_minecraft.Service.Spared.{destroyed}
use k3s_minecraft.Service.Spared.Parts.{
  Sparing, spare_rules, releases-Spares, records-Spares, allocate_port-Spares,
  allocate_rcon_port-Spares,
}

module _ (o : Outside) (l : History) (name : Text) where
  busy-Spares : (op : Option Op) → Sparing o l (busy name op)
  unfolding busy
  busy-Spares none = search keeps_rules
  busy-Spares (some op) = search keeps_rules

  retry_seed-Spares : (op : Op) → Sparing o l (retry_seed o name op)
  unfolding retry_seed
  retry_seed-Spares op = search spare_rules depth 12

  start_server-Spares : (v : Option Values) → Sparing o l (start_server o name v)
  unfolding start_server
  start_server-Spares v = search spare_rules depth 12

  stop_server-Spares : (v : Option Values) (actor : Text) → Sparing o l (stop_server o name v actor)
  unfolding stop_server
  stop_server-Spares v actor = search spare_rules depth 14

  ruleset request_rules = (
    spare_rules, busy-Spares, retry_seed-Spares, start_server-Spares, stop_server-Spares,
    check_name-Keeps, check_settings-Keeps,
  )

  start-Spares : (actor : Text) → Sparing o l (start o name actor)
  unfolding start
  start-Spares actor = search request_rules depth 14

  stop-Spares : (actor : Text) → Sparing o l (stop o name actor)
  unfolding stop
  stop-Spares actor = search request_rules depth 14

  snapshot-Spares : (actor : Text) → Sparing o l (snapshot o name actor)
  unfolding snapshot
  snapshot-Spares actor = search request_rules depth 14

  restore-Spares : (backup actor : Text) → Sparing o l (restore o name backup actor)
  unfolding restore
  restore-Spares backup actor = search request_rules depth 16

  request_delete-Spares : (actor : Text) → Sparing o l (request_delete o name actor)
  unfolding request_delete
  request_delete-Spares actor = search request_rules depth 14

  update_settings-Spares :
      (settings : WorldSettings) (actor : Text)
      → Sparing o l (update_settings o name settings actor)
  unfolding update_settings
  update_settings-Spares settings actor = search request_rules depth 16

  send_cmds-Spares : (cmds : List Text) → Sparing o l (send_cmds o name cmds)
  unfolding send_cmds
  send_cmds-Spares [] = search spare_rules
  send_cmds-Spares (c ∷ cs) = search spare_rules

  apply_lists-Spares :
      (op : Option Op) (v : Option Values) (actor : Text) (settings : WorldSettings)
      (players : List Text) (open_to_all : Bool) (requested new_ops : List Text)
      → Sparing o l (apply_lists o name op v actor settings players open_to_all requested new_ops)
  unfolding apply_lists
  apply_lists-Spares op v actor settings players open_to_all requested new_ops =
      search (request_rules, check_ops_change-Keeps, send_cmds-Spares, refuse_starting-Keeps) depth
        16

  set_whitelist-Spares :
      (given : List Text) (actor : Text) (open_to_all : Bool) (ops : Option (List Text))
      → Sparing o l (set_whitelist o name given actor open_to_all ops)
  unfolding set_whitelist
  set_whitelist-Spares given actor open_to_all ops =
      search (request_rules, apply_lists-Spares) depth 12

  claim_if_new-Spares :
      (settings : WorldSettings) (source build : Text) (d : Dict Text Entry) (x : Option Entry)
      → Sparing o l (claim_if_new o name settings source build d x)
  unfolding claim_if_new claim refuse_taken
  claim_if_new-Spares settings source build d none =
      search (spare_rules, allocate_port-Spares, allocate_rcon_port-Spares) depth 16
  claim_if_new-Spares settings source build d (some e) = search keeps_rules

  reserve-Spares :
      (settings : WorldSettings) (source build : Text)
      → Sparing o l (reserve o name settings source build)
  unfolding reserve
  reserve-Spares settings source build =
      search (keeps_rules, records-Spares, claim_if_new-Spares) depth 8

  launch_reserved-Spares : (b actor : Text) → Sparing o l (launch_reserved o b name actor)
  unfolding launch_reserved world_state
  launch_reserved-Spares b actor = search request_rules depth 16

  launch-Spares :
      (backup : Text) (settings : WorldSettings) (actor : Text)
      → Sparing o l (launch o backup name settings actor)
  unfolding launch
  launch-Spares backup settings actor =
      search (request_rules, reserve-Spares, launch_reserved-Spares) depth 14

  values_after_create-Spares : (op : Option Op) → Sparing o l (values_after_create o name op)
  unfolding values_after_create
  values_after_create-Spares none = search (keeps_rules, releases-Spares) depth 8
  values_after_create-Spares (some op) = search keeps_rules

  create_reserved-Spares : (actor : Text) → Sparing o l (create_reserved o name actor)
  unfolding create_reserved world_state
  create_reserved-Spares actor = search (request_rules, values_after_create-Spares) depth 16

  create_world-Spares :
      (settings : WorldSettings) (actor : Text) → Sparing o l (create_world o name settings actor)
  unfolding create_world
  create_world-Spares settings actor =
      search (request_rules, reserve-Spares, create_reserved-Spares) depth 14

module _ (o : Outside) (l : History) where
  respond-Spares : (q : Request) → is_deletion q ≡ false → Sparing o l (respond o q)
  unfolding respond
  respond-Spares (launch_backup backup name settings actor) h =
      search (keeps_rules, launch-Spares o l name backup settings actor)
  respond-Spares (new_world name settings actor) h =
      search (keeps_rules, create_world-Spares o l name settings actor)
  respond-Spares (start_world name actor) h = start-Spares o l name actor
  respond-Spares (stop_world name actor) h = stop-Spares o l name actor
  respond-Spares (take_snapshot name actor) h = snapshot-Spares o l name actor
  respond-Spares (delete_world name actor) h = cc
  respond-Spares (restore_backup name backup actor) h = restore-Spares o l name backup actor
  respond-Spares (change_settings name settings actor) h =
      update_settings-Spares o l name settings actor
  respond-Spares (change_players name given actor open_to_all ops) h =
      set_whitelist-Spares o l name given actor open_to_all ops

-- Requests other than deletions uninstall no release and delete no object of the cluster, whatever
-- is answered from outside and whatever raises.
pub serve_all-destroys_nothing :
    (o : Outside) (qs : List Request) (s : State)
    → any is_deletion qs ≡ false
    → destroyed (serve_all o qs s).history ≡ destroyed s.history
unfolding serve_all serve any
serve_all-destroys_nothing o [] s h = refl
serve_all-destroys_nothing o (q ∷ qs) s h =
    serve_all-destroys_nothing o qs (serve o q s) (ground arith)
    ∙ (respond-Spares o (destroyed s.history) q (ground arith)).at s refl
