-- ===== src/Service/Requests.antt =====
-- src/mcdash/service.py and models.py: the requests of `DashboardService` that change a world.
use k3s_minecraft.Prelude.{Text, Bool, true, false, ◌==◌, text_eq, Option, List, [], ◌∷◌}
use k3s_minecraft.Models.{WorldSettings}
use k3s_minecraft.Service.Exec.{State, Outside, M, pure, ◌>>=◌}
use k3s_minecraft.Service.Operations.{
  launch, create_world, start, stop, snapshot, restore, update_settings,
}
use k3s_minecraft.Service.Reconcile.{delete}
use k3s_minecraft.Service.Whitelist.{set_whitelist}

-- What users ask that changes a world or its record.
pub data Request : Type 0 where
  launch_backup : Text → Text → WorldSettings → Text → Request
  new_world : Text → WorldSettings → Text → Request
  start_world stop_world take_snapshot delete_world : Text → Text → Request
  restore_backup : Text → Text → Text → Request
  change_settings : Text → WorldSettings → Text → Request
  change_players : Text → List Text → Text → Bool → Option (List Text) → Request

-- The world that a request names.
abbrev pub named : Request → Text
named (launch_backup backup name settings actor) = name
named (new_world name settings actor) = name
named (start_world name actor) = name
named (stop_world name actor) = name
named (take_snapshot name actor) = name
named (delete_world name actor) = name
named (restore_backup name backup actor) = name
named (change_settings name settings actor) = name
named (change_players name given actor open_to_all ops) = name

abbrev pub is_deletion : Request → Bool
is_deletion (delete_world name actor) = true
is_deletion _ = false

-- Whether the request deletes the world.
abbrev pub deletes : Text → Request → Bool
deletes w (delete_world name actor) = name == w
deletes w _ = false

-- `set_whitelist` is the one request that does not ask for a pending operation.
abbrev pub checks_busy : Request → Bool
checks_busy (change_players name given actor open_to_all ops) = false
checks_busy _ = true

unfoldable pub respond : Outside → Request → M (Unit {0})
unfolding launch create_world start stop snapshot delete restore update_settings set_whitelist
respond o (launch_backup backup name settings actor) = do
  shown ← launch o backup name settings actor
  pure tt
respond o (new_world name settings actor) = do shown ← create_world o name settings actor; pure tt
respond o (start_world name actor) = start o name actor
respond o (stop_world name actor) = stop o name actor
respond o (take_snapshot name actor) = snapshot o name actor
respond o (delete_world name actor) = delete o name actor
respond o (restore_backup name backup actor) = restore o name backup actor
respond o (change_settings name settings actor) = update_settings o name settings actor
respond o (change_players name given actor open_to_all ops) =
    set_whitelist o name given actor open_to_all ops

-- The state after a request, whether it returned or raised.
unfoldable pub serve : Outside → Request → State → State
unfolding respond
serve o q s = (respond o q s).1

unfoldable pub serve_all : Outside → List Request → State → State
unfolding serve
serve_all o [] s = s
serve_all o (q ∷ qs) s = serve_all o qs (serve o q s)
