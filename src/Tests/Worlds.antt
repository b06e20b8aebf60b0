-- ===== src/Tests/Worlds.antt =====
-- src/mcdash/service.py on a cluster with one world and answers that stay the same.
use k3s_minecraft.Prelude.{
  any, Text, codes, ℕ, ◌<◌, ◌≤◌, true, false, none, some, List, [], ◌∷◌, get, list_beq, text_eq,
  nat_eq, contains, ◌≡◌, refl, arith,
}
use k3s_minecraft.Models.{default_settings, Config}
use k3s_minecraft.Service.Exec.{Spec, Op, Kind, Step, Entry, Outside, State}
use k3s_minecraft.Service.Operations.{plain_op}
use k3s_minecraft.Service.Ports.{free_in}
use k3s_minecraft.Service.Ports.Free.{free_in-eq_some, free_in-eq_none}
use k3s_minecraft.Service.Reconcile.{advance, reconcile_world}
use k3s_minecraft.Service.Requests.{
  Request, start_world, delete_world, new_world, change_players, respond, serve_all,
}
use k3s_minecraft.Service.Busy.{Raised, busy_refused}
use k3s_minecraft.Service.Kept.{HasPorts, Held}
use k3s_minecraft.Service.Kept.Requests.{serve_all-keeps_ports}
use k3s_minecraft.Service.Kept.Advance.{advance-keeps_ports}
use k3s_minecraft.Service.Spared.{destroyed}
use k3s_minecraft.Service.Spared.Requests.{serve_all-destroys_nothing}
use k3s_minecraft.Service.Spared.Advance.{advance-destroys_nothing}
use k3s_minecraft.Service.Turns.{Turned, stays}
use k3s_minecraft.Service.Turns.Steps.{advance-turns}
use k3s_minecraft.Service.Turns.Rounds.{IsMildEntry, reconcile_world-destroys_nothing}

abbrev config : Config
config = record {
  port_min = 30565;
  port_max = 30575;
  rcon_port_min = 30600;
  rcon_port_max = 30610;
  default_memory = codes "4Gi";
  snapshots_dir = codes "snapshots";
  job_store_mount = codes "/store";
  snapshot_keep = 5;
}

abbrev outside : Outside
outside = record {
  config = config;
  fails = λ h e. none;
  releases = λ h. [];
  values = λ h w. record { replica_count = some 1; mcdash = none };
  pods = λ h w. [];
  job = λ h w. none;
  jobs = λ h w. [];
  pvc_exists = λ h w. false;
  is_file = λ h p. true;
  stamp = λ h. codes "20260101T000000";
  now = λ h. codes "2026-01-01T00:00:00";
  backup_id = λ h b. b;
  detected = λ h b. [];
  job_path = λ p. p;
}

abbrev world : Text
world = codes "abc"

abbrev spec : Spec
spec = record {
  port = 30565;
  rcon_port = 30600;
  source_backup = [];
  created = [];
  settings = default_settings;
  forge_version = [];
  message = [];
}

-- The world while an operation on it runs.
abbrev entry : Op → Entry
entry op = record { spec = spec; op = some op }

abbrev state : Op → State
state op = record { records = (world, entry op) ∷ []; cache = []; spec = spec; history = [] }

-- The world at rest.
abbrev idle : State
idle = record {
  records = (world, record { spec = spec; op = none }) ∷ [];
  cache = [];
  spec = spec;
  history = [];
}

abbrev creating : Op
creating = plain_op Kind.create Step.install

abbrev additions : List Request
additions =
    new_world (codes "other") default_settings (codes "ann")
    ∷ start_world world (codes "ann")
    ∷ change_players world (codes "Alex" ∷ []) (codes "bob") false none
    ∷ []

abbrev requests : List Request
requests = delete_world (codes "old") (codes "bob") ∷ additions

serve_all-keeps_ports_example :
    HasPorts 30565 30600 (get (serve_all outside requests idle).records world)
unfolding get list_beq codes any
serve_all-keeps_ports_example =
    serve_all-keeps_ports outside world 30565 30600 (λ e. omega arith) (λ e. omega arith) requests
      idle refl (refl, refl)

busy_refused_example :
    Raised (respond outside (delete_world world (codes "bob")) (state creating)).0
    × (get (respond outside (delete_world world (codes "bob")) (state creating)).1.records world
        ≡ some (entry creating))
unfolding get list_beq codes
busy_refused_example =
    busy_refused outside (delete_world world (codes "bob")) (entry creating) creating
      (state creating) refl (λ e. omega arith) (λ e. omega arith) refl refl refl

advance-keeps_ports_example :
    Held outside world 30565 30600
      (λ e. omega arith)
      (λ e. omega arith)
      world
      (advance outside world creating none (state creating)).1
unfolding get list_beq codes
advance-keeps_ports_example =
    advance-keeps_ports outside world 30565 30600 (λ e. omega arith) (λ e. omega arith) world
      creating none (state creating) (λ e. cc) ((refl, refl), λ i. (refl, refl))

serve_all-destroys_nothing_example :
    destroyed (serve_all outside additions idle).history ≡ destroyed idle.history
unfolding any
serve_all-destroys_nothing_example = serve_all-destroys_nothing outside additions idle refl

-- A world that waits for its pods to end before a backup is restored.
abbrev draining : Op
draining = record (plain_op Kind.restore Step.drain) { backup = some (codes "b1") }

advance-destroys_nothing_example :
    destroyed (advance outside world draining none (state draining)).1.history
    ≡ destroyed (state draining).history
advance-destroys_nothing_example =
    advance-destroys_nothing outside world draining none (state draining) (λ e. cc)

advance-turns_example :
    Turned draining (get (advance outside world draining none (state draining)).1.records world)
unfolding get list_beq codes
advance-turns_example = advance-turns outside world draining none (state draining) (λ e. cc) stays

reconcile_world-destroys_nothing_example :
    (destroyed (reconcile_world outside world (state draining)).1.history
      ≡ destroyed (state draining).history)
    × IsMildEntry (get (reconcile_world outside world (state draining)).1.records world)
unfolding get list_beq codes
reconcile_world-destroys_nothing_example =
    reconcile_world-destroys_nothing outside world (state draining) (entry draining) refl
      (λ e. cc, λ e. cc)

abbrev used_here : List ℕ
used_here = 30565 ∷ 30600 ∷ []

free_in-eq_some_example :
    (30565 ≤ 30566)
    × (30566 ≤ 30575)
    × (contains used_here 30566 ≡ false)
    × ((k : ℕ) → 30565 ≤ k → k < 30566 → contains used_here k ≡ true)
unfolding free_in contains
free_in-eq_some_example = free_in-eq_some used_here 30565 30575 30566 refl

free_in-eq_none_example : contains used_here 30565 ≡ true
unfolding free_in contains
free_in-eq_none_example =
    free_in-eq_none used_here 30565 30565 refl 30565 (omega arith) (omega arith)
