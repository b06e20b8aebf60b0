-- ===== src/Service/Operations.antt =====
-- src/mcdash/service.py: what the dashboard asks of a world.
use k3s_minecraft.Prelude.{
  Text, codes, Bool, true, false, ◌&&◌, ◌||◌, not, Option, none, some, [], ◌∷◌, ◌++◌, Dict, get,
  text_eq, if◌then◌else◌, eqb,
}
use k3s_minecraft.Models.{WorldSettings, WorldState, ErrorClass, helm_error, conflict}
use k3s_minecraft.Helm.{pvc_name, rcon_secret_name}
use k3s_minecraft.Service.Exec.{
  Op, Kind, Step, Entry, Values, Query, Event, Outside, M, pure, raise, gets, modify, ◌>>=◌, ◌>>◌,
  rescue, when, maybe, call, ask,
}
use k3s_minecraft.Service.Ports.{allocate_port, allocate_rcon_port}
use k3s_minecraft.Service.Records.{records, releases, replicas, save, load, install}
use k3s_minecraft.Service.Jobs.{
  kind_text, any_ready, has_failed, derive, suppress_conflict, pods_of, list_pods, seed_job,
  set_message, try_rcon, refuse_shutting_down, begin_snapshot, require,
}
use k3s_minecraft.Service.Settings.{check_name, check_settings, forge_override}

abbrev pub has_step : Step → Option Op → Bool
has_step Step.seed (some op) = elim op.step [ Step.seed ↦ true | _ ↦ false ]
has_step Step.install (some op) = elim op.step [ Step.install ↦ true | _ ↦ false ]
has_step step op = false

abbrev pub is_none {ℓ} : {A : Type ℓ} → Option A → Bool
is_none none = true
is_none (some a) = false

abbrev pub refuse_conflict : Text → M (Unit {0})
refuse_conflict t = raise (record { kind = conflict; text = t })

unfoldable pub refuse_taken : Text → M (Unit {0})
unfolding codes raise
refuse_taken name = refuse_conflict (codes "world name '" ++ name ++ codes "' is taken")

-- `_busy`
unfoldable pub busy : Text → Option Op → M (Unit {0})
unfolding kind_text raise pure codes
busy name none = pure tt
busy name (some op) =
    if has_failed op
    then pure tt
    else refuse_conflict (name ++ codes " is busy (" ++ kind_text op.kind ++ codes " in progress)")

abbrev pub is_helm_error : ErrorClass → Bool
is_helm_error helm_error = true
is_helm_error _ = false

abbrev pub plain_op : Kind → Step → Op
plain_op kind step = record {
  kind = kind;
  step = step;
  job = none;
  backup = none;
  dest = [];
  local = [];
  paused = false;
  forge_version = none;
  error = [];
}

module _ (o : Outside) where
  -- `_world`, for the state and the message that it shows
  unfoldable pub world_state : Text → Option Op → Option Values → M (WorldState × Text)
  unfolding pods_of derive
  world_state name op v = do pods ← pods_of o name v; pure (derive op v pods)

  -- The rest of `_reserve`, for a name that no record has.
  unfoldable pub claim : Text → WorldSettings → Text → Text → Dict Text Entry → M (Unit {0})
  unfolding pvc_name allocate_port allocate_rcon_port
  claim name settings source build d = do
    taken ← ask o (Query.pvc (pvc_name name)) (λ h. o.pvc_exists h (pvc_name name))
    when taken (refuse_taken name)
    port ← allocate_port o.config d
    rcon_port ← allocate_rcon_port o.config d
    now ← gets (λ s. o.now s.history)
    modify (λ s. record s {
      spec = record {
        port = port;
        rcon_port = rcon_port;
        source_backup = source;
        created = now;
        settings = settings;
        forge_version = build;
        message = [];
      };
    })

  unfoldable pub claim_if_new :
      Text → WorldSettings → Text → Text → Dict Text Entry → Option Entry → M (Unit {0})
  unfolding claim
  claim_if_new name settings source build d none = claim name settings source build d
  claim_if_new name settings source build d (some e) = refuse_taken name

  -- `_reserve`: the running operation holds the new spec.
  unfoldable pub reserve : Text → WorldSettings → Text → Text → M (Unit {0})
  unfolding records claim_if_new
  reserve name settings source build = do
    (d, rels) ← records o
    claim_if_new name settings source build d (get d name)

  unfoldable pub create_volume_and_secret : Text → M (Unit {0})
  create_volume_and_secret name = do
    suppress_conflict (call o (Event.create_secret (rcon_secret_name name)))
    suppress_conflict (call o (Event.create_pvc (pvc_name name)))

  -- `launch`, from the seed Job on
  unfoldable pub launch_reserved : Text → Text → Text → M (WorldState × Text)
  unfolding seed_job create_volume_and_secret world_state
  launch_reserved b name actor = do
    job ← seed_job o name b
    let op : Op = record {
      kind = Kind.launch;
      step = Step.seed;
      job = some job.name;
      backup = some b;
      dest = [];
      local = [];
      paused = false;
      forge_version = none;
      error = [];
    }
    save o name (some op)
    create_volume_and_secret name
    call o (Event.create_job job)
    call o (Event.audit actor (codes "launch") name)
    world_state name (some op) none

  unfoldable pub launch : Text → Text → WorldSettings → Text → M (WorldState × Text)
  unfolding check_name check_settings reserve launch_reserved
  launch backup name settings actor = do
    check_name name
    check_settings o.config settings
    b ← ask o (Query.backup backup) (λ h. o.backup_id h backup)
    detected ← ask o (Query.backup backup) (λ h. o.detected h backup)
    reserve name (record settings { forge_version = forge_override settings detected }) b detected
    launch_reserved b name actor

  -- `if op` is false for no op.
  unfoldable pub values_after_create : Text → Option Op → M (Option Values)
  unfolding releases
  values_after_create name none = do rels ← releases o; pure (get rels name)
  values_after_create name (some op) = pure none

  -- `create_world`, from the first save on
  unfoldable pub create_reserved : Text → Text → M (WorldState × Text)
  unfolding create_volume_and_secret values_after_create world_state install
  create_reserved name actor = do
    save o name (some (plain_op Kind.create Step.install))
    create_volume_and_secret name
    call o (Event.audit actor (codes "create_world") name)
    op ←
        rescue (do install o name 1; pure none)
          λ e.
            if is_helm_error e.kind
            then pure (some (record (plain_op Kind.create Step.install) { error = e.text }))
            else raise e
    save o name op
    v ← values_after_create name op
    world_state name op v

  unfoldable pub create_world : Text → WorldSettings → Text → M (WorldState × Text)
  unfolding check_name check_settings reserve create_reserved
  create_world name settings actor = do
    check_name name
    check_settings o.config settings
    reserve name (record settings { forge_version = forge_override settings [] }) [] []
    create_reserved name actor

  -- The branch of `start` that retries a failed seed.
  unfoldable pub retry_seed : Text → Op → M (Unit {0})
  unfolding seed_job
  retry_seed name op = do
    backup ← require op.backup
    job ← seed_job o name backup
    save o name (some (record op { job = some job.name; error = [] }))
    call o (Event.create_job job)

  unfoldable pub start_server : Text → Option Values → M (Unit {0})
  start_server name v = do
    refuse_shutting_down o name v
    set_message []
    save o name none
    install o name 1

  unfoldable pub start : Text → Text → M (Unit {0})
  unfolding load busy retry_seed start_server install
  start name actor = do
    (op, v) ← load o name
    busy name op
    maybe op (start_server name v)
        (λ op'. if has_step Step.seed (some op') then retry_seed name op' else start_server name v)
    call o (Event.audit actor (codes "start") name)

  -- What `stop` does to a world that has a release, and that is not stopped already.
  unfoldable pub stop_server : Text → Option Values → Text → M (Unit {0})
  stop_server name v actor = do
    pods ← list_pods o name
    if not (eqb (replicas v) 0) && any_ready pods
        then try_rcon o name (codes "save-all flush" ∷ [])
        else pure false
    set_message []
    save o name none
    install o name 0
    call o (Event.audit actor (codes "stop") name)

  unfoldable pub stop : Text → Text → M (Unit {0})
  unfolding load busy stop_server install try_rcon
  stop name actor = do
    (op, v) ← load o name
    busy name op
    if is_none v || (eqb (replicas v) 0 && is_none op) then pure tt else stop_server name v actor

  unfoldable pub snapshot : Text → Text → M (Unit {0})
  unfolding load busy begin_snapshot
  snapshot name actor = do
    (op, v) ← load o name
    busy name op
    begin_snapshot o name v Kind.snapshot none none
    call o (Event.audit actor (codes "snapshot") name)

  unfoldable pub restore : Text → Text → Text → M (Unit {0})
  unfolding load busy begin_snapshot
  restore name backup actor = do
    ask o (Query.backup backup) (λ h. o.backup_id h backup)
    build ← ask o (Query.backup backup) (λ h. o.detected h backup)
    (op, v) ← load o name
    busy name op
    if has_step Step.seed op || has_step Step.install op
        then save o name (
            some (record (plain_op Kind.restore Step.drain) {
              backup = some backup;
              forge_version = some build;
            }))
        else begin_snapshot o name v Kind.restore (some backup) (some build)
    call o (Event.audit actor (codes "restore") name)

  -- `delete`, before it reconciles the world
  unfoldable pub request_delete : Text → Text → M (Unit {0})
  unfolding load busy begin_snapshot
  request_delete name actor = do
    (op, v) ← load o name
    busy name op
    if is_none v || has_step Step.seed op
        then save o name (some (plain_op Kind.delete Step.teardown))
        else begin_snapshot o name v Kind.delete none none
    call o (Event.audit actor (codes "delete") name)

  unfoldable pub update_settings : Text → WorldSettings → Text → M (Unit {0})
  unfolding check_settings load busy install
  update_settings name settings actor = do
    check_settings o.config settings
    (op, v) ← load o name
    busy name op
    modify (λ s. record s {
      spec = record s.spec {
        settings = record settings { forge_version = forge_override settings s.spec.forge_version };
      };
    })
    save o name op
    maybe v (pure tt) (λ v'. install o name (replicas v))
    call o (Event.audit actor (codes "update_settings") name)
