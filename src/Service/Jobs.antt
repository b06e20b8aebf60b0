-- ===== src/Service/Jobs.antt =====
-- src/mcdash/service.py: pods, snapshot and seed Jobs, and the state that a world shows.
use k3s_minecraft.Prelude.{
  Text, codes, Bool, true, false, ◌&&◌, ◌||◌, not, Option, none, some, List, [], ◌∷◌, ◌++◌, text_eq,
  ◌==◌, if◌then◌else◌, any, select, contains, eqb, lower, drop_while_end,
}
use k3s_minecraft.Models.{
  ServerType, vanilla, forge, WorldState, seeding, starting, running, snapshotting, stopped,
  failed_state, ErrorClass, crash, conflict, PodInfo, JobSpec,
}
use k3s_minecraft.Service.Exec.{
  Op, Kind, Step, Values, Query, Event, Outside, M, pure, raise, gets, modify, ◌>>=◌, ◌>>◌, except,
  when, maybe, call, ask,
}
use k3s_minecraft.Service.Records.{replicas, save}

unfoldable pub kind_text : Kind → Text
unfolding codes
kind_text Kind.launch = codes "launch"
kind_text Kind.create = codes "create"
kind_text Kind.snapshot = codes "snapshot"
kind_text Kind.restore = codes "restore"
kind_text Kind.delete = codes "delete"
kind_text Kind.stop = codes "stop"

-- `_live`: a finished pod holds no volume.
unfoldable pub may_hold_volume : PodInfo → Bool
unfolding codes
may_hold_volume p = not (p.phase == codes "Succeeded" || p.phase == codes "Failed")

unfoldable pub live : List PodInfo → List PodInfo
unfolding select may_hold_volume
live = select may_hold_volume

abbrev pub is_empty {ℓ} : {A : Type ℓ} → List A → Bool
is_empty [] = true
is_empty (x ∷ xs) = false

-- `_shutting_down`
unfoldable pub shutting_down : Option Values → List PodInfo → Bool
unfolding replicas live
shutting_down v pods = eqb (replicas v) 0 && not (is_empty (live pods))

abbrev pub any_ready : List PodInfo → Bool
any_ready = any (λ p. p.ready)

-- `op.get("error")`: the empty text counts as none.
abbrev pub has_failed : Op → Bool
has_failed op = not (is_empty op.error)

unfoldable pub is_bad_wait : Text → Bool
unfolding contains codes
is_bad_wait = contains (
    codes "CrashLoopBackOff"
    ∷ codes "ImagePullBackOff"
    ∷ codes "ErrImagePull"
    ∷ codes "CreateContainerConfigError"
    ∷ codes "InvalidImageName"
    ∷ [])

-- The state by the pods of a server that should run; the last loop of `_derive`.
unfoldable pub derive_pods : List PodInfo → WorldState × Text
unfolding is_bad_wait codes
derive_pods [] = (starting, [])
derive_pods (p ∷ ps) =
    let rest = derive_pods ps in
    if is_bad_wait p.waiting_reason
    then (failed_state, codes "server pod: " ++ p.waiting_reason)
    else if p.phase == codes "Failed"
    then (failed_state, codes "server pod failed")
    else rest

unfoldable pub derive_release : Option Values → List PodInfo → WorldState × Text
unfolding shutting_down derive_pods select any replicas codes
derive_release none pods = (failed_state, codes "no helm release")
derive_release (some v) pods =
    let up = select (λ p. not p.deleting) pods in
    if eqb (replicas (some v)) 0
    then (if shutting_down (some v) pods
        then (stopped, codes "stopping: server still shutting down")
        else (stopped, []))
    else if any_ready up
    then (running, [])
    else derive_pods up

unfoldable pub derive_step : Op → Step → WorldState × Text → WorldState × Text
unfolding kind_text codes
derive_step op Step.snapshot other = (snapshotting, codes "snapshot before " ++ kind_text op.kind)
derive_step op Step.drain other = (seeding, codes "stopping before restore")
derive_step op Step.seed other = (seeding, codes "copying world data")
derive_step op Step.teardown other = (stopped, codes "deleting")
derive_step op Step.install other = (starting, codes "installing server")
derive_step op Step.unknown other = other

-- `_derive`
unfoldable pub derive : Option Op → Option Values → List PodInfo → WorldState × Text
unfolding derive_release derive_step kind_text codes
derive none v pods = derive_release v pods
derive (some op) v pods =
    if has_failed op
    then (failed_state, kind_text op.kind ++ codes " failed: " ++ op.error)
    else derive_step op op.step (derive_release v pods)

abbrev pub is_conflict : ErrorClass → Bool
is_conflict conflict = true
is_conflict _ = false

-- A key that an `op` lacks raises `KeyError`, which no handler of an operation catches.
unfoldable pub require : Option Text → M Text
unfolding maybe raise pure
require x = maybe x (raise (record { kind = crash; text = codes "KeyError" })) pure

abbrev pub suppress_conflict : M (Unit {0}) → M (Unit {0})
suppress_conflict m = except is_conflict m (pure tt)

abbrev pub mode : ServerType → Text
mode forge = codes "full"
mode vanilla = codes "vanilla"

abbrev pub set_message : Text → M (Unit {0})
set_message t = modify (λ s. record s { spec = record s.spec { message = t } })

-- `except (RconError, MCDashError, OSError)`
abbrev pub is_expected : ErrorClass → Bool
is_expected crash = false
is_expected _ = true

module _ (o : Outside) where
  -- `_stamp`: for Kubernetes names, and for files
  unfoldable pub k8s_stamp : M Text
  unfolding lower drop_while_end
  k8s_stamp = gets (λ s. drop_while_end (λ c. eqb c b'z') (lower (o.stamp s.history)))

  unfoldable pub file_stamp : M Text
  file_stamp = gets (λ s. o.stamp s.history)

  unfoldable pub list_pods : Text → M (List PodInfo)
  list_pods name = ask o (Query.pods name) (λ h. o.pods h name)

  -- `list_server_pods(name) if values else []`
  unfoldable pub pods_of : Text → Option Values → M (List PodInfo)
  unfolding list_pods
  pods_of name v = maybe v (pure []) (λ _. list_pods name)

  -- `_seed_job`: the Job that copies a backup to the world's volume
  unfoldable pub seed_job : Text → Text → M JobSpec
  unfolding k8s_stamp
  seed_job name backup = do
    stamp ← k8s_stamp
    spec ← gets (λ s. s.spec)
    pure (record {
      name = name ++ codes "-seed-" ++ stamp;
      world = name;
      kind = codes "seed";
      args =
          codes "seed"
          ∷ codes "--src"
          ∷ o.job_path backup
          ∷ codes "--dest"
          ∷ codes "/data"
          ∷ codes "--mode"
          ∷ mode spec.settings.server_type
          ∷ [];
      store_read_only = true;
    })

  -- `_create_snapshot_job`
  unfoldable pub create_snapshot_job : Text → Op → M (Unit {0})
  unfolding require
  create_snapshot_job name op = do
    call o (Event.prepare op.local)
    job ← require op.job
    suppress_conflict (
        call o (
          Event.create_job (record {
            name = job;
            world = name;
            kind = codes "snapshot";
            args = codes "snapshot" ∷ codes "--src" ∷ codes "/data" ∷ codes "--dest" ∷ op.dest ∷ [];
            store_read_only = false;
          })))

  -- RCON commands whose failure is only logged; whether they succeeded.
  unfoldable pub try_rcon : Text → List Text → M Bool
  try_rcon name cmds = except is_expected (do call o (Event.rcon name cmds); pure true) (pure false)

  unfoldable pub refuse_shutting_down : Text → Option Values → M (Unit {0})
  unfolding list_pods shutting_down
  refuse_shutting_down name v = maybe v (pure tt) λ v'. do
    pods ← list_pods name
    when (shutting_down (some v') pods) (
        raise (record {
          kind = conflict;
          text = name ++ codes " is still shutting down; try again in a moment";
        }))

  -- `_begin_snapshot`; the last two arguments are its extra keys.
  unfoldable pub begin_snapshot :
      Text → Option Values → Kind → Option Text → Option Text → M (Unit {0})
  unfolding refuse_shutting_down k8s_stamp file_stamp pods_of try_rcon save create_snapshot_job
  begin_snapshot name v kind backup build = do
    refuse_shutting_down name v
    k8s ← k8s_stamp
    stamp ← file_stamp
    pods ← pods_of name v
    paused ←
        if not (eqb (replicas v) 0) && any_ready pods
        then try_rcon name (codes "save-off" ∷ codes "save-all flush" ∷ [])
        else pure false
    let op : Op = record {
      kind = kind;
      step = Step.snapshot;
      job = some (name ++ codes "-snap-" ++ k8s);
      backup = backup;
      dest =
          o.config.job_store_mount
          ++ codes "/snapshots/"
          ++ name
          ++ codes "/"
          ++ stamp
          ++ codes ".zip";
      local = o.config.snapshots_dir ++ codes "/" ++ name ++ codes "/" ++ stamp ++ codes ".zip";
      paused = paused;
      forge_version = build;
      error = [];
    }
    set_message []
    save o name (some op)
    create_snapshot_job name op
