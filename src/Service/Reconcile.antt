-- ===== src/Service/Reconcile.antt =====
-- src/mcdash/service.py: the reconciler, which advances the pending operations.
use k3s_minecraft.Prelude.{
  Text, codes, ℕ, zero, suc, Bool, true, false, Option, none, some, List, [], ◌∷◌, ◌++◌, text_eq,
  if◌then◌else◌, ltb,
}
use k3s_minecraft.Models.{ErrorClass, not_found, os_error, is_mcdash, JobInfo, job_done}
use k3s_minecraft.Helm.{pvc_name, rcon_secret_name}
use k3s_minecraft.Service.Exec.{
  Op, Kind, Step, Values, Query, Event, Outside, M, pure, raise, modify, ◌>>=◌, ◌>>◌, rescue,
  except, when, maybe, for_each, call, tell, ask,
}
use k3s_minecraft.Service.Records.{save, load, install, forget}
use k3s_minecraft.Service.Jobs.{
  live, has_failed, kind_text, is_expected, suppress_conflict, list_pods, seed_job,
  create_snapshot_job, set_message, require,
}
use k3s_minecraft.Service.Operations.{create_volume_and_secret, request_delete}

abbrev pub is_nil {ℓ} : {A : Type ℓ} → List A → Bool
is_nil [] = true
is_nil (x ∷ xs) = false

abbrev pub failed_job : JobInfo → Bool
failed_job j = ltb 0 j.failed

-- `spec["message"]` after a failed snapshot
unfoldable pub snapshot_failed : Kind → JobInfo → Text
snapshot_failed Kind.snapshot j = codes "snapshot failed (" ++ j.message ++ codes ")"
snapshot_failed kind j =
    kind_text kind ++ codes " aborted: snapshot failed (" ++ j.message ++ codes ")"

-- `except (OSError, MCDashError)`
abbrev pub os_or_mcdash : ErrorClass → Bool
os_or_mcdash os_error = true
os_or_mcdash kind = is_mcdash kind

module _ (o : Outside) where
  -- The missing snapshot Job of `_job_status`.
  unfoldable pub lost_snapshot : Text → Op → Text → M (Option JobInfo)
  lost_snapshot name op job = do
    there ← ask o (Query.file op.local) (λ h. o.is_file h op.local)
    if there
        then pure (
            some (record {
              name = job;
              kind = codes "snapshot";
              succeeded = 1;
              failed = 0;
              message = [];
            }))
        else (do create_snapshot_job o name op; pure none)

  unfoldable pub lost_seed : Text → Op → Text → M (Option JobInfo)
  lost_seed name op job = do
    backup ← require op.backup
    spec ← seed_job o name backup
    suppress_conflict (call o (Event.create_job (record spec { name = job })))
    pure none

  unfoldable pub lost_job : Text → Op → Step → Text → M (Option JobInfo)
  unfolding lost_snapshot lost_seed
  lost_job name op Step.snapshot job = lost_snapshot name op job
  lost_job name op step job = lost_seed name op job

  -- `_job_status`: the finished Job, or `none` while it runs
  unfoldable pub job_status : Text → Op → M (Option JobInfo)
  unfolding lost_job
  job_status name op = do
    job ← require op.job
    found ← ask o (Query.job job) (λ h. o.job h job)
    maybe found (lost_job name op op.step job) (λ j. pure (if job_done j then some j else none))

  -- `_save_on`
  unfoldable pub save_on : Text → Op → M (Unit {0})
  unfolding list_pods
  save_on name op = when op.paused (
      except is_expected
        (do pods ← list_pods o name; call o (Event.rcon name (codes "save-on" ∷ []))) (pure tt))

  unfoldable pub fail : Text → Op → Text → M (Unit {0})
  unfolding save
  fail name op msg = save o name (some (record op { error = msg }))

  -- The end of the snapshot step, when the Job has succeeded.
  unfoldable pub after_snapshot : Text → Op → Option Values → Kind → M Bool
  unfolding install
  after_snapshot name op v Kind.snapshot = do save o name none; pure true
  after_snapshot name op v Kind.stop = do install o name 0; save o name none; pure true
  after_snapshot name op v Kind.restore = do
    maybe v (pure tt) (λ _. install o name 0)
    save o name (some (record op { step = Step.drain }))
    pure true
  after_snapshot name op v Kind.delete = do
    save o name (some (record op { step = Step.teardown }))
    pure true
  after_snapshot name op v kind = pure true

  unfoldable pub finish_snapshot : Text → Op → Option Values → JobInfo → M Bool
  unfolding save_on after_snapshot
  finish_snapshot name op v job = do
    save_on name op
    if failed_job job
        then (do set_message (snapshot_failed op.kind job); save o name none; pure false)
        else (do
          except os_or_mcdash (call o (Event.prune_snapshots name o.config.snapshot_keep)) (pure tt)
          after_snapshot name op v op.kind)

  unfoldable pub snapshot_step : Text → Op → Option Values → M Bool
  unfolding job_status finish_snapshot
  snapshot_step name op v = do
    found ← job_status name op
    maybe found (pure false) (λ job. finish_snapshot name op v job)

  unfoldable pub drain_step : Text → Op → M Bool
  unfolding live
  drain_step name op = do
    pods ← list_pods o name
    if is_nil (live pods)
        then (do
          backup ← require op.backup
          job ← seed_job o name backup
          save o name (some (record op { step = Step.seed; job = some job.name }))
          call o (Event.create_job job)
          pure true)
        else pure false

  -- The seed step, when the Job has succeeded: the spec takes over what the op says.
  unfoldable pub adopt_seed : Op → Text → M (Unit {0})
  adopt_seed op backup = modify λ s. record s {
    spec = record s.spec {
      source_backup = backup;
      forge_version = elim op.forge_version [ none ↦ s.spec.forge_version | some b ↦ b ];
      message = [];
    };
  }

  unfoldable pub finish_seed : Text → Op → JobInfo → M Bool
  unfolding fail adopt_seed install
  finish_seed name op job =
      if failed_job job
      then (do fail name op (codes "seed job failed (" ++ job.message ++ codes ")"); pure false)
      else (do
        backup ← require op.backup
        adopt_seed op backup
        install o name 1
        save o name none
        pure true)

  unfoldable pub seed_step : Text → Op → M Bool
  unfolding job_status finish_seed
  seed_step name op = do
    found ← job_status name op
    maybe found (pure false) (λ job. finish_seed name op job)

  unfoldable pub install_step : Text → M Bool
  unfolding create_volume_and_secret install
  install_step name = do
    create_volume_and_secret o name
    install o name 1
    save o name none
    pure true

  unfoldable pub teardown_step : Text → M Bool
  teardown_step name = do
    call o (Event.uninstall name)
    forget name
    jobs ← ask o (Query.jobs name) (λ h. o.jobs h name)
    for_each jobs (λ j. call o (Event.delete_job j.name))
    call o (Event.delete_pvc (pvc_name name))
    call o (Event.delete_secret (rcon_secret_name name))
    tell o (Event.evicted name)
    call o (Event.delete_configmap name)
    pure false

  unfoldable pub take_step : Text → Op → Option Values → Step → M Bool
  unfolding snapshot_step drain_step seed_step install_step teardown_step
  take_step name op v Step.snapshot = snapshot_step name op v
  take_step name op v Step.drain = drain_step name op
  take_step name op v Step.seed = seed_step name op
  take_step name op v Step.install = install_step name
  take_step name op v Step.teardown = teardown_step name
  take_step name op v Step.unknown = pure false

  -- `_advance`: whether there was progress
  unfoldable pub advance : Text → Op → Option Values → M Bool
  unfolding take_step fail
  advance name op v =
      rescue (take_step name op v op.step)
        λ e. if is_mcdash e.kind then (do fail name op e.text; pure false) else raise e

  abbrev pub is_not_found : ErrorClass → Bool
  is_not_found not_found = true
  is_not_found _ = false

  -- `_load` of the loop; `none` is its early return.
  unfoldable pub try_load : Text → M (Option (Option Op × Option Values))
  unfolding load
  try_load name = except is_not_found (do x ← load o name; pure (some x)) (pure none)

  -- One round of the loop of `reconcile_world`: whether it goes on.
  unfoldable pub round : Text → M Bool
  unfolding try_load advance
  round name = do
    loaded ← try_load name
    maybe loaded (pure false) λ (op, v).
        maybe op (pure false) λ op'. if has_failed op' then pure false else advance name op' v

  unfoldable pub rounds : ℕ → Text → M (Unit {0})
  unfolding round
  rounds zero name = pure tt
  rounds (suc n) name = do more ← round name; if more then rounds n name else pure tt

  unfoldable pub reconcile_world : Text → M (Unit {0})
  unfolding rounds
  reconcile_world name = rounds 5 name

  unfoldable pub delete : Text → Text → M (Unit {0})
  unfolding request_delete reconcile_world
  delete name actor = do request_delete o name actor; reconcile_world name
