-- ===== src/Service/Turns/Steps.antt =====
-- src/mcdash/service.py: every step but the teardown leaves the record with a turn of its operation.
use k3s_minecraft.Prelude.{Text, false, Option, none, some, get, text_eq, ◌≡◌, ◌≢◌, refl}
use k3s_minecraft.Models.{JobInfo, is_mcdash}
use k3s_minecraft.Service.Exec.{
  State, Op, Kind, Step, Values, Event, Outside, pure, except, call, ◌>>◌,
}
use k3s_minecraft.Service.Exec.Keeps.{
  Keeps-modify, Keeps-bind, Keeps-if, Keeps-raise, Keeps-rescue, Keeps-pure, keeps_rules,
}
use k3s_minecraft.Service.Reconcile.{
  lost_snapshot, lost_seed, lost_job, job_status, save_on, fail, after_snapshot, finish_snapshot,
  snapshot_step, drain_step, adopt_seed, finish_seed, seed_step, install_step, take_step, advance,
  failed_job, os_or_mcdash,
}
use k3s_minecraft.Service.Turns.{Turn, fails, ends, drains, tears_down, seeds, Turned}
use k3s_minecraft.Service.Turns.Parts.{Turning, step_rules, save-Turns}

module _ (o : Outside) (name : Text) (op : Op) where
  lost_snapshot-Turns : (job : Text) → Turning o name op (lost_snapshot o name op job)
  unfolding lost_snapshot
  lost_snapshot-Turns job = search step_rules depth 12

  lost_seed-Turns : (job : Text) → Turning o name op (lost_seed o name op job)
  unfolding lost_seed
  lost_seed-Turns job = search step_rules depth 12

  lost_job-Turns : (step : Step) (job : Text) → Turning o name op (lost_job o name op step job)
  unfolding lost_job
  lost_job-Turns Step.snapshot job = lost_snapshot-Turns job
  lost_job-Turns _ job = lost_seed-Turns job

  job_status-Turns : Turning o name op (job_status o name op)
  unfolding job_status
  job_status-Turns = search (step_rules, lost_job-Turns) depth 12

  save_on-Turns : Turning o name op (save_on o name op)
  unfolding save_on
  save_on-Turns = search step_rules depth 12

  fail-Turns : (msg : Text) → Turning o name op (fail o name op msg)
  unfolding fail
  fail-Turns msg = save-Turns o name op _ (fails msg)

  ends_here : {s : Step} → op.step ≡ s → s ≢ Step.drain → Turn op none
  ends_here at ne = ends (λ e. ne (cc (at, e)))

  module _ (at : op.step ≡ Step.snapshot) where
    over : Turn op none
    over = ends (λ e. cc (at, e))

    after_snapshot-Turns :
        (v : Option Values) (kind : Kind)
        → op.kind ≡ kind
        → Turning o name op (after_snapshot o name op v kind)
    unfolding after_snapshot
    after_snapshot-Turns v Kind.snapshot k = search (step_rules, over) depth 12
    after_snapshot-Turns v Kind.stop k = search (step_rules, over) depth 12
    after_snapshot-Turns v Kind.restore k = search (step_rules, drains at k) depth 12
    after_snapshot-Turns v Kind.delete k = search (step_rules, tears_down at k) depth 12
    after_snapshot-Turns v Kind.launch k = search keeps_rules
    after_snapshot-Turns v Kind.create k = search keeps_rules

    finish_snapshot-Turns :
        (v : Option Values) (job : JobInfo) → Turning o name op (finish_snapshot o name op v job)
    unfolding finish_snapshot
    finish_snapshot-Turns v job =
        Keeps-bind (save_on o name op) _ save_on-Turns
          λ _. Keeps-if (failed_job job) _ _ (search (step_rules, over) depth 10) pruned
      where
        pruned : Turning o name op (do
          except os_or_mcdash (call o (Event.prune_snapshots name o.config.snapshot_keep)) (pure tt)
          after_snapshot o name op v op.kind)
        pruned =
            Keeps-bind (except _ _ _) _ (search step_rules depth 8)
              (λ _. after_snapshot-Turns v op.kind refl)

    snapshot_step-Turns : (v : Option Values) → Turning o name op (snapshot_step o name op v)
    unfolding snapshot_step
    snapshot_step-Turns v = search (keeps_rules, job_status-Turns, finish_snapshot-Turns) depth 8

  drain_step-Turns : op.step ≡ Step.drain → Turning o name op (drain_step o name op)
  unfolding drain_step
  drain_step-Turns at = search (step_rules, seeded) depth 14
    where
      seeded : (job : Text) → Turn op (some (record op { step = Step.seed; job = some job }))
      seeded job = seeds job at

  adopt_seed-Turns : (backup : Text) → Turning o name op (adopt_seed o op backup)
  unfolding adopt_seed
  adopt_seed-Turns backup = Keeps-modify _ (λ s h. h)

  finish_seed-Turns : (job : JobInfo) → Turn op none → Turning o name op (finish_seed o name op job)
  unfolding finish_seed
  finish_seed-Turns job over = search (step_rules, fail-Turns, adopt_seed-Turns, over) depth 14

  seed_step-Turns : Turn op none → Turning o name op (seed_step o name op)
  unfolding seed_step
  seed_step-Turns over = search (keeps_rules, job_status-Turns, finish_seed-Turns, over) depth 8

  install_step-Turns : Turn op none → Turning o name op (install_step o name)
  unfolding install_step
  install_step-Turns over = search (step_rules, over) depth 12

  take_step-Turns :
      (v : Option Values) (step : Step)
      → op.step ≡ step
      → step ≢ Step.teardown
      → Turning o name op (take_step o name op v step)
  unfolding take_step
  take_step-Turns v Step.snapshot at h = snapshot_step-Turns at v
  take_step-Turns v Step.drain at h = drain_step-Turns at
  take_step-Turns v Step.seed at h = seed_step-Turns (ends_here at (λ e. cc))
  take_step-Turns v Step.install at h = install_step-Turns (ends_here at (λ e. cc))
  take_step-Turns v Step.teardown at h = absurd (h refl)
  take_step-Turns v Step.unknown at h = search keeps_rules

  advance-Turns :
      (v : Option Values) → op.step ≢ Step.teardown → Turning o name op (advance o name op v)
  unfolding advance
  advance-Turns v h =
      Keeps-rescue (take_step o name op v op.step) _ (take_step-Turns v op.step refl h) λ e.
        Keeps-if (is_mcdash e.kind) _ _
          (Keeps-bind (fail o name op e.text) _ (fail-Turns e.text) (λ _. Keeps-pure false))
          (Keeps-raise e)

-- A step of the reconciler other than the teardown, on a world whose record has the operation,
-- leaves its record there with the same operation, with that operation and an error, with none
-- unless the world was draining, or with that of the next step: a snapshot is followed by draining
-- only for a restore and by the teardown only for a deletion, and draining only by the seed step.
pub advance-turns :
    (o : Outside) (name : Text) (op : Op) (v : Option Values) (s : State)
    → op.step ≢ Step.teardown
    → Turned op (get s.records name)
    → Turned op (get (advance o name op v s).1.records name)
advance-turns o name op v s h here = (advance-Turns o name op v h).at s here
