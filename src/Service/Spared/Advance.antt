-- ===== src/Service/Spared/Advance.antt =====
-- src/mcdash/service.py: only the teardown step of the reconciler deletes.
use k3s_minecraft.Prelude.{Text, false, Option, text_eq, ◌≡◌, ◌≢◌, refl}
use k3s_minecraft.Models.{JobInfo, is_mcdash}
use k3s_minecraft.Service.Exec.{State, Op, Kind, Step, Values, Outside, History}
use k3s_minecraft.Service.Exec.Keeps.{
  Keeps-modify, Keeps-bind, Keeps-if, Keeps-raise, Keeps-rescue, Keeps-pure, keeps_rules,
}
use k3s_minecraft.Service.Reconcile.{
  lost_snapshot, lost_seed, lost_job, job_status, save_on, fail, after_snapshot, finish_snapshot,
  snapshot_step, drain_step, adopt_seed, finish_seed, seed_step, install_step, take_step, advance,
}
use k3s_minecraft.Service.Spared.{destroyed}
use k3s_minecraft.Service.Spared.Parts.{Sparing, spare_rules}

module _ (o : Outside) (l : History) (name : Text) where
  lost_snapshot-Spares : (op : Op) (job : Text) → Sparing o l (lost_snapshot o name op job)
  unfolding lost_snapshot
  lost_snapshot-Spares op job = search spare_rules depth 12

  lost_seed-Spares : (op : Op) (job : Text) → Sparing o l (lost_seed o name op job)
  unfolding lost_seed
  lost_seed-Spares op job = search spare_rules depth 12

  lost_job-Spares : (op : Op) (step : Step) (job : Text) → Sparing o l (lost_job o name op step job)
  unfolding lost_job
  lost_job-Spares op Step.snapshot job = lost_snapshot-Spares op job
  lost_job-Spares op _ job = lost_seed-Spares op job

  job_status-Spares : (op : Op) → Sparing o l (job_status o name op)
  unfolding job_status
  job_status-Spares op = search (spare_rules, lost_job-Spares) depth 12

  save_on-Spares : (op : Op) → Sparing o l (save_on o name op)
  unfolding save_on
  save_on-Spares op = search spare_rules depth 12

  fail-Spares : (op : Op) (msg : Text) → Sparing o l (fail o name op msg)
  unfolding fail
  fail-Spares op msg = search spare_rules

  after_snapshot-Spares :
      (op : Op) (v : Option Values) (kind : Kind) → Sparing o l (after_snapshot o name op v kind)
  unfolding after_snapshot
  after_snapshot-Spares op v Kind.snapshot = search spare_rules depth 12
  after_snapshot-Spares op v Kind.launch = search spare_rules depth 12
  after_snapshot-Spares op v _ = search spare_rules depth 12

  finish_snapshot-Spares :
      (op : Op) (v : Option Values) (job : JobInfo) → Sparing o l (finish_snapshot o name op v job)
  unfolding finish_snapshot
  finish_snapshot-Spares op v job =
      search (spare_rules, save_on-Spares, after_snapshot-Spares) depth 14

  snapshot_step-Spares : (op : Op) (v : Option Values) → Sparing o l (snapshot_step o name op v)
  unfolding snapshot_step
  snapshot_step-Spares op v =
      search (keeps_rules, job_status-Spares, finish_snapshot-Spares) depth 8

  drain_step-Spares : (op : Op) → Sparing o l (drain_step o name op)
  unfolding drain_step
  drain_step-Spares op = search spare_rules depth 14

  adopt_seed-Spares : (op : Op) (backup : Text) → Sparing o l (adopt_seed o op backup)
  unfolding adopt_seed
  adopt_seed-Spares op backup = Keeps-modify _ (λ s h. h)

  finish_seed-Spares : (op : Op) (job : JobInfo) → Sparing o l (finish_seed o name op job)
  unfolding finish_seed
  finish_seed-Spares op job = search (spare_rules, adopt_seed-Spares) depth 14

  seed_step-Spares : (op : Op) → Sparing o l (seed_step o name op)
  unfolding seed_step
  seed_step-Spares op = search (keeps_rules, job_status-Spares, finish_seed-Spares) depth 8

  install_step-Spares : Sparing o l (install_step o name)
  unfolding install_step
  install_step-Spares = search spare_rules depth 12

  take_step-Spares :
      (op : Op) (v : Option Values) (step : Step)
      → step ≢ Step.teardown
      → Sparing o l (take_step o name op v step)
  unfolding take_step
  take_step-Spares op v Step.snapshot h = snapshot_step-Spares op v
  take_step-Spares op v Step.drain h = drain_step-Spares op
  take_step-Spares op v Step.seed h = seed_step-Spares op
  take_step-Spares op v Step.install h = install_step-Spares
  take_step-Spares op v Step.teardown h = absurd (h refl)
  take_step-Spares op v Step.unknown h = search keeps_rules

  advance-Spares :
      (op : Op) (v : Option Values) → op.step ≢ Step.teardown → Sparing o l (advance o name op v)
  unfolding advance
  advance-Spares op v h =
      Keeps-rescue (take_step o name op v op.step) _ (take_step-Spares op v op.step h) λ e.
        Keeps-if (is_mcdash e.kind) _ _
          (Keeps-bind (fail o name op e.text) _ (fail-Spares op e.text) (λ _. Keeps-pure false))
          (Keeps-raise e)

-- A step of the reconciler other than the teardown uninstalls no release and deletes no object of
-- the cluster, whatever is answered from outside and whatever raises.
pub advance-destroys_nothing :
    (o : Outside) (name : Text) (op : Op) (v : Option Values) (s : State)
    → op.step ≢ Step.teardown
    → destroyed (advance o name op v s).1.history ≡ destroyed s.history
advance-destroys_nothing o name op v s h =
    (advance-Spares o (destroyed s.history) name op v h).at s refl
