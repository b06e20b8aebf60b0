-- ===== src/Service/Kept/Advance.antt =====
-- src/mcdash/service.py: the steps of the reconciler but the teardown keep the ports of every world.
use k3s_minecraft.Prelude.{Text, ℕ, false, Option, text_eq, ◌≢◌, refl}
use k3s_minecraft.Models.{JobInfo, is_mcdash}
use k3s_minecraft.Service.Exec.{State, Op, Kind, Step, Values, Outside, M}
use k3s_minecraft.Service.Exec.Keeps.{
  Keeps, Keeps-modify, keeps_rules, Keeps-bind, Keeps-if, Keeps-raise, Keeps-rescue, Keeps-pure,
}
use k3s_minecraft.Service.Kept.{Held, job_rules, create_volume_and_secret-Held}
use k3s_minecraft.Service.Reconcile.{
  lost_snapshot, lost_seed, lost_job, job_status, save_on, fail, after_snapshot, finish_snapshot,
  snapshot_step, drain_step, adopt_seed, finish_seed, seed_step, install_step, take_step, advance,
}

module _ (o : Outside) (w : Text) (p r : ℕ) (hp : p ≢ 0) (hr : r ≢ 0) (name : Text) where
  abbrev Keeping : {A : Type 0} → M A → Type 0
  Keeping m = Keeps (Held o w p r hp hr name) m

  lost_snapshot-Held : (op : Op) (job : Text) → Keeping (lost_snapshot o name op job)
  unfolding lost_snapshot
  lost_snapshot-Held op job = search job_rules depth 12

  lost_seed-Held : (op : Op) (job : Text) → Keeping (lost_seed o name op job)
  unfolding lost_seed
  lost_seed-Held op job = search job_rules depth 12

  lost_job-Held : (op : Op) (step : Step) (job : Text) → Keeping (lost_job o name op step job)
  unfolding lost_job
  lost_job-Held op Step.snapshot job = lost_snapshot-Held op job
  lost_job-Held op _ job = lost_seed-Held op job

  job_status-Held : (op : Op) → Keeping (job_status o name op)
  unfolding job_status
  job_status-Held op = search (job_rules, lost_job-Held) depth 12

  save_on-Held : (op : Op) → Keeping (save_on o name op)
  unfolding save_on
  save_on-Held op = search job_rules depth 12

  pub fail-Held : (op : Op) (msg : Text) → Keeping (fail o name op msg)
  unfolding fail
  fail-Held op msg = search job_rules

  after_snapshot-Held :
      (op : Op) (v : Option Values) (kind : Kind) → Keeping (after_snapshot o name op v kind)
  unfolding after_snapshot
  after_snapshot-Held op v Kind.snapshot = search job_rules depth 12
  after_snapshot-Held op v Kind.launch = search job_rules depth 12
  after_snapshot-Held op v _ = search job_rules depth 12

  finish_snapshot-Held :
      (op : Op) (v : Option Values) (job : JobInfo) → Keeping (finish_snapshot o name op v job)
  unfolding finish_snapshot
  finish_snapshot-Held op v job = search (job_rules, save_on-Held, after_snapshot-Held) depth 14

  pub snapshot_step-Held : (op : Op) (v : Option Values) → Keeping (snapshot_step o name op v)
  unfolding snapshot_step
  snapshot_step-Held op v = search (job_rules, job_status-Held, finish_snapshot-Held) depth 8

  pub drain_step-Held : (op : Op) → Keeping (drain_step o name op)
  unfolding drain_step
  drain_step-Held op = search job_rules depth 14

  adopt_seed-Held : (op : Op) (backup : Text) → Keeping (adopt_seed o op backup)
  unfolding adopt_seed
  adopt_seed-Held op backup = Keeps-modify _ (λ s h. h)

  finish_seed-Held : (op : Op) (job : JobInfo) → Keeping (finish_seed o name op job)
  unfolding finish_seed
  finish_seed-Held op job = search (job_rules, fail-Held, adopt_seed-Held) depth 14

  pub seed_step-Held : (op : Op) → Keeping (seed_step o name op)
  unfolding seed_step
  seed_step-Held op = search (job_rules, job_status-Held, finish_seed-Held) depth 8

  pub install_step-Held : Keeping (install_step o name)
  unfolding install_step
  install_step-Held = search (job_rules, create_volume_and_secret-Held) depth 10

  take_step-Held :
      (op : Op) (v : Option Values) (step : Step)
      → step ≢ Step.teardown
      → Keeping (take_step o name op v step)
  unfolding take_step
  take_step-Held op v Step.snapshot h = snapshot_step-Held op v
  take_step-Held op v Step.drain h = drain_step-Held op
  take_step-Held op v Step.seed h = seed_step-Held op
  take_step-Held op v Step.install h = install_step-Held
  take_step-Held op v Step.teardown h = absurd (h refl)
  take_step-Held op v Step.unknown h = search keeps_rules

  advance-Held :
      (op : Op) (v : Option Values) → op.step ≢ Step.teardown → Keeping (advance o name op v)
  unfolding advance
  advance-Held op v h =
      Keeps-rescue (take_step o name op v op.step) _ (take_step-Held op v op.step h) λ e.
        Keeps-if (is_mcdash e.kind) _ _
          (Keeps-bind (fail o name op e.text) _ (fail-Held op e.text) (λ _. Keeps-pure false))
          (Keeps-raise e)

-- A step of the reconciler other than the teardown changes neither port of the record of any
-- world `w` that has both, whatever the answers from outside; if the step is for `w` itself, the
-- spec it was given must be that of the record.
pub advance-keeps_ports :
    (o : Outside) (w : Text) (p r : ℕ) (hp : p ≢ 0) (hr : r ≢ 0) (name : Text) (op : Op)
    (v : Option Values) (s : State)
    → op.step ≢ Step.teardown
    → Held o w p r hp hr name s
    → Held o w p r hp hr name (advance o name op v s).1
advance-keeps_ports o w p r hp hr name op v s h held =
    (advance-Held o w p r hp hr name op v h).at s held
