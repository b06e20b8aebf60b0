-- ===== src/Service/Kept/Deletion.antt =====
-- src/mcdash/service.py: the deletion of a world keeps the ports of every other world.
use k3s_minecraft.Prelude.{
  Text, ℕ, zero, suc, false, Option, get-remove, text_eq, ◌==◌, ◌≡◌, ◌≢◌, sym, Bool-cases, inl, inr,
}
use k3s_minecraft.Models.{is_mcdash}
use k3s_minecraft.Service.Exec.{Op, Step, Values, Event, Outside, M, apply_event}
use k3s_minecraft.Service.Exec.Keeps.{
  Keeps, Survives, keeps_rules, Keeps-bind, Keeps-if, Keeps-raise, Keeps-rescue, Keeps-pure,
}
use k3s_minecraft.Service.Exec.Meets.{Keeps-of_Meets}
use k3s_minecraft.Service.Records.{load}
use k3s_minecraft.Service.Records.Laws.{load-Loaded}
use k3s_minecraft.Service.Kept.{HasPorts, Ports, Owns, Held, heals, job_rules}
use k3s_minecraft.Service.Kept.Advance.{
  fail-Held, snapshot_step-Held, drain_step-Held, seed_step-Held, install_step-Held,
}
use k3s_minecraft.Service.Reconcile.{
  teardown_step, take_step, advance, fail, try_load, round, rounds, reconcile_world,
}

module _ (o : Outside) (w : Text) (p r : ℕ) (hp : p ≢ 0) (hr : r ≢ 0) (name : Text)
    (apart : name ≢ w) where
  abbrev Keeping : {A : Type 0} → M A → Type 0
  Keeping m = Keeps (Held o w p r hp hr name) m

  delete_configmap-Held : Survives (Held o w p r hp hr name) (Event.delete_configmap name)
  unfolding apply_event
  delete_configmap-Held = record {
    raised = λ s h. h;
    done = λ s h. (rw (get-remove s.records name w, other) h.0, λ i. absurd (apart i));
  }
    where
      other : (w == name) ≡ false
      other = elim (Bool-cases (w == name)) [
        | inr e ↦ e
        | inl same ↦ absurd (apart (sym ((text_eq.same_iff w name).0 same)))
      ]

  teardown_step-Held : Keeping (teardown_step o name)
  unfolding teardown_step
  teardown_step-Held = search (job_rules, delete_configmap-Held) depth 14

  step-Held : (op : Op) (v : Option Values) (step : Step) → Keeping (take_step o name op v step)
  unfolding take_step
  step-Held op v Step.snapshot = snapshot_step-Held o w p r hp hr name op v
  step-Held op v Step.drain = drain_step-Held o w p r hp hr name op
  step-Held op v Step.seed = seed_step-Held o w p r hp hr name op
  step-Held op v Step.install = install_step-Held o w p r hp hr name
  step-Held op v Step.teardown = teardown_step-Held
  step-Held op v Step.unknown = search keeps_rules

  any_advance-Held : (op : Op) (v : Option Values) → Keeping (advance o name op v)
  unfolding advance
  any_advance-Held op v =
      Keeps-rescue (take_step o name op v op.step) _ (step-Held op v op.step) λ e.
        Keeps-if (is_mcdash e.kind) _ _
          (Keeps-bind (fail o name op e.text) _ (fail-Held o w p r hp hr name op e.text)
            (λ _. Keeps-pure false))
          (Keeps-raise e)

  load-Held : Keeping (load o name)
  load-Held = record { at = λ s h. (loaded.at s h.0, λ i. absurd (apart i)) }
    where
      loaded : Keeps (Ports o w p r hp hr) (load o name)
      loaded =
          Keeps-of_Meets
            (load-Loaded o w (HasPorts p r) (heals o w p r hp hr) (Owns o w p r hp hr) name
              (λ e h. h))
            (λ _ s h. h.0) (λ s h. h)

  round-Held : Keeping (round o name)
  unfolding round try_load
  round-Held = search (keeps_rules, load-Held, any_advance-Held) depth 14

  rounds-Held : (n : ℕ) → Keeping (rounds o n name)
  unfolding rounds
  rounds-Held zero = Keeps-pure tt
  rounds-Held (suc n) =
      Keeps-bind (round o name) _ round-Held
        (λ more. Keeps-if more _ _ (rounds-Held n) (Keeps-pure tt))

  -- The rounds of the reconciler on a world, its teardown too, leave the ports of another.
  pub reconcile_world-Ports : Keeps (Ports o w p r hp hr) (reconcile_world o name)
  unfolding reconcile_world
  reconcile_world-Ports = record { at = λ s h. ((rounds-Held 5).at s (h, λ i. absurd (apart i))).0 }
