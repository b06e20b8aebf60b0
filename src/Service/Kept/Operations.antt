-- ===== src/Service/Kept/Operations.antt =====
-- src/mcdash/service.py: the requests to a world that is there keep the ports of every world.
use k3s_minecraft.Prelude.{
  Bool, Text, codes, ℕ, false, ◌||◌, Option, some, List, [], ◌∷◌, get, text_eq, if◌then◌else◌, ◌≡◌,
  ◌≢◌, sym, subst,
}
use k3s_minecraft.Models.{WorldSettings}
use k3s_minecraft.Service.Exec.{
  Op, Kind, Step, Values, Event, Outside, M, ◌>>=◌, ◌>>◌, call, writes_record, apply_event-eq_self,
}
use k3s_minecraft.Service.Exec.Keeps.{Keeps, Survives, keeps_rules, Keeps-bind}
use k3s_minecraft.Service.Exec.Meets.{Meets, Meets-of_Keeps, Keeps-of_Meets, Meets-bind}
use k3s_minecraft.Service.Records.{save, load}
use k3s_minecraft.Service.Records.Laws.{load-Loaded}
use k3s_minecraft.Service.Jobs.{begin_snapshot}
use k3s_minecraft.Service.Operations.{
  busy, start, stop, snapshot, restore, request_delete, update_settings, has_step, plain_op,
}
use k3s_minecraft.Service.Settings.{check_settings}
use k3s_minecraft.Service.Whitelist.{set_whitelist, apply_lists, send_cmds}
use k3s_minecraft.Service.Whitelist.Checks.{check_ops_change-Keeps, refuse_starting-Keeps}
use k3s_minecraft.Service.Reconcile.{delete}
use k3s_minecraft.Service.Kept.Deletion.{reconcile_world-Ports}
use k3s_minecraft.Service.Settings.Keeps.{check_settings-Keeps}
use k3s_minecraft.Service.Kept.{
  HasPorts, Ports, Owns, Held, heals, job_rules, begin_snapshot-Held, busy-Held, retry_seed-Held,
  start_server-Held, stop_server-Held,
}

module _ (o : Outside) (w : Text) (p r : ℕ) (hp : p ≢ 0) (hr : r ≢ 0) (name : Text) where
  -- What follows `_load` may use that the spec loaded has the ports, if it is that of `w`.
  after_load :
      {B : Type 0} (f : Option Op × Option Values → M B)
      → ((x : Option Op × Option Values) → Keeps (Held o w p r hp hr name) (f x))
      → Keeps (Ports o w p r hp hr) (load o name >>= f)
  after_load f k =
      Keeps-of_Meets {Q = λ _. Ports o w p r hp hr}
        (Meets-bind {Q = λ _. Held o w p r hp hr name} (load o name) f loaded
          (λ x. Meets-of_Keeps (k x) (λ _ s h. h.0) (λ s h. h.0)))
        (λ _ s h. h) (λ s h. h)
    where
      loaded :
          Meets
            (Ports o w p r hp hr)
            (load o name)
            (λ _. Held o w p r hp hr name)
            (Ports o w p r hp hr)
      loaded =
          load-Loaded o w (HasPorts p r) (heals o w p r hp hr) (Owns o w p r hp hr) name (λ e h. h)

  pub ruleset operation_rules = (
    job_rules, begin_snapshot-Held, busy-Held, retry_seed-Held, start_server-Held, stop_server-Held,
  )

  pub start-Ports : (actor : Text) → Keeps (Ports o w p r hp hr) (start o name actor)
  unfolding start
  start-Ports actor = after_load _ λ x. search operation_rules depth 14

  pub stop-Ports : (actor : Text) → Keeps (Ports o w p r hp hr) (stop o name actor)
  unfolding stop
  stop-Ports actor = after_load _ λ x. search operation_rules depth 14

  pub snapshot-Ports : (actor : Text) → Keeps (Ports o w p r hp hr) (snapshot o name actor)
  unfolding snapshot
  snapshot-Ports actor = after_load _ λ x. search operation_rules depth 14

  pub Ports-quiet : (e : Event) → writes_record e ≡ false → Survives (Ports o w p r hp hr) e
  Ports-quiet e q = record {
    raised = λ s h. h;
    done = λ s h. subst (λ d. HasPorts p r (get d w)) (sym (apply_event-eq_self e s.records q)) h;
  }

  pub restore-Ports :
      (backup actor : Text) → Keeps (Ports o w p r hp hr) (restore o name backup actor)
  unfolding restore
  restore-Ports backup actor = search (keeps_rules, Ports-quiet, loaded_part) depth 12
    where
      loaded_part :
          (build : Text)
          → Keeps (Ports o w p r hp hr) (do
            (op, v) ← load o name
            busy name op
            if has_step Step.seed op || has_step Step.install op
                then save o name (
                    some (record (plain_op Kind.restore Step.drain) {
                      backup = some backup;
                      forge_version = some build;
                    }))
                else begin_snapshot o name v Kind.restore (some backup) (some build)
            call o (Event.audit actor (codes "restore") name))
      loaded_part build = after_load _ λ x. search operation_rules depth 14

  request_delete-Ports : (actor : Text) → Keeps (Ports o w p r hp hr) (request_delete o name actor)
  unfolding request_delete
  request_delete-Ports actor = after_load _ λ x. search operation_rules depth 14

  pub update_settings-Ports :
      (settings : WorldSettings) (actor : Text)
      → Keeps (Ports o w p r hp hr) (update_settings o name settings actor)
  unfolding update_settings
  update_settings-Ports settings actor =
      Keeps-bind (check_settings o.config settings) _ (check_settings-Keeps o.config settings)
        λ _. after_load _ λ x. search operation_rules depth 14

  -- A deletion of another world, the rounds of the reconciler too.
  pub delete-Ports : (actor : Text) → name ≢ w → Keeps (Ports o w p r hp hr) (delete o name actor)
  unfolding delete
  delete-Ports actor apart =
      Keeps-bind (request_delete o name actor) _ (request_delete-Ports actor)
        (λ _. reconcile_world-Ports o w p r hp hr name apart)

  send_cmds-Held : (cmds : List Text) → Keeps (Held o w p r hp hr name) (send_cmds o name cmds)
  unfolding send_cmds
  send_cmds-Held [] = search operation_rules
  send_cmds-Held (c ∷ cs) = search operation_rules

  apply_lists-Held :
      (op : Option Op) (v : Option Values) (actor : Text) (settings : WorldSettings)
      (players : List Text) (open_to_all : Bool) (requested new_ops : List Text)
      → Keeps
          (Held o w p r hp hr name)
          (apply_lists o name op v actor settings players open_to_all requested new_ops)
  unfolding apply_lists
  apply_lists-Held op v actor settings players open_to_all requested new_ops =
      search
        (
          operation_rules, check_settings-Keeps, check_ops_change-Keeps, send_cmds-Held,
          refuse_starting-Keeps,
        )
        depth 16

  pub set_whitelist-Ports :
      (given : List Text) (actor : Text) (open_to_all : Bool) (ops : Option (List Text))
      → Keeps (Ports o w p r hp hr) (set_whitelist o name given actor open_to_all ops)
  unfolding set_whitelist
  set_whitelist-Ports given actor open_to_all ops =
      after_load _ λ x. search (operation_rules, apply_lists-Held) depth 12
