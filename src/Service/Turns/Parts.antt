-- ===== src/Service/Turns/Parts.antt =====
-- src/mcdash/service.py: the parts of the steps keep how the pending operation of a world stands.
use k3s_minecraft.Prelude.{
  Text, ℕ, false, Option, none, some, [], ◌∷◌, Dict, get, remove, text_eq, ◌≡◌, refl, sym, arith,
  subst,
}
use k3s_minecraft.Service.Exec.{
  State, Op, Entry, Values, Event, put_configmap, Outside, M, gets, modify, ◌>>=◌, ◌>>◌, continue,
  apply_event-eq_self, writes_record,
}
use k3s_minecraft.Service.Exec.Keeps.{
  Keeps, Survives, keeps_rules, Keeps-call, Keeps-modify, Keeps-bind,
}
use k3s_minecraft.Service.Exec.Meets.{Meets-of_Keeps, Keeps-of_Meets, Meets-bind}
use k3s_minecraft.Service.Ports.{allocate_rcon_port}
use k3s_minecraft.Service.Records.{
  records, save, op_of, assign_rcon_port, ensure_rcon_port, check_memory, check_size, install,
  forget,
}
use k3s_minecraft.Service.Records.Laws.{healed, put-Stored, records-Here}
use k3s_minecraft.Service.Jobs.{
  set_message, k8s_stamp, require, list_pods, seed_job, create_snapshot_job,
}
use k3s_minecraft.Service.Operations.{create_volume_and_secret}
use k3s_minecraft.Service.Turns.{Turn, Turned}

pub healed-op : (v : Values) (e : Entry) → e.op ≡ (healed v (some e)).op
unfolding healed
healed-op v e = ground arith

Turned-healed :
    (op : Op) (v : Values) (x : Option Entry) → Turned op x → Turned op (some (healed v x))
Turned-healed op v none h = absurd h
Turned-healed op v (some e) h = subst (Turn op) (healed-op v e) h

module _ (o : Outside) (w : Text) (op : Op) where
  abbrev pub Turns : State → Type 0
  Turns s = Turned op (get s.records w)

  abbrev pub Turning : {A : Type 0} → M A → Type 0
  Turning m = Keeps Turns m

  pub Turns-quiet : (e : Event) → writes_record e ≡ false → Survives Turns e
  Turns-quiet e q = record {
    raised = λ s h. h;
    done = λ s h. subst (λ d. Turned op (get d w)) (sym (apply_event-eq_self e s.records q)) h;
  }

  pub save-Turns : (x : Option Op) → Turn op x → Turning (save o w x)
  unfolding save ◌>>=◌ gets continue
  save-Turns x t = record {
    at = λ s h.
        (Keeps-call o (put_configmap w (record { spec = s.spec; op = x })) (
            put-Stored o w (Turned op) (Turned-healed op) w (record { spec = s.spec; op = x })
              (λ _. t))).at
          s h;
  }

  pub ruleset turn_rules = (keeps_rules, Turns-quiet, refl)

  allocate_rcon_port-Turns : (d : Dict Text Entry) → Turning (allocate_rcon_port o.config d)
  unfolding allocate_rcon_port
  allocate_rcon_port-Turns d = search keeps_rules

  -- The op that was read is stored again.
  save_read-Turns : (x : Option Entry) → Turned op x → Turning (save o w (op_of o x))
  save_read-Turns none h = absurd h
  save_read-Turns (some e) h = save-Turns e.op h

  assign_rcon_port-Turns : Turning (assign_rcon_port o w)
  unfolding assign_rcon_port
  assign_rcon_port-Turns =
      Keeps-of_Meets {Q = λ _. Turns}
        (Meets-bind (records o) _ (records-Here o w (Turned op) (Turned-healed op)) (λ x. record {
          at = λ s h.
              (Meets-of_Keeps {Q = λ _. Turns} (tail (remove x.0 w) x.0 h.1) (λ _ t k. k)
                  (λ t k. k)).at
                s h.0;
        }))
        (λ _ s h. h) (λ s h. h)
    where
      tail :
          (others d : Dict Text Entry)
          → Turned op (get d w)
          → Turning (do
            p ← allocate_rcon_port o.config others
            modify (λ s. record s { spec = record s.spec { rcon_port = p } })
            save o w (op_of o (get d w)))
      tail others d t =
          Keeps-bind (allocate_rcon_port o.config others) _ (allocate_rcon_port-Turns others) λ p.
            Keeps-bind (modify _) _ (Keeps-modify _ (λ s h. h)) (λ _. save_read-Turns (get d w) t)

  ensure_rcon_port-Turns : Turning (ensure_rcon_port o w)
  unfolding ensure_rcon_port
  ensure_rcon_port-Turns = search (keeps_rules, assign_rcon_port-Turns) depth 8

  check_memory-Turns : (t : Text) → Turning (check_memory o t)
  unfolding check_memory check_size
  check_memory-Turns [] = search keeps_rules
  check_memory-Turns (c ∷ t) = search keeps_rules

  forget-Turns : (k : Text) → Turning (forget k)
  forget-Turns k = Keeps-modify _ (λ s h. h)

  pub install-Turns : (n : ℕ) → Turning (install o w n)
  unfolding install
  install-Turns n =
      search (turn_rules, ensure_rcon_port-Turns, check_memory-Turns, forget-Turns) depth 14

  pub set_message-Turns : (t : Text) → Turning (set_message t)
  set_message-Turns t = Keeps-modify _ (λ s h. h)

  pub require-Turns : (x : Option Text) → Turning (require x)
  unfolding require
  require-Turns x = search keeps_rules

  pub list_pods-Turns : Turning (list_pods o w)
  unfolding list_pods
  list_pods-Turns = search turn_rules depth 8

  pub seed_job-Turns : (backup : Text) → Turning (seed_job o w backup)
  unfolding seed_job k8s_stamp
  seed_job-Turns backup = search keeps_rules depth 8

  pub create_snapshot_job-Turns : (x : Op) → Turning (create_snapshot_job o w x)
  unfolding create_snapshot_job
  create_snapshot_job-Turns x = search (turn_rules, require-Turns) depth 10

  pub create_volume_and_secret-Turns : Turning (create_volume_and_secret o w)
  unfolding create_volume_and_secret
  create_volume_and_secret-Turns = search turn_rules depth 10

  pub ruleset step_rules = (
    turn_rules, save-Turns, install-Turns, set_message-Turns, require-Turns, list_pods-Turns,
    seed_job-Turns, create_snapshot_job-Turns, create_volume_and_secret-Turns,
  )
