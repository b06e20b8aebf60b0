-- ===== src/Service/Kept.antt =====
-- src/mcdash/service.py: a world keeps its ports for its life.
pub mod Operations
pub mod Requests
pub mod Advance
pub mod Deletion
use k3s_minecraft.Prelude.{
  Text, ℕ, true, false, Option, none, some, List, [], ◌∷◌, get, text_eq, eqb, ◌≡◌, ◌≢◌, refl, sym,
  arith, subst, Bool-cases, inl, inr,
}
use k3s_minecraft.Service.Exec.{
  State, Spec, Op, Kind, Entry, Values, Event, put_configmap, Outside, pure, gets, ◌>>=◌, when,
  apply_event, writes_record, apply_event-eq_self, continue,
}
use k3s_minecraft.Service.Exec.Keeps.{Keeps, Survives, Keeps-call, Keeps-modify, keeps_rules}
use k3s_minecraft.Service.Exec.Meets.{Keeps-of_Meets}
use k3s_minecraft.Service.Ports.{allocate_rcon_port}
use k3s_minecraft.Service.Records.{
  save, records, ensure_rcon_port, assign_rcon_port, install, forget, check_memory, check_size,
}
use k3s_minecraft.Service.Records.Laws.{healed, Here-put, records-Here, put-Stored}
use k3s_minecraft.Service.Jobs.{
  set_message, k8s_stamp, file_stamp, require, list_pods, pods_of, seed_job, create_snapshot_job,
  try_rcon, refuse_shutting_down, begin_snapshot,
}
use k3s_minecraft.Service.Operations.{
  busy, retry_seed, start_server, stop_server, create_volume_and_secret,
}

-- The record has these ports.
abbrev pub HasPorts : ℕ → ℕ → Option Entry → Type 0
HasPorts p r none = ⊥
HasPorts p r (some e) = (e.spec.port ≡ p) × (e.spec.rcon_port ≡ r)

HasPorts-healed :
    (p r : ℕ)
    → p ≢ 0
    → r ≢ 0
    → (v : Values) (x : Option Entry) → HasPorts p r x
    → HasPorts p r (some (healed v x))
unfolding healed
HasPorts-healed p r hp hr v none h = absurd h
HasPorts-healed p r hp hr v (some e) h = ground arith

module _ (o : Outside) (w : Text) (p r : ℕ) (hp : p ≢ 0) (hr : r ≢ 0) where
  abbrev pub Ports : State → Type 0
  Ports s = HasPorts p r (get s.records w)

  abbrev pub Owns : Spec → Option Op → Type 0
  Owns spec op = (spec.port ≡ p) × (spec.rcon_port ≡ r)

  -- Besides, the spec that the running operation holds has the ports, if it is that of `w`.
  abbrev pub Held : Text → State → Type 0
  Held name s = Ports s × (name ≡ w → Owns s.spec none)

  pub heals : (v : Values) (x : Option Entry) → HasPorts p r x → HasPorts p r (some (healed v x))
  heals = HasPorts-healed p r hp hr

  pub Held-quiet : (name : Text) (e : Event) → writes_record e ≡ false → Survives (Held name) e
  Held-quiet name e q = record {
    raised = λ s h. h;
    done = λ s h.
        (subst (λ d. HasPorts p r (get d w)) (sym (apply_event-eq_self e s.records q)) h.0, h.1);
  }

  pub Held-put :
      (name : Text) (e : Entry)
      → (name ≡ w → HasPorts p r (some e))
      → Survives (Held name) (put_configmap name e)
  unfolding apply_event
  Held-put name e new = record {
    raised = λ s h. h;
    done = λ s h. (Here-put o w (HasPorts p r) heals s.records name e (λ i. new (sym i)) h.0, h.1);
  }

  module _ (name : Text) where
    pub save-Held : (op : Option Op) → Keeps (Held name) (save o name op)
    unfolding save ◌>>=◌ gets continue
    save-Held op = record {
      at = λ s h.
          (Keeps-call o (put_configmap name (record { spec = s.spec; op = op }))
              (Held-put name (record { spec = s.spec; op = op }) (λ i. h.1 i))).at
            s h;
    }

    pub ruleset held_rules = (keeps_rules, Held-quiet, save-Held, refl)

    -- A change of the spec that leaves the ports alone.
    pub set_message-Held : (t : Text) → Keeps (Held name) (set_message t)
    set_message-Held t = Keeps-modify _ (λ s h. h)

    pub forget-Held : (k : Text) → Keeps (Held name) (forget k)
    forget-Held k = Keeps-modify _ (λ s h. h)

    -- The other worlds' operations write no record of `w`.
    module _ (apart : name ≢ w) where
      save-apart : (op : Option Op) → Keeps Ports (save o name op)
      unfolding save ◌>>=◌ gets continue
      save-apart op = record {
        at = λ s h.
            (Keeps-call o (put_configmap name (record { spec = s.spec; op = op })) (
                put-Stored o w (HasPorts p r) heals name (record { spec = s.spec; op = op })
                  (λ i. absurd (apart (sym i))))).at
              s h;
      }

      records-Ports : Keeps Ports (records o)
      records-Ports =
          Keeps-of_Meets (records-Here o w (HasPorts p r) heals) (λ _ s h. h.0) (λ s h. h)

      assign_rcon_port-apart : Keeps (Held name) (assign_rcon_port o name)
      assign_rcon_port-apart = record {
        at = λ s h. (assign_rcon_port-Ports.at s h.0, λ i. absurd (apart i));
      }
        where
          assign_rcon_port-Ports : Keeps Ports (assign_rcon_port o name)
          assign_rcon_port-Ports =
              unfold assign_rcon_port allocate_rcon_port in
              search (keeps_rules, records-Ports, save-apart) depth 14

    -- A world whose spec has an RCON port is given none.
    pub ensure_rcon_port-Held : Keeps (Held name) (ensure_rcon_port o name)
    unfolding ensure_rcon_port ◌>>=◌ gets continue when pure
    ensure_rcon_port-Held = record {
      at = λ s h. elim (Bool-cases (eqb s.spec.rcon_port 0)) [
        | inr has ↦ rw has h
        | inl lacks ↦ rw lacks ((assign_rcon_port-apart (λ i. hr (lost s (h.1 i).1 lacks))).at s h)
      ];
    }
      where
        lost : (s : State) → s.spec.rcon_port ≡ r → eqb s.spec.rcon_port 0 ≡ true → r ≡ 0
        lost s e h = ground arith

    pub check_size-Held : (t : Text) → Keeps (Held name) (check_size t)
    unfolding check_size
    check_size-Held t = search keeps_rules

    pub check_memory-Held : (t : Text) → Keeps (Held name) (check_memory o t)
    unfolding check_memory
    check_memory-Held [] = check_size-Held o.config.default_memory
    check_memory-Held (c ∷ t) = check_size-Held (c ∷ t)

    pub install-Held : (n : ℕ) → Keeps (Held name) (install o name n)
    unfolding install
    install-Held n = search (held_rules, ensure_rcon_port-Held, check_memory-Held) depth 14

    pub k8s_stamp-Held : Keeps (Held name) (k8s_stamp o)
    unfolding k8s_stamp
    k8s_stamp-Held = search keeps_rules

    pub file_stamp-Held : Keeps (Held name) (file_stamp o)
    unfolding file_stamp
    file_stamp-Held = search keeps_rules

    pub require-Held : (x : Option Text) → Keeps (Held name) (require x)
    unfolding require
    require-Held x = search keeps_rules

    pub list_pods-Held : Keeps (Held name) (list_pods o name)
    unfolding list_pods
    list_pods-Held = search held_rules

    pub pods_of-Held : (v : Option Values) → Keeps (Held name) (pods_of o name v)
    unfolding pods_of
    pods_of-Held v = search held_rules depth 8

    pub ruleset basic_rules = (
      held_rules, set_message-Held, forget-Held, install-Held, k8s_stamp-Held, file_stamp-Held,
      require-Held, list_pods-Held, pods_of-Held,
    )

    pub seed_job-Held : (backup : Text) → Keeps (Held name) (seed_job o name backup)
    unfolding seed_job
    seed_job-Held backup = search basic_rules depth 10

    pub create_snapshot_job-Held : (op : Op) → Keeps (Held name) (create_snapshot_job o name op)
    unfolding create_snapshot_job
    create_snapshot_job-Held op = search basic_rules depth 10

    pub try_rcon-Held : (cmds : List Text) → Keeps (Held name) (try_rcon o name cmds)
    unfolding try_rcon
    try_rcon-Held cmds = search basic_rules depth 10

    pub refuse_shutting_down-Held :
        (v : Option Values) → Keeps (Held name) (refuse_shutting_down o name v)
    unfolding refuse_shutting_down
    refuse_shutting_down-Held v = search basic_rules depth 10

    pub ruleset job_rules = (
      basic_rules, seed_job-Held, create_snapshot_job-Held, try_rcon-Held,
      refuse_shutting_down-Held,
    )

    pub begin_snapshot-Held :
        (v : Option Values) (kind : Kind) (backup build : Option Text)
        → Keeps (Held name) (begin_snapshot o name v kind backup build)
    unfolding begin_snapshot
    begin_snapshot-Held v kind backup build = search job_rules depth 20

    pub busy-Held : (op : Option Op) → Keeps (Held name) (busy name op)
    unfolding busy
    busy-Held none = search keeps_rules
    busy-Held (some op) = search keeps_rules

    pub retry_seed-Held : (op : Op) → Keeps (Held name) (retry_seed o name op)
    unfolding retry_seed
    retry_seed-Held op = search job_rules depth 12

    pub start_server-Held : (v : Option Values) → Keeps (Held name) (start_server o name v)
    unfolding start_server
    start_server-Held v = search job_rules depth 12

    pub stop_server-Held :
        (v : Option Values) (actor : Text) → Keeps (Held name) (stop_server o name v actor)
    unfolding stop_server
    stop_server-Held v actor = search job_rules depth 14

    pub create_volume_and_secret-Held : Keeps (Held name) (create_volume_and_secret o name)
    unfolding create_volume_and_secret
    create_volume_and_secret-Held = search basic_rules depth 12
