-- ===== src/Service/Spared/Parts.antt =====
-- src/mcdash/service.py: reading records, installing, and Jobs delete nothing.
use k3s_minecraft.Prelude.{Text, ℕ, Option, none, some, List, [], ◌∷◌, Dict, text_eq, refl}
use k3s_minecraft.Service.Exec.{Op, Kind, Entry, Release, Values, Outside, History, M}
use k3s_minecraft.Service.Exec.Keeps.{Keeps, keeps_rules, Keeps-modify}
use k3s_minecraft.Service.Ports.{allocate_port, allocate_rcon_port}
use k3s_minecraft.Service.Records.{
  fetch_values, collect_release, collect_releases, releases, save, heal_entry, heal, records, load,
  assign_rcon_port, ensure_rcon_port, check_memory, check_size, install, forget,
}
use k3s_minecraft.Service.Jobs.{
  set_message, k8s_stamp, file_stamp, require, list_pods, pods_of, seed_job, create_snapshot_job,
  try_rcon, refuse_shutting_down, begin_snapshot,
}
use k3s_minecraft.Service.Operations.{create_volume_and_secret}
use k3s_minecraft.Service.Spared.{Spares, Spares-quiet}

module _ (o : Outside) (l : History) where
  abbrev pub Sparing : {A : Type 0} → M A → Type 0
  Sparing m = Keeps (Spares l) m

  pub ruleset quiet_rules = (keeps_rules, Spares-quiet, refl)

  fetch_values-Spares : (r : Release) → Sparing (fetch_values o r)
  unfolding fetch_values
  fetch_values-Spares r = search quiet_rules depth 14

  collect_release-Spares :
      (r : Release) (out : Dict Text Values) (v : Option Values)
      → Sparing (collect_release o r out v)
  unfolding collect_release
  collect_release-Spares r out none = search keeps_rules
  collect_release-Spares r out (some v) = search keeps_rules

  collect_releases-Spares :
      (rs : List Release) (out : Dict Text Values) → Sparing (collect_releases o rs out)
  unfolding collect_releases
  collect_releases-Spares [] out = search keeps_rules
  collect_releases-Spares (r ∷ rs) out =
      search (keeps_rules, fetch_values-Spares, collect_release-Spares, collect_releases-Spares rs)
        depth 12

  pub releases-Spares : Sparing (releases o)
  unfolding releases
  releases-Spares = search (quiet_rules, collect_releases-Spares) depth 12

  heal_entry-Spares :
      (w : Text) (v : Values) (d : Dict Text Entry) (x : Option Entry)
      → Sparing (heal_entry o w v d x)
  unfolding heal_entry
  heal_entry-Spares w v d none = search quiet_rules depth 12
  heal_entry-Spares w v d (some e) = search quiet_rules depth 12

  heal-Spares : (rels : Dict Text Values) (d : Dict Text Entry) → Sparing (heal o rels d)
  unfolding heal
  heal-Spares [] d = search keeps_rules
  heal-Spares ((w, v) ∷ rels) d = search (keeps_rules, heal_entry-Spares, heal-Spares rels) depth 12

  pub records-Spares : Sparing (records o)
  unfolding records
  records-Spares = search (quiet_rules, releases-Spares, heal-Spares) depth 14

  pub load-Spares : (name : Text) → Sparing (load o name)
  unfolding load
  load-Spares name = search (keeps_rules, records-Spares) depth 12

  pub save-Spares : (name : Text) (op : Option Op) → Sparing (save o name op)
  unfolding save
  save-Spares name op = search quiet_rules depth 12

  pub allocate_port-Spares : (d : Dict Text Entry) → Sparing (allocate_port o.config d)
  unfolding allocate_port
  allocate_port-Spares d = search keeps_rules

  pub allocate_rcon_port-Spares : (d : Dict Text Entry) → Sparing (allocate_rcon_port o.config d)
  unfolding allocate_rcon_port
  allocate_rcon_port-Spares d = search keeps_rules

  ensure_rcon_port-Spares : (name : Text) → Sparing (ensure_rcon_port o name)
  unfolding ensure_rcon_port assign_rcon_port
  ensure_rcon_port-Spares name =
      search (keeps_rules, records-Spares, save-Spares, allocate_rcon_port-Spares) depth 16

  check_memory-Spares : (t : Text) → Sparing (check_memory o t)
  unfolding check_memory check_size
  check_memory-Spares [] = search keeps_rules
  check_memory-Spares (c ∷ t) = search keeps_rules

  forget-Spares : (k : Text) → Sparing (forget k)
  forget-Spares k = Keeps-modify _ (λ s h. h)

  pub install-Spares : (name : Text) (n : ℕ) → Sparing (install o name n)
  unfolding install
  install-Spares name n =
      search (quiet_rules, ensure_rcon_port-Spares, check_memory-Spares, forget-Spares) depth 14

  pub set_message-Spares : (t : Text) → Sparing (set_message t)
  set_message-Spares t = Keeps-modify _ (λ s h. h)

  pub k8s_stamp-Spares : Sparing (k8s_stamp o)
  unfolding k8s_stamp
  k8s_stamp-Spares = search keeps_rules

  pub file_stamp-Spares : Sparing (file_stamp o)
  unfolding file_stamp
  file_stamp-Spares = search keeps_rules

  pub require-Spares : (x : Option Text) → Sparing (require x)
  unfolding require
  require-Spares x = search keeps_rules

  pub list_pods-Spares : (name : Text) → Sparing (list_pods o name)
  unfolding list_pods
  list_pods-Spares name = search quiet_rules depth 8

  pub pods_of-Spares : (name : Text) (v : Option Values) → Sparing (pods_of o name v)
  unfolding pods_of
  pods_of-Spares name v = search (keeps_rules, list_pods-Spares) depth 8

  pub ruleset part_rules = (
    quiet_rules, load-Spares, save-Spares, install-Spares, set_message-Spares, k8s_stamp-Spares,
    file_stamp-Spares, require-Spares, list_pods-Spares, pods_of-Spares,
  )

  pub seed_job-Spares : (name backup : Text) → Sparing (seed_job o name backup)
  unfolding seed_job
  seed_job-Spares name backup = search part_rules depth 10

  pub create_snapshot_job-Spares : (name : Text) (op : Op) → Sparing (create_snapshot_job o name op)
  unfolding create_snapshot_job
  create_snapshot_job-Spares name op = search part_rules depth 10

  pub try_rcon-Spares : (name : Text) (cmds : List Text) → Sparing (try_rcon o name cmds)
  unfolding try_rcon
  try_rcon-Spares name cmds = search part_rules depth 10

  pub refuse_shutting_down-Spares :
      (name : Text) (v : Option Values) → Sparing (refuse_shutting_down o name v)
  unfolding refuse_shutting_down
  refuse_shutting_down-Spares name v = search part_rules depth 10

  pub create_volume_and_secret-Spares : (name : Text) → Sparing (create_volume_and_secret o name)
  unfolding create_volume_and_secret
  create_volume_and_secret-Spares name = search quiet_rules depth 12

  pub ruleset job_rules = (
    part_rules, seed_job-Spares, create_snapshot_job-Spares, try_rcon-Spares,
    refuse_shutting_down-Spares, create_volume_and_secret-Spares,
  )

  pub begin_snapshot-Spares :
      (name : Text) (v : Option Values) (kind : Kind) (backup build : Option Text)
      → Sparing (begin_snapshot o name v kind backup build)
  unfolding begin_snapshot
  begin_snapshot-Spares name v kind backup build = search job_rules depth 20

  pub ruleset spare_rules = (job_rules, begin_snapshot-Spares)
