-- ===== src/Service/Records.antt =====
-- src/mcdash/service.py: reading, healing and writing the worlds' records, and installing.
pub mod Laws
use k3s_minecraft.Prelude.{
  Text, codes, ℕ, Bool, true, false, ◌&&◌, not, Option, none, some, List, [], ◌∷◌, ◌++◌, Dict, get,
  put, remove, text_eq, ◌==◌, if◌then◌else◌, all, eqb, is_digit,
}
use k3s_minecraft.Models.{default_settings, ErrorClass, crash, mcdash_error, not_found, helm_error}
use k3s_minecraft.Helm.{jvm_memory}
use k3s_minecraft.Service.Exec.{
  Spec, Op, Entry, Release, Values, Query, Event, Outside, M, pure, raise, gets, modify, ◌>>=◌,
  ◌>>◌, rescue, except, when, maybe, call, tell, ask,
}
use k3s_minecraft.Service.Ports.{allocate_rcon_port}

abbrev pub empty_spec : Spec
empty_spec = record {
  port = 0;
  rcon_port = 0;
  source_backup = [];
  created = [];
  settings = default_settings;
  forge_version = [];
  message = [];
}

-- What stands behind "minecraft-" in `minecraft-\d.*`; `.` is any character but a newline.
unfoldable pub is_version_tail : Text → Bool
unfolding is_digit all
is_version_tail [] = false
is_version_tail (c ∷ s) = is_digit c && all (λ d. not (eqb d b'\n')) s

unfoldable pub is_itzg_chart : Text → Text → Bool
unfolding is_version_tail
is_itzg_chart [] chart = is_version_tail chart
is_itzg_chart (p ∷ prefix) [] = false
is_itzg_chart (p ∷ prefix) (c ∷ chart) = eqb p c && is_itzg_chart prefix chart

-- `_spec_from_values`
unfoldable pub spec_from_values : Values → Spec
spec_from_values v = elim v.mcdash [ none ↦ empty_spec | some m ↦ record m { message = [] } ]

-- `_replicas`
unfoldable pub replicas : Option Values → ℕ
replicas none = 0
replicas (some v) = elim v.replica_count [ none ↦ 1 | some n ↦ n ]

abbrev pub has_mcdash : Option Spec → Bool
has_mcdash none = false
has_mcdash (some m) = true

-- `except (NotFound, HelmError)`
abbrev pub is_missing : ErrorClass → Bool
is_missing not_found = true
is_missing helm_error = true
is_missing _ = false

unfoldable pub cached_values : Text → Option (Text × Values) → Option Values
cached_values revision none = none
cached_values revision (some (r, v)) = if r == revision then some v else none

-- `jvm_memory(mem)`, for the exception that it may raise
unfoldable pub check_size : Text → M (Unit {0})
unfolding jvm_memory maybe
check_size s =
    maybe (jvm_memory s)
      (raise (record {
        kind = mcdash_error;
        text = codes "bad memory size '" ++ s ++ codes "' (use e.g. 4Gi)";
      }))
      (λ _. pure tt)

abbrev pub forget : Text → M (Unit {0})
forget name = modify (λ s. record s { cache = remove s.cache name })

module _ (o : Outside) where
  -- The values of a release, from the cache or from helm; `none` where the loop goes on.
  unfoldable pub fetch_values : Release → M (Option Values)
  unfolding cached_values
  fetch_values r = do
    hit ← gets (λ s. cached_values r.revision (get s.cache r.name))
    maybe hit
        (except is_missing
          (do
            v ← ask o (Query.values r.name) (λ h. o.values h r.name)
            modify (λ s. record s { cache = put s.cache r.name (r.revision, v) })
            pure (some v))
          (pure none))
        (λ v. pure (some v))

  unfoldable pub collect_release : Release → Dict Text Values → Option Values → M (Dict Text Values)
  collect_release r out none = pure out
  collect_release r out (some v) = pure (if has_mcdash v.mcdash then put out r.name v else out)

  unfoldable pub collect_releases : List Release → Dict Text Values → M (Dict Text Values)
  unfolding fetch_values collect_release
  collect_releases [] out = pure out
  collect_releases (r ∷ rs) out = do
    out' ←
        if not (r.name == []) && is_itzg_chart (codes "minecraft-") r.chart
        then (do v ← fetch_values r; collect_release r out v)
        else pure out
    collect_releases rs out'

  -- `_releases`
  unfoldable pub releases : M (Dict Text Values)
  unfolding collect_releases
  releases = do rs ← ask o Query.releases o.releases; collect_releases rs []

  -- `_save`, of the spec that the running operation holds
  unfoldable pub save : Text → Option Op → M (Unit {0})
  save name op = do
    spec ← gets (λ s. s.spec)
    call o (Event.put_configmap name (record { spec = spec; op = op }))

  -- One release in the second loop of `_records`, with what the record of its world is.
  unfoldable pub heal_entry : Text → Values → Dict Text Entry → Option Entry → M (Dict Text Entry)
  heal_entry w v d none = do
    let e : Entry = record { spec = spec_from_values v; op = none }
    call o (Event.put_configmap w e)
    pure (put d w e)
  heal_entry w v d (some e) =
      if eqb e.spec.port 0
      then (do
        let e' : Entry = record { spec = spec_from_values v; op = e.op }
        call o (Event.put_configmap w e')
        pure (put d w e'))
      else pure (
          if eqb e.spec.rcon_port 0 && not (eqb (spec_from_values v).rcon_port 0)
          then put d w
              (record e { spec = record e.spec { rcon_port = (spec_from_values v).rcon_port } })
          else d)

  unfoldable pub heal : Dict Text Values → Dict Text Entry → M (Dict Text Entry)
  unfolding heal_entry
  heal [] d = pure d
  heal ((w, v) ∷ rels) d = do d' ← heal_entry w v d (get d w); heal rels d'

  -- `_records`: the entries, and the release values
  unfoldable pub records : M (Dict Text Entry × Dict Text Values)
  unfolding heal releases
  records = do
    call o (Event.asked Query.configmaps)
    d ← gets (λ s. s.records)
    rels ← releases
    d' ← heal rels d
    pure (d', rels)

  -- `_load`: the running operation holds the spec from here on.
  unfoldable pub load : Text → M (Option Op × Option Values)
  unfolding records
  load name = do
    (d, rels) ← records
    maybe (get d name)
        (raise (record { kind = not_found; text = codes "world '" ++ name ++ codes "' not found" }))
        λ e. do modify (λ s. record s { spec = e.spec }); pure (e.op, get rels name)

  abbrev pub op_of : Option Entry → Option Op
  op_of none = none
  op_of (some e) = e.op

  -- `_ensure_rcon_port`, for a world that has none
  unfoldable pub assign_rcon_port : Text → M (Unit {0})
  unfolding records save
  assign_rcon_port name = do
    (d, rels) ← records
    p ← allocate_rcon_port o.config (remove d name)
    modify (λ s. record s { spec = record s.spec { rcon_port = p } })
    save name (op_of (get d name))

  unfoldable pub ensure_rcon_port : Text → M (Unit {0})
  unfolding assign_rcon_port
  ensure_rcon_port name = do
    spec ← gets (λ s. s.spec)
    when (eqb spec.rcon_port 0) (assign_rcon_port name)

  -- `render_values` raises on a bad memory size.
  unfoldable pub check_memory : Text → M (Unit {0})
  unfolding check_size
  check_memory [] = check_size o.config.default_memory
  check_memory (c ∷ s) = check_size (c ∷ s)

  -- `_install`; a spec without a port has 0.
  unfoldable pub install : Text → ℕ → M (Unit {0})
  unfolding ensure_rcon_port check_memory
  install name n = do
    when (not (eqb n 0)) (ensure_rcon_port name)
    spec ← gets (λ s. s.spec)
    when (eqb spec.port 0) (raise (record { kind = crash; text = codes "'port'" }))
    check_memory spec.settings.memory
    rescue (call o (Event.upgrade_install name (record { spec = spec; replicas = n })))
        (λ e. do forget name; tell o (Event.evicted name); raise e)
    forget name
    tell o (Event.evicted name)
