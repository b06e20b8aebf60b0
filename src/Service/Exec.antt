-- ===== src/Service/Exec.antt =====
-- What the service acts on. Its state is the worlds' records, the release values that it caches
-- and the spec that the running operation holds; all else it asks of an `Outside`, whose
-- every answer may depend on all that was done and asked before.
pub mod Keeps
pub mod Meets
use k3s_minecraft.Prelude.{
  Text, ℕ, Bool, true, false, Option, none, some, List, [], ◌∷◌, Dict, put, remove, text_eq,
  if◌then◌else◌, ◌≡◌, refl,
}
use k3s_minecraft.Models.{WorldSettings, Error, ErrorClass, PodInfo, JobInfo, JobSpec, Config}

-- The `spec` of a world's ConfigMap. A key that is absent is 0 or the empty text.
pub record Spec : Type 0 where
  pub port : ℕ
  pub rcon_port : ℕ
  pub source_backup : Text
  pub created : Text
  pub settings : WorldSettings
  pub forge_version : Text
  pub message : Text

pub data Kind : Type 0 where
  launch create snapshot restore delete stop : Kind

pub data Step : Type 0 where
  seed install snapshot drain teardown unknown : Step

-- The `op` of a world's ConfigMap.
pub record Op : Type 0 where
  pub kind : Kind
  pub step : Step
  pub job : Option Text
  pub backup : Option Text
  pub dest : Text
  pub local : Text
  pub paused : Bool
  pub forge_version : Option Text
  pub error : Text

pub record Entry : Type 0 where
  pub spec : Spec
  pub op : Option Op

-- A release in `helm list`, and the release values that the service reads.
pub record Release : Type 0 where
  pub name : Text
  pub chart : Text
  pub revision : Text

pub record Values : Type 0 where
  pub replica_count : Option ℕ
  pub mcdash : Option Spec

pub data Query : Type 0 where
  configmaps releases : Query
  values pods job jobs pvc secret file backup : Text → Query

-- What `render_values` is given.
pub record Install : Type 0 where
  pub spec : Spec
  pub replicas : ℕ

pub data Event : Type 0 where
  asked : Query → Event
  put_configmap : Text → Entry → Event
  delete_configmap : Text → Event
  create_secret : Text → Event
  delete_secret : Text → Event
  create_pvc : Text → Event
  delete_pvc : Text → Event
  create_job : JobSpec → Event
  delete_job : Text → Event
  upgrade_install : Text → Install → Event
  uninstall : Text → Event
  -- the store's guard on a path, and `mkdir` of the directory that holds it
  prepare : Text → Event
  rcon : Text → List Text → Event
  -- the pool's connection to a world is dropped
  evicted : Text → Event
  prune_snapshots : Text → ℕ → Event
  audit : Text → Text → Text → Event

-- The newest first.
abbrev pub History : Type 0
History = List Event

pub record Outside : Type 0 where
  pub config : Config
  -- the exception that a call raises, if it raises one
  pub fails : History → Event → Option Error
  pub releases : History → List Release
  pub values : History → Text → Values
  pub pods : History → Text → List PodInfo
  pub job : History → Text → Option JobInfo
  pub jobs : History → Text → List JobInfo
  pub pvc_exists : History → Text → Bool
  pub is_file : History → Text → Bool
  -- `format_compact_timestamp(self.now())` and `self.now().isoformat()`
  pub stamp : History → Text
  pub now : History → Text
  -- `BackupIndex`: a backup's id, the Forge build detected in it, and where a Job sees it
  pub backup_id : History → Text → Text
  pub detected : History → Text → Text
  pub job_path : Text → Text

pub record State : Type 0 where
  pub records : Dict Text Entry
  pub cache : Dict Text (Text × Values)
  pub spec : Spec
  pub history : History

pub data Result {ℓ} (A : Type ℓ) : Type ℓ where
  ok : A → Result A
  err : Error → Result A

abbrev pub M : Type 0 → Type 0
M A = State → Result A × State

unfoldable pub pure : {A : Type 0} → A → M A
pure a s = (ok a, s)

unfoldable pub raise : {A : Type 0} → Error → M A
raise e s = (err e, s)

unfoldable pub gets : {A : Type 0} → (State → A) → M A
gets f s = (ok (f s), s)

unfoldable pub modify : (State → State) → M (Unit {0})
modify f s = (ok tt, f s)

unfoldable pub continue : {A B : Type 0} → Result A → (A → M B) → M B
continue (ok a) f s = f a s
continue (err e) f s = (err e, s)

infixl 5 ◌>>=◌ ◌>>◌
unfoldable pub ◌>>=◌ : {A B : Type 0} → M A → (A → M B) → M B
unfolding continue
◌>>=◌ m f s = let (r, s') = m s in continue r f s'

abbrev pub ◌>>◌ : {A B : Type 0} → M A → M B → M B
m >> n = m >>= λ _. n

unfoldable pub handle : {A : Type 0} → Result A → (Error → M A) → M A
handle (ok a) h s = (ok a, s)
handle (err e) h s = h e s

-- `try` with a handler; what the body did before it raised stays done.
unfoldable pub rescue : {A : Type 0} → M A → (Error → M A) → M A
unfolding handle
rescue m h s = let (r, s') = m s in handle r h s'

-- `except` for the classes that pass the test; the rest goes on being raised.
unfoldable pub except : {A : Type 0} → (ErrorClass → Bool) → M A → M A → M A
unfolding rescue raise
except p m n = rescue m (λ e. if p e.kind then n else raise e)

unfoldable pub when : Bool → M (Unit {0}) → M (Unit {0})
unfolding pure
when true m = m
when false m = pure tt

unfoldable pub maybe : {A B : Type 0} → Option A → M B → (A → M B) → M B
maybe none m f = m
maybe (some a) m f = f a

unfoldable pub for_each : {A : Type 0} → List A → (A → M (Unit {0})) → M (Unit {0})
unfolding pure
for_each [] f = pure tt
for_each (a ∷ as') f = do f a; for_each as' f

-- `ConfigMap`s are written and deleted whole, by name.
unfoldable pub apply_event : Event → Dict Text Entry → Dict Text Entry
apply_event (put_configmap w e) d = put d w e
apply_event (delete_configmap w) d = remove d w
apply_event _ d = d

-- The calls that write or delete a ConfigMap.
abbrev pub writes_record : Event → Bool
writes_record (put_configmap w e) = true
writes_record (delete_configmap w) = true
writes_record _ = false

pub apply_event-eq_self :
    (e : Event) (d : Dict Text Entry) → writes_record e ≡ false → apply_event e d ≡ d
unfolding apply_event
apply_event-eq_self (put_configmap w e) d h = cc
apply_event-eq_self (delete_configmap w) d h = cc
apply_event-eq_self _ d h = refl

module _ (o : Outside) where
  unfoldable pub settle : Event → Option Error → M (Unit {0})
  unfolding apply_event
  settle e none s = (ok tt, record s { records = apply_event e s.records; history = e ∷ s.history })
  settle e (some x) s = (err x, record s { history = e ∷ s.history })

  -- One call of the outside.
  unfoldable pub call : Event → M (Unit {0})
  unfolding settle
  call e s = settle e (o.fails s.history e) s

  -- What the process itself does, which does not raise.
  unfoldable pub tell : Event → M (Unit {0})
  unfolding settle
  tell e = settle e none

  -- A question, answered from the history before it.
  unfoldable pub ask : {A : Type 0} → Query → (History → A) → M A
  unfolding call gets
  ask q f = do h ← gets (λ s. s.history); call (asked q); pure (f h)
