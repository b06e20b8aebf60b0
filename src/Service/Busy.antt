-- ===== src/Service/Busy.antt =====
-- src/mcdash/service.py: a world with a pending operation refuses every request.
use k3s_minecraft.Prelude.{
  Text, codes, true, false, Option, none, some, [], ◌++◌, Dict, get, text_eq, ◌≡◌, ◌≢◌, refl, sym,
  ◌∙◌, ap, arith, subst,
}
use k3s_minecraft.Models.{Error, WorldSettings}
use k3s_minecraft.Service.Exec.{
  State, Result, ok, err, Op, Entry, Values, Query, Event, asked, History, Outside, M, pure, raise,
  ◌>>=◌, ask, writes_record, apply_event-eq_self,
}
use k3s_minecraft.Service.Exec.Keeps.{Keeps, Survives, Keeps-ask}
use k3s_minecraft.Service.Exec.Meets.{Meets, Post, Meets-raise, Meets-of_Keeps, Meets-bind}
use k3s_minecraft.Service.Records.{load, records}
use k3s_minecraft.Service.Records.Laws.{healed, Loaded, load-Loaded, records-Here}
use k3s_minecraft.Service.Operations.{
  busy, start, stop, snapshot, restore, request_delete, update_settings,
}
use k3s_minecraft.Service.Operations.{
  launch, create_world, reserve, claim_if_new, refuse_taken, refuse_conflict,
}
use k3s_minecraft.Service.Settings.{check_name, check_settings}
use k3s_minecraft.Service.Settings.Keeps.{check_settings-Keeps, check_name-Keeps}
use k3s_minecraft.Service.Jobs.{has_failed, kind_text}
use k3s_minecraft.Service.Reconcile.{delete, reconcile_world}
use k3s_minecraft.Service.Requests.{
  Request, launch_backup, new_world, start_world, stop_world, take_snapshot, delete_world,
  restore_backup, change_settings, change_players, named, checks_busy, respond,
}

healed-settled :
    (v : Values) (e : Entry) → e.spec.port ≢ 0 → e.spec.rcon_port ≢ 0 → healed v (some e) ≡ e
unfolding healed
healed-settled v e hp hr = ground arith

busy-pending :
    (w : Text) (op : Op)
    → has_failed op ≡ false
    → busy w (some op)
      ≡ refuse_conflict (w ++ codes " is busy (" ++ kind_text op.kind ++ codes " in progress)")
unfolding busy
busy-pending w op h = rw h

-- An action that raises at once does not go on.
refuse-bind :
    {A B : Type 0} {P : State → Type 0} (x : Error) (f : A → M B)
    → Meets P (raise x >>= f) (λ _ _. ⊥) P
refuse-bind x f =
    Meets-bind {Q = λ _ _. ⊥} (raise x) f (Meets-raise x (λ s h. h))
      (λ _. record { at = λ s h. absurd h })

entry-eq : (x y : Entry) → some x ≡ some y → x.op ≡ y.op
entry-eq x y h = cc

module _ (o : Outside) (w : Text) (e : Entry) (op : Op) (hp : e.spec.port ≢ 0)
    (hr : e.spec.rcon_port ≢ 0) (pending : e.op ≡ some op) (running : has_failed op ≡ false) where
  abbrev Is : Option Entry → Type 0
  Is x = x ≡ some e

  Is-healed : (v : Values) (x : Option Entry) → Is x → Is (some (healed v x))
  Is-healed v x h = rw h (ap some (healed-settled v e hp hr))

  abbrev Kept' : State → Type 0
  Kept' s = Is (get s.records w)

  -- The action never returns, and the record of `w` stays as it is.
  abbrev Refuses : {A : Type 0} → M A → Type 0
  Refuses m = Meets Kept' m (λ _ _. ⊥) Kept'

  busy-raises :
      {A : Type 0} (x : Option Op) (rest : M A) → x ≡ e.op → Refuses (busy w x >>= λ _. rest)
  busy-raises x rest h =
      subst (λ y. Refuses (busy w y >>= λ _. rest)) (sym (h ∙ pending))
        (subst (λ m. Refuses (m >>= λ _. rest)) (sym (busy-pending w op running)) (refuse-bind _ _))

  load-busy :
      {A : Type 0} (rest : Option Op × Option Values → M A)
      → Refuses (load o w >>= λ x. busy w x.0 >>= λ _. rest x)
  load-busy rest =
      Meets-bind {Q = Loaded o w Is Is-healed (λ spec x. x ≡ e.op) w} (load o w) _
        (load-Loaded o w Is Is-healed (λ spec x. x ≡ e.op) w (λ y h. entry-eq y e h))
        (λ x. record { at = λ s h. (busy-raises x.0 (rest x) (h.1 refl)).at s h.0 })

  start-Refuses : (actor : Text) → Refuses (start o w actor)
  unfolding start
  start-Refuses actor = load-busy _

  stop-Refuses : (actor : Text) → Refuses (stop o w actor)
  unfolding stop
  stop-Refuses actor = load-busy _

  snapshot-Refuses : (actor : Text) → Refuses (snapshot o w actor)
  unfolding snapshot
  snapshot-Refuses actor = load-busy _

  request_delete-Refuses : (actor : Text) → Refuses (request_delete o w actor)
  unfolding request_delete
  request_delete-Refuses actor = load-busy _

  -- The rounds of the reconciler are not reached.
  delete-Refuses : (actor : Text) → Refuses (delete o w actor)
  unfolding delete
  delete-Refuses actor =
      Meets-bind {Q = λ _ _. ⊥} (request_delete o w actor) (λ _. reconcile_world o w)
        (request_delete-Refuses actor) (λ _. record { at = λ s h. absurd h })

  Is-quiet : (x : Event) → writes_record x ≡ false → Survives Kept' x
  Is-quiet x q = record {
    raised = λ s h. h;
    done = λ s h. subst (λ d. Is (get d w)) (sym (apply_event-eq_self x s.records q)) h;
  }

  -- What comes before the refusal changes no record.
  then_Refuses :
      {A B : Type 0} (m : M A) (f : A → M B)
      → Keeps Kept' m
      → ((a : A) → Refuses (f a))
      → Refuses (m >>= f)
  then_Refuses m f k r =
      Meets-bind {Q = λ _. Kept'} m f (Meets-of_Keeps k (λ _ s h. h) (λ s h. h)) r

  asking : {A : Type 0} (q : Query) (f : History → A) → Keeps Kept' (ask o q f)
  asking q f = Keeps-ask o q f (Is-quiet (asked q) refl)

  restore-Refuses : (backup actor : Text) → Refuses (restore o w backup actor)
  unfolding restore
  restore-Refuses backup actor =
      then_Refuses _ _ (asking (Query.backup backup) _)
        λ _. then_Refuses _ _ (asking (Query.backup backup) _) (λ _. load-busy _)

  reserve-Refuses :
      (settings : WorldSettings) (source build : Text) → Refuses (reserve o w settings source build)
  unfolding reserve claim_if_new refuse_taken
  reserve-Refuses settings source build =
      Meets-bind (records o) _ (records-Here o w Is Is-healed) λ x. refused x.0 (get x.0 w)
    where
      refused :
          (d : Dict Text Entry) (x : Option Entry)
          → Meets
              (λ s. Kept' s × Is x)
              (claim_if_new o w settings source build d x)
              (λ _ _. ⊥)
              Kept'
      refused d none = record { at = λ s h. cc h.1 }
      refused d (some y) = Meets-raise _ (λ s h. h.0)

  -- A refused reservation ends the request.
  reserve_first :
      {A : Type 0} (settings : WorldSettings) (source build : Text) (f : Unit {0} → M A)
      → Refuses (reserve o w settings source build >>= f)
  reserve_first settings source build f =
      Meets-bind {Q = λ _ _. ⊥} (reserve o w settings source build) f
        (reserve-Refuses settings source build) (λ _. record { at = λ s h. absurd h })

  launch-Refuses :
      (backup : Text) (settings : WorldSettings) (actor : Text)
      → Refuses (launch o backup w settings actor)
  unfolding launch
  launch-Refuses backup settings actor = then_Refuses (check_name w) _ (check_name-Keeps w) λ _.
      then_Refuses (check_settings o.config settings) _ (check_settings-Keeps o.config settings)
        λ _. then_Refuses _ _ (asking (Query.backup backup) _) λ b.
          then_Refuses _ _ (asking (Query.backup backup) _) λ detected. reserve_first _ b detected _

  create_world-Refuses :
      (settings : WorldSettings) (actor : Text) → Refuses (create_world o w settings actor)
  unfolding create_world
  create_world-Refuses settings actor = then_Refuses (check_name w) _ (check_name-Keeps w) λ _.
      then_Refuses (check_settings o.config settings) _ (check_settings-Keeps o.config settings)
        λ _. reserve_first _ [] [] _

  update_settings-Refuses :
      (settings : WorldSettings) (actor : Text) → Refuses (update_settings o w settings actor)
  unfolding update_settings
  update_settings-Refuses settings actor =
      then_Refuses (check_settings o.config settings) _ (check_settings-Keeps o.config settings)
        (λ _. load-busy _)

  then_done : {A : Type 0} (m : M A) → Refuses m → Refuses (m >>= λ _. pure tt)
  then_done m k = Meets-bind {Q = λ _ _. ⊥} m _ k (λ _. record { at = λ s h. absurd h })

  respond-Refuses : (q : Request) → checks_busy q ≡ true → named q ≡ w → Refuses (respond o q)
  unfolding respond
  respond-Refuses (launch_backup backup name settings actor) c i =
      subst (λ n. Refuses (launch o backup n settings actor >>= λ _. pure tt)) (sym i)
        (then_done _ (launch-Refuses backup settings actor))
  respond-Refuses (new_world name settings actor) c i =
      subst (λ n. Refuses (create_world o n settings actor >>= λ _. pure tt)) (sym i)
        (then_done _ (create_world-Refuses settings actor))
  respond-Refuses (start_world name actor) c i =
      subst (λ n. Refuses (start o n actor)) (sym i) (start-Refuses actor)
  respond-Refuses (stop_world name actor) c i =
      subst (λ n. Refuses (stop o n actor)) (sym i) (stop-Refuses actor)
  respond-Refuses (take_snapshot name actor) c i =
      subst (λ n. Refuses (snapshot o n actor)) (sym i) (snapshot-Refuses actor)
  respond-Refuses (delete_world name actor) c i =
      subst (λ n. Refuses (delete o n actor)) (sym i) (delete-Refuses actor)
  respond-Refuses (restore_backup name backup actor) c i =
      subst (λ n. Refuses (restore o n backup actor)) (sym i) (restore-Refuses backup actor)
  respond-Refuses (change_settings name settings actor) c i =
      subst (λ n. Refuses (update_settings o n settings actor)) (sym i)
        (update_settings-Refuses settings actor)
  respond-Refuses (change_players name given actor open_to_all ops) c i = cc

abbrev pub Raised : {A : Type 0} → Result A → Type 0
Raised (ok a) = ⊥
Raised (err x) = Unit {0}

Raised-of_Post :
    {A : Type 0} (E : State → Type 0) (r : Result A) (s : State)
    → Post (λ _ _. ⊥) E r s
    → Raised r × E s
Raised-of_Post E (ok a) s h = absurd h
Raised-of_Post E (err x) s h = (tt, h)

-- While a world with both ports has an operation pending that has not failed, every request that
-- names it but `set_whitelist` raises, a deletion and a launch or a new world of its name too, and
-- leaves its record as it is.
pub busy_refused :
    (o : Outside) (q : Request) (e : Entry) (op : Op) (s : State)
    → checks_busy q ≡ true
    → e.spec.port ≢ 0
    → e.spec.rcon_port ≢ 0
    → e.op ≡ some op
    → has_failed op ≡ false
    → get s.records (named q) ≡ some e
    → Raised (respond o q s).0 × (get (respond o q s).1.records (named q) ≡ some e)
busy_refused o q e op s checked hp hr pending running h =
    Raised-of_Post (λ t. get t.records (named q) ≡ some e) (respond o q s).0 (respond o q s).1
      ((respond-Refuses o (named q) e op hp hr pending running q checked refl).at s h)
