-- ===== src/Service/Turns/Rounds.antt =====
-- src/mcdash/service.py: the rounds of `reconcile_world` on an operation that is not a deletion.
use k3s_minecraft.Prelude.{
  Text, ℕ, zero, suc, Bool, true, false, Option, none, some, get, text_eq, if◌then◌else◌, ◌≡◌, ◌≢◌,
  refl, sym, ◌∙◌, subst,
}
use k3s_minecraft.Service.Exec.{
  State, Result, ok, err, Op, Kind, Step, Entry, Values, Outside, History, pure, maybe,
}
use k3s_minecraft.Service.Exec.Keeps.{Keeps, Keeps-pure, Keeps-bind, Keeps-if}
use k3s_minecraft.Service.Exec.Meets.{
  Meets, Post, Meets-pure, Meets-bind, Meets-except, Meets-after,
}
use k3s_minecraft.Service.Records.{load}
use k3s_minecraft.Service.Records.Laws.{healed, Stored, Loaded, load-Loaded}
use k3s_minecraft.Service.Jobs.{has_failed}
use k3s_minecraft.Service.Reconcile.{
  advance, try_load, is_not_found, round, rounds, reconcile_world,
}
use k3s_minecraft.Service.Spared.{destroyed, Spares}
use k3s_minecraft.Service.Spared.Parts.{load-Spares}
use k3s_minecraft.Service.Spared.Advance.{advance-destroys_nothing}
use k3s_minecraft.Service.Turns.{Turn, stays, fails, ends, drains, tears_down, seeds, Turned}
use k3s_minecraft.Service.Turns.Parts.{healed-op}
use k3s_minecraft.Service.Turns.Steps.{advance-turns}

-- The operation is no deletion, and no teardown is under way.
abbrev pub IsMild : Option Op → Type 0
IsMild none = Unit {0}
IsMild (some op) = (op.kind ≢ Kind.delete) × (op.step ≢ Step.teardown)

-- The record is there, and its operation is mild.
abbrev pub IsMildEntry : Option Entry → Type 0
IsMildEntry none = ⊥
IsMildEntry (some e) = IsMild e.op

IsMild-Turn : (op : Op) (x : Option Op) → IsMild (some op) → Turn op x → IsMild x
IsMild-Turn op _ h stays = h
IsMild-Turn op _ h (fails t) = h
IsMild-Turn op _ h (ends ne) = tt
IsMild-Turn op _ h (drains at k) = (h.0, λ e. cc)
IsMild-Turn op _ h (tears_down at k) = absurd (h.0 k)
IsMild-Turn op _ h (seeds job at) = (h.0, λ e. cc)

IsMildEntry-Turned : (op : Op) (x : Option Entry) → IsMild (some op) → Turned op x → IsMildEntry x
IsMildEntry-Turned op none m h = absurd h
IsMildEntry-Turned op (some e) m h = IsMild-Turn op e.op m h

-- The record is there, and this is its operation.
abbrev HasOp : Option Op → Option Entry → Type 0
HasOp x none = ⊥
HasOp x (some e) = e.op ≡ x

HasOp-healed :
    (x : Option Op) (v : Values) (y : Option Entry) → HasOp x y → HasOp x (some (healed v y))
HasOp-healed x v none h = absurd h
HasOp-healed x v (some e) h = sym (healed-op v e) ∙ h

IsMildEntry-HasOp : (x : Option Op) (y : Option Entry) → IsMild x → HasOp x y → IsMildEntry y
IsMildEntry-HasOp x none m h = absurd h
IsMildEntry-HasOp x (some e) m h = subst IsMild (sym h) m

Turned-HasOp : (op : Op) (x : Option Entry) → HasOp (some op) x → Turned op x
Turned-HasOp op none h = absurd h
Turned-HasOp op (some e) h = subst (Turn op) (sym h) stays

module _ (o : Outside) (w : Text) (l : History) where
  -- Nothing more is destroyed, and the record is there with a mild operation.
  abbrev IsFine : State → Type 0
  IsFine s = Spares l s × IsMildEntry (get s.records w)

  -- One round that begins with the operation `x`.
  module _ (x : Option Op) where
    abbrev Begins : State → Type 0
    Begins s = Spares l s × HasOp x (get s.records w)

    abbrev Found : Option Op × Option Values → State → Type 0
    Found y s = Begins s × (y.0 ≡ x)

    abbrev Tried : Option (Option Op × Option Values) → State → Type 0
    Tried none s = Begins s
    Tried (some y) s = Found y s

    abbrev IsHere : State → Type 0
    IsHere = Stored o w (HasOp x) (HasOp-healed x)

    abbrev SameOp : Option Op × Option Values → State → Type 0
    SameOp = Loaded o w (HasOp x) (HasOp-healed x) (λ spec y. y ≡ x) w

    load-Found : Meets Begins (load o w) Found Begins
    load-Found = record {
      at = λ s h.
          both (load o w s).0 (load o w s).1 ((load-Spares o l w).at s h.0)
            ((load-Loaded o w (HasOp x) (HasOp-healed x) (λ spec y. y ≡ x) w (λ e k. k)).at s h.1);
    }
      where
        both :
            (r : Result (Option Op × Option Values)) (s : State)
            → Spares l s
            → Post SameOp IsHere r s
            → Post Found Begins r s
        both (ok y) s a b = ((a, b.0), b.1 refl)
        both (err e) s a b = (a, b)

    try_load-Tried : Meets Begins (try_load o w) Tried Begins
    unfolding try_load
    try_load-Tried =
        Meets-except (is_not_found o) _ _
          (Meets-bind {Q = Found} (load o w) _ load-Found (λ y. Meets-pure (some y) (λ s h. h)))
          (Meets-pure none (λ s h. h))

    module _ (mild : IsMild x) where
      ends-IsFine : (s : State) → Begins s → IsFine s
      ends-IsFine s h = (h.0, IsMildEntry-HasOp x (get s.records w) mild h.1)

      advance-IsFine :
          (op : Op) (v : Option Values)
          → some op ≡ x
          → (s : State) → Begins s
          → IsFine (advance o w op v s).1
      advance-IsFine op v i s h =
          let m : IsMild (some op) = subst IsMild (sym i) mild in
          (
            advance-destroys_nothing o w op v s m.1 ∙ h.0,
            IsMildEntry-Turned op _ m (
                advance-turns o w op v s m.1
                  (Turned-HasOp op _ (subst (λ y. HasOp y (get s.records w)) (sym i) h.1))),
          )

      step-IsFine :
          (b : Bool) (op : Op) (v : Option Values)
          → some op ≡ x
          → (s : State) → Begins s
          → IsFine ((if b then pure false else advance o w op v) s).1
      unfolding pure
      step-IsFine true op v i s h = ends-IsFine s h
      step-IsFine false op v i s h = advance-IsFine op v i s h

      rest-IsFine :
          (y : Option (Option Op × Option Values))
          → Meets
              (Tried y)
              (maybe y (pure false) λ (op, v).
                maybe op
                  (pure false)
                  λ op'. if has_failed op' then pure false else advance o w op' v)
              (λ _. IsFine)
              IsFine
      unfolding maybe
      rest-IsFine none = Meets-pure false ends-IsFine
      rest-IsFine (some (none, v)) = Meets-pure false (λ s h. ends-IsFine s h.0)
      rest-IsFine (some (some op, v)) = record {
        at = λ s h.
            (Meets-after (if has_failed op then pure false else advance o w op v)
                (step-IsFine (has_failed op) op v h.1)).at
              s h.0;
      }

      round-Fine : Meets Begins (round o w) (λ _. IsFine) IsFine
      unfolding round
      round-Fine =
          Meets-bind {Q = Tried} (try_load o w) _
            (record { at = λ s h. weaken _ _ (try_load-Tried.at s h) }) rest-IsFine
        where
          weaken :
              (r : Result (Option (Option Op × Option Values))) (s : State)
              → Post Tried Begins r s
              → Post Tried IsFine r s
          weaken (ok y) s h = h
          weaken (err e) s h = ends-IsFine s h

  round-Keeps : Keeps IsFine (round o w)
  round-Keeps = record { at = λ s h. go s h.0 (get s.records w) refl h.1 }
    where
      go :
          (s : State)
          → Spares l s
          → (y : Option Entry) → get s.records w ≡ y
          → IsMildEntry y
          → IsFine (round o w s).1
      go s a none i m = absurd m
      go s a (some e) i m =
          Post-of _ _ ((round-Fine e.op m).at s (a, subst (HasOp e.op) (sym i) refl))
        where
          Post-of : (r : Result Bool) (t : State) → Post (λ _. IsFine) IsFine r t → IsFine t
          Post-of (ok b) t h = h
          Post-of (err e') t h = h

  rounds-Keeps : (n : ℕ) → Keeps IsFine (rounds o n w)
  unfolding rounds
  rounds-Keeps zero = Keeps-pure tt
  rounds-Keeps (suc n) =
      Keeps-bind (round o w) _ round-Keeps
        (λ more. Keeps-if more _ _ (rounds-Keeps n) (Keeps-pure tt))

-- Reconciling a world whose operation, if any, is neither a deletion nor at the teardown step
-- uninstalls no release and deletes no object of the cluster, whatever is answered from outside
-- and whatever raises, and leaves its record there, again with no such operation.
pub reconcile_world-destroys_nothing :
    (o : Outside) (name : Text) (s : State) (e : Entry)
    → get s.records name ≡ some e
    → IsMild e.op
    → (destroyed (reconcile_world o name s).1.history ≡ destroyed s.history)
      × IsMildEntry (get (reconcile_world o name s).1.records name)
unfolding reconcile_world
reconcile_world-destroys_nothing o name s e i m =
    (rounds-Keeps o name (destroyed s.history) 5).at s (refl, subst IsMildEntry (sym i) m)
