-- ===== src/Service/Exec/Keeps.antt =====
-- Invariants of the service's actions, one rule for each way to build an action.
use k3s_minecraft.Prelude.{Bool, true, false, Option, none, some, List, [], ◌∷◌, if◌then◌else◌}
use k3s_minecraft.Models.{Error, ErrorClass}
use k3s_minecraft.Service.Exec.{
  State, Result, ok, err, M, pure, raise, gets, modify, continue, ◌>>=◌, handle, rescue, except,
  when, maybe, for_each, Outside, Event, Query, asked, call, tell, settle, ask, History,
  apply_event,
}

-- `m` keeps `P`, whether it returns or raises.
pub record Keeps {A : Type 0} (P : State → Type 0) (m : M A) : Type 0 where
  pub at : (s : State) → P s → P (m s).1

module _ {A : Type 0} {P : State → Type 0} where
  pub Keeps-gets : (f : State → A) → Keeps P (gets f)
  unfolding gets
  Keeps-gets f = record { at = λ s h. h }

  pub Keeps-if : (b : Bool) (m n : M A) → Keeps P m → Keeps P n → Keeps P (if b then m else n)
  Keeps-if true m n km kn = km
  Keeps-if false m n km kn = kn

  pub Keeps-pure : (a : A) → Keeps P (pure a)
  unfolding pure
  Keeps-pure a = record { at = λ s h. h }

  pub Keeps-raise : (e : Error) → Keeps P (raise {A = A} e)
  unfolding raise
  Keeps-raise e = record { at = λ s h. h }

  pub Keeps-rescue :
      (m : M A) (h : Error → M A) → Keeps P m → ((e : Error) → Keeps P (h e)) → Keeps P (rescue m h)
  unfolding rescue handle
  Keeps-rescue m h km kh = record { at = λ s p. go (m s).0 (m s).1 (km.at s p) }
    where
      go : (r : Result A) (s : State) → P s → P (handle r h s).1
      go (ok a) s p = p
      go (err e) s p = (kh e).at s p

  pub Keeps-except :
      (p : ErrorClass → Bool) (m n : M A) → Keeps P m → Keeps P n → Keeps P (except p m n)
  unfolding except
  Keeps-except p m n km kn =
      Keeps-rescue m _ km (λ e. Keeps-if (p e.kind) n (raise e) kn (Keeps-raise e))

module _ {A B : Type 0} {P : State → Type 0} where
  Keeps-continue : (r : Result A) (f : A → M B) → ((a : A) → Keeps P (f a)) → Keeps P (continue r f)
  unfolding continue
  Keeps-continue (ok a) f kf = kf a
  Keeps-continue (err e) f kf = record { at = λ s h. h }

  pub Keeps-bind :
      (first : M A) (next : A → M B)
      → Keeps P first
      → ((a : A) → Keeps P (next a))
      → Keeps P (first >>= next)
  unfolding ◌>>=◌
  Keeps-bind first next before after = record {
    at = λ s p. (Keeps-continue (first s).0 next after).at (first s).1 (before.at s p);
  }

  pub Keeps-maybe :
      (o : Option A) (m : M B) (f : A → M B)
      → Keeps P m
      → ((a : A) → Keeps P (f a))
      → Keeps P (maybe o m f)
  unfolding maybe
  Keeps-maybe none m f km kf = km
  Keeps-maybe (some a) m f km kf = kf a

module _ {P : State → Type 0} where
  pub Keeps-modify : (f : State → State) → ((s : State) → P s → P (f s)) → Keeps P (modify f)
  unfolding modify
  Keeps-modify f h = record { at = h }

  pub Keeps-when : (b : Bool) (m : M (Unit {0})) → Keeps P m → Keeps P (when b m)
  unfolding when
  Keeps-when true m km = km
  Keeps-when false m km = Keeps-pure tt

  pub Keeps-for_each :
      {A : Type 0} (xs : List A) (f : A → M (Unit {0}))
      → ((a : A) → Keeps P (f a))
      → Keeps P (for_each xs f)
  unfolding for_each
  Keeps-for_each [] f kf = Keeps-pure tt
  Keeps-for_each (x ∷ xs) f kf =
      Keeps-bind (f x) (λ _. for_each xs f) (kf x) (λ _. Keeps-for_each xs f kf)

-- `P` outlives a call of `e`, whether it raises or not.
pub record Survives (P : State → Type 0) (e : Event) : Type 0 where
  pub raised : (s : State) → P s → P (record s { history = e ∷ s.history })
  pub done :
      (s : State)
      → P s
      → P (record s { records = apply_event e s.records; history = e ∷ s.history })

module _ (o : Outside) {P : State → Type 0} where
  Survives-settle :
      (e : Event) (x : Option Error) (s : State) → Survives P e → P s → P (settle o e x s).1
  unfolding settle
  Survives-settle e none s v h = v.done s h
  Survives-settle e (some x) s v h = v.raised s h

  pub Keeps-call : (e : Event) → Survives P e → Keeps P (call o e)
  unfolding call
  Keeps-call e v = record { at = λ s h. Survives-settle e _ s v h }

  pub Keeps-tell : (e : Event) → Survives P e → Keeps P (tell o e)
  unfolding tell
  Keeps-tell e v = record { at = λ s h. Survives-settle e none s v h }

  pub Keeps-ask :
      {A : Type 0} (q : Query) (f : History → A) → Survives P (asked q) → Keeps P (ask o q f)
  unfolding ask
  Keeps-ask q f v =
      Keeps-bind (gets (λ s. s.history)) _ (Keeps-gets _)
        λ h. Keeps-bind (call o (asked q)) _ (Keeps-call (asked q) v) (λ _. Keeps-pure (f h))

pub ruleset keeps_rules = (
  Keeps-pure, Keeps-raise, Keeps-gets, Keeps-if, Keeps-except, Keeps-rescue, Keeps-bind,
  Keeps-maybe, Keeps-modify, Keeps-when, Keeps-for_each, Keeps-call, Keeps-tell, Keeps-ask,
)
