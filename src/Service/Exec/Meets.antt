-- ===== src/Service/Exec/Meets.antt =====
-- What an action returns and leaves, from what holds before it.
use k3s_minecraft.Prelude.{Bool, true, false, if◌then◌else◌}
use k3s_minecraft.Models.{Error, ErrorClass}
use k3s_minecraft.Service.Exec.{
  State, Result, ok, err, M, pure, raise, continue, ◌>>=◌, except, rescue, handle,
}
use k3s_minecraft.Service.Exec.Keeps.{Keeps}

abbrev pub Post : {A : Type 0} → (A → State → Type 0) → (State → Type 0) → Result A → State → Type 0
Post Q E (ok a) s = Q a s
Post Q E (err e) s = E s

-- From a state with `P` the action returns a value with `Q`, or raises and leaves `E`.
pub record Meets {A : Type 0} (P : State → Type 0) (m : M A) (Q : A → State → Type 0)
    (E : State → Type 0) : Type 0 where
  pub at : (s : State) → P s → Post Q E (m s).0 (m s).1

module _ {A : Type 0} {P : State → Type 0} {Q : A → State → Type 0} {E : State → Type 0} where
  pub Meets-pure : (a : A) → ((s : State) → P s → Q a s) → Meets P (pure a) Q E
  unfolding pure
  Meets-pure a h = record { at = h }

  pub Meets-raise : (e : Error) → ((s : State) → P s → E s) → Meets P (raise e) Q E
  unfolding raise
  Meets-raise e h = record { at = h }

  pub Meets-of_Keeps :
      {m : M A}
      → Keeps P m
      → ((a : A) (s : State) → P s → Q a s)
      → ((s : State) → P s → E s)
      → Meets P m Q E
  Meets-of_Keeps {m} k q e = record { at = λ s h. go (m s).0 (m s).1 (k.at s h) }
    where
      go : (r : Result A) (s : State) → P s → Post Q E r s
      go (ok a) s h = q a s h
      go (err x) s h = e s h

  pub Keeps-of_Meets :
      {m : M A}
      → Meets P m Q E
      → ((a : A) (s : State) → Q a s → P s)
      → ((s : State) → E s → P s)
      → Keeps P m
  Keeps-of_Meets {m} k q e = record { at = λ s h. go (m s).0 (m s).1 (k.at s h) }
    where
      go : (r : Result A) (s : State) → Post Q E r s → P s
      go (ok a) s h = q a s h
      go (err x) s h = e s h

module _ {A B : Type 0} {P : State → Type 0} {Q : A → State → Type 0} {R : B → State → Type 0}
    {E : State → Type 0} where
  pub Meets-bind :
      (m : M A) (f : A → M B)
      → Meets P m Q E
      → ((a : A) → Meets (Q a) (f a) R E)
      → Meets P (m >>= f) R E
  unfolding ◌>>=◌ continue
  Meets-bind m f km kf = record { at = λ s h. go (m s).0 (m s).1 (km.at s h) }
    where
      go :
          (r : Result A) (s : State) → Post Q E r s → Post R E (continue r f s).0 (continue r f s).1
      go (ok a) s h = (kf a).at s h
      go (err e) s h = h

module _ {A : Type 0} {P : State → Type 0} {Q : A → State → Type 0} {E : State → Type 0} where
  -- The handler runs where the body raised.
  pub Meets-except :
      (p : ErrorClass → Bool) (m n : M A)
      → Meets P m Q E
      → Meets E n Q E
      → Meets P (except p m n) Q E
  unfolding except rescue handle raise
  Meets-except p m n km kn = record { at = λ s h. go (m s).0 (m s).1 (km.at s h) }
    where
      caught :
          (b : Bool) (e : Error) (s : State)
          → E s
          → Post Q E ((if b then n else raise e) s).0 ((if b then n else raise e) s).1
      caught true e s h = kn.at s h
      caught false e s h = h

      go :
          (r : Result A) (s : State)
          → Post Q E r s
          → Post Q E
              (handle r (λ e. if p e.kind then n else raise e) s).0
              (handle r (λ e. if p e.kind then n else raise e) s).1
      go (ok a) s h = h
      go (err e) s h = caught (p e.kind) e s h

module _ {A : Type 0} {P E : State → Type 0} where
  -- What holds whether the action returns or raises.
  pub Meets-after : (m : M A) → ((s : State) → P s → E (m s).1) → Meets P m (λ _. E) E
  Meets-after m k = record { at = λ s h. go (m s).0 (m s).1 (k s h) }
    where
      go : (r : Result A) (s : State) → E s → Post (λ _. E) E r s
      go (ok a) s h = h
      go (err e) s h = h
