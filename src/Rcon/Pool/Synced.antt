-- ===== src/Rcon/Pool/Synced.antt =====
-- src/mcdash/rcon.py: the connection that a history leaves open, and how the pool's steps keep to it.
use k3s_minecraft.Prelude.{
  Text, ℕ, Bool, true, false, Option, none, some, [], ◌∷◌, ◌++◌, ◌≡◌, refl, sym, ◌∙◌, ap, arith,
  if◌then◌else◌, text_eq, nat_eq, eqb, eqb_iff,
}
use k3s_minecraft.Rcon.Pool.{
  Outcome, Event, opened, sent, closed, History, Slot, Line, drop, record_event, close_client,
  new_slot,
}

pub if-rule {ℓ} :
    {A : Type ℓ} (P : A → Type 0) (b : Bool) {x y : A} → P x → P y → P (if b then x else y)
if-rule P true px py = px
if-rule P false px py = py

-- A connection, and the key that it was opened with.
abbrev pub Open : Type 0
Open = Option (ℕ × Option Text)

-- The connection that is open after the events, from the one open before them. `none` for a history
-- that no client in order has: a second connection opened beside the first, or a command or a close
-- on a connection that is not the open one.
abbrev pub step : Event → Open → Option Open
step (opened c key) none = some (some (c, some key))
step (opened c key) (some d) = none
step (sent c cmd o) none = none
step (sent c cmd o) (some (d, key)) = if eqb c d then some (some (d, key)) else none
step (closed c) none = none
step (closed c) (some (d, key)) = if eqb c d then some none else none

abbrev next {ℓ} : {A : Type ℓ} → Option A → (A → Option A) → Option A
next none f = none
next (some a) f = f a

abbrev pub follow : Open → History → Option Open
follow cur [] = some cur
follow cur (e ∷ h) = next (step e cur) (λ c. follow c h)

follow-append :
    (cur : Open) (h k : History) → follow cur (h ++ k) ≡ next (follow cur h) (λ c. follow c k)
follow-append cur [] k = refl
follow-append cur (e ∷ h) k = go (step e cur) (λ c. follow-append c h k)
  where
    go :
        (o : Option Open)
        → ((c : Open) → follow c (h ++ k) ≡ next (follow c h) (λ d. follow d k))
        → next o (λ c. follow c (h ++ k)) ≡ next (next o (λ c. follow c h)) (λ c. follow c k)
    go none ih = refl
    go (some c) ih = ih c

abbrev pub held_of : Option ℕ → Option Text → Open
held_of none key = none
held_of (some c) key = some (c, key)

abbrev pub held : Slot → Open
held slot = held_of slot.client slot.key

-- The slot's client is the connection that its world's history leaves open, and the slot's key is the
-- one that this connection was opened with.
abbrev pub IsSynced : Line → Type 0
IsSynced l = follow none l.events ≡ some (held l.slot)

pub IsSynced-new : IsSynced (record { slot = new_slot; events = [] })
IsSynced-new = refl

-- An event that the open connection allows.
pub IsSynced-event :
    (e : Event) (l : Line) {after : Open} (slot : Slot)
    → IsSynced l
    → step e (held l.slot) ≡ some after
    → held slot ≡ after
    → IsSynced (record { slot = slot; events = l.events ++ e ∷ [] })
IsSynced-event e l slot h s c = rw (follow-append none l.events (e ∷ []), h, s, c)

close_step :
    (c : ℕ) (o : Option ℕ) (key : Option Text)
    → o ≡ some c
    → step (closed c) (held_of o key) ≡ some none
close_step c none key e = cc
close_step c (some d) key e = ground (arith, eqb_iff c d)

sent_step :
    (c : ℕ) (cmd : Text) (r : Outcome) (o : Option ℕ) (key : Option Text)
    → o ≡ some c
    → step (sent c cmd r) (held_of o key) ≡ some (held_of o key)
sent_step c cmd r none key e = cc
sent_step c cmd r (some d) key e = ground (arith, eqb_iff c d)

IsSynced-close_client :
    (c : Option ℕ) (l : Line) (slot : Slot)
    → l.slot.client ≡ c
    → slot.client ≡ none
    → IsSynced l
    → IsSynced (close_client c (record l { slot = slot }))
unfolding close_client record_event
IsSynced-close_client none l slot e n h =
    h ∙ ap some (ap (λ x. held_of x l.slot.key) e ∙ sym (ap (λ x. held_of x slot.key) n))
IsSynced-close_client (some c) l slot e n h =
    IsSynced-event (closed c) l slot h (close_step c l.slot.client l.slot.key e)
      (ap (λ x. held_of x slot.key) n)

pub IsSynced-drop : (l : Line) → IsSynced l → IsSynced (drop l)
unfolding drop
IsSynced-drop l h = IsSynced-close_client l.slot.client l _ refl refl h

client-close_client : (c : Option ℕ) (l : Line) → (close_client c l).slot ≡ l.slot
unfolding close_client record_event
client-close_client none l = refl
client-close_client (some c) l = refl

pub slot-drop :
    (l : Line) → (drop l).slot ≡ record l.slot { client = none; key = none; evict_pending = false }
unfolding drop
slot-drop l = client-close_client l.slot.client _

pub client-drop : (l : Line) → (drop l).slot.client ≡ none
client-drop l = ap (λ (s : Slot). s.client) (slot-drop l)

pub IsSynced-sent :
    (c : ℕ) (cmd : Text) (r : Outcome) (l : Line)
    → IsSynced l
    → l.slot.client ≡ some c
    → IsSynced (record_event (sent c cmd r) l)
unfolding record_event
IsSynced-sent c cmd r l h e =
    IsSynced-event (sent c cmd r) l l.slot h (sent_step c cmd r _ _ e) refl
