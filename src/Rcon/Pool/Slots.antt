-- ===== src/Rcon/Pool/Slots.antt =====
-- src/mcdash/rcon.py: a world has at most one connection, and its commands go to no other.
use k3s_minecraft.Prelude.{
  Text, ℕ, zero, suc, Bool, true, false, ◌&&◌, Option, none, some, List, [], ◌∷◌, ◌≡◌, ◌≢◌, refl,
  ap, arith, length, any, ltb, Bool-cases, inl, inr, text_eq, nat_eq,
}
use k3s_minecraft.Rcon.Pool.{
  Failure, reply, failed, opened, sent, Connected, connection, refused, Peer, Line, Result, drop,
  drop_stale, Ready, ready, not_ready, ready_client, retryable, run_loop, run_slot, max_command,
  record_event, connect_client, ready_with, touch, when_ready, evict, note_target, sweep_slot,
  new_slot, changed, other_key,
}
use k3s_minecraft.Rcon.Pool.Rounds.{when_replied-rule}
use k3s_minecraft.Rcon.Pool.Synced.{
  if-rule, step, held_of, IsSynced, IsSynced-event, IsSynced-drop, IsSynced-sent, client-drop,
  IsSynced-new,
}

-- The slot's key is this one, if it has a client.
abbrev pub IsFor : Text → Line → Type 0
IsFor key l = (c : ℕ) → l.slot.client ≡ some c → l.slot.key ≡ some key

pub record IsGood (key : Text) (l : Line) : Type 0 where
  pub synced : IsSynced l
  pub keyed : IsFor key l

IsGood-drop : (key : Text) (l : Line) → IsSynced l → IsGood key (drop l)
IsGood-drop key l h = record { synced = IsSynced-drop l h; keyed = λ c e. cc (client-drop l) }

module _ (p : Peer) (key : Text) where
  -- A client that is ready is the slot's, and was opened with the key.
  abbrev ReadyGood : Ready → Type 0
  ReadyGood (ready c reused l) = IsSynced l × (l.slot.client ≡ some c) × (l.slot.key ≡ some key)
  ReadyGood (not_ready f l) = IsGood key l

  connect_client-ReadyGood :
      (l : Line) → IsGood key l → l.slot.client ≡ none → ReadyGood (connect_client p key l)
  unfolding connect_client record_event
  connect_client-ReadyGood l g n =
      elim (p.connect l.events)
        as (λ (a : Connected). ReadyGood (elim a [
          | refused f ↦ not_ready f l
          | connection c ↦ ready c false (
              record_event (opened c key)
                (record l { slot = record l.slot { client = some c; key = some key } }))
        ])) [
          | refused f ↦ g
          | connection c ↦ (
            IsSynced-event (opened c key) l (record l.slot { client = some c; key = some key })
                g.synced (ap (λ x. step (opened c key) (held_of x l.slot.key)) n) refl,
            refl,
            refl,
          )
        ]

  ready_with-ReadyGood :
      (c : Option ℕ) (l : Line)
      → l.slot.client ≡ c
      → IsGood key l
      → ReadyGood (ready_with p c key l)
  unfolding ready_with
  ready_with-ReadyGood none l e g = connect_client-ReadyGood l g e
  ready_with-ReadyGood (some c) l e g = elim (Bool-cases (p.alive l.events c)) [
    | inl live ↦ rw live (g.synced, e, g.keyed c e)
    | inr dead ↦
        rw dead (connect_client-ReadyGood (drop l) (IsGood-drop key l g.synced) (client-drop l))
  ]

  ready_client-ReadyGood : (l : Line) → IsGood key l → ReadyGood (ready_client p key l)
  unfolding ready_client
  ready_client-ReadyGood l g = ready_with-ReadyGood l.slot.client l refl g

  abbrev GoodAfter : Result × Line → Type 0
  GoodAfter (r, l) = IsGood key l

  -- A round, from a line that is good to one that is.
  when_ready-good :
      (x : Ready) (go : ℕ → Bool → Line → Result × Line)
      → ReadyGood x
      → ((c : ℕ) (reused : Bool) (l : Line)
          → IsSynced l
          → l.slot.client ≡ some c
          → l.slot.key ≡ some key
          → GoodAfter (go c reused l))
      → GoodAfter (when_ready x go)
  unfolding when_ready
  when_ready-good (ready c reused l) go (s, e, k) h = h c reused l s e k
  when_ready-good (not_ready f l) go g h = g

  IsGood-replied :
      (c : ℕ) (cmd t : Text) (l : Line)
      → IsSynced l
      → l.slot.client ≡ some c
      → l.slot.key ≡ some key
      → IsGood key (touch p (record_event (sent c cmd (reply t)) l))
  unfolding touch record_event
  IsGood-replied c cmd t l s e k = record {
    synced = unfold record_event in IsSynced-sent c cmd (reply t) l s e;
    keyed = λ d _. k;
  }

  IsGood-failed :
      (c : ℕ) (cmd : Text) (f : Failure) (l : Line)
      → IsSynced l
      → l.slot.client ≡ some c
      → IsGood key (drop (record_event (sent c cmd (failed f)) l))
  IsGood-failed c cmd f l s e = IsGood-drop key _ (IsSynced-sent c cmd (failed f) l s e)

module _ (p : Peer) (key : Text) (retry_sent : Bool) where
  run_loop-IsGood :
      (r : ℕ) (cmds out : List Text) (l : Line)
      → IsGood key l
      → IsGood key (run_loop p key retry_sent r cmds out l).1
  unfolding run_loop
  run_loop-IsGood zero [] out l g = g
  run_loop-IsGood (suc r) [] out l g = g
  run_loop-IsGood zero (cmd ∷ cmds) out l g =
      when_ready-good p key (ready_client p key l) _ (ready_client-ReadyGood p key l g)
        λ c reused l₁ s e k.
          when_replied-rule (GoodAfter p key) (p.command l₁.events c cmd) _ _
            (λ t. run_loop-IsGood zero cmds _ _ (IsGood-replied p key c cmd t l₁ s e k))
            (λ f. IsGood-failed p key c cmd f l₁ s e)
  run_loop-IsGood (suc r) (cmd ∷ cmds) out l g =
      when_ready-good p key (ready_client p key l) _ (ready_client-ReadyGood p key l g)
        λ c reused l₁ s e k.
          when_replied-rule (GoodAfter p key) (p.command l₁.events c cmd) _ _
            (λ t. run_loop-IsGood (suc r) cmds _ _ (IsGood-replied p key c cmd t l₁ s e k))
            (λ f.
              if-rule (GoodAfter p key) (reused && retryable retry_sent f)
                (run_loop-IsGood r (cmd ∷ cmds) out _ (IsGood-failed p key c cmd f l₁ s e))
                (IsGood-failed p key c cmd f l₁ s e))

module _ (key : Text) where
  keyed_by :
      (c : Option ℕ) (k : Option Text) (d : ℕ)
      → other_key c k key ≡ false
      → c ≡ some d
      → k ≡ some key
  keyed_by none k d h e = cc
  keyed_by (some c) none d h e = cc
  keyed_by (some c) (some k) d h e = ap some (ground (arith, text_eq.same_iff k key))

  drop_stale-IsGood : (l : Line) → IsSynced l → IsGood key (drop_stale key l)
  unfolding drop_stale
  drop_stale-IsGood l h = elim (Bool-cases (l.slot.evict_pending)) [
    | inl marked ↦ rw marked (IsGood-drop key l h)
    | inr unmarked ↦ rw unmarked (elim (Bool-cases (other_key l.slot.client l.slot.key key)) [
      | inl old ↦ rw old (IsGood-drop key l h)
      | inr same ↦
          rw same (record { synced = h; keyed = λ c e. keyed_by l.slot.client l.slot.key c same e })
    ])
  ]

  -- After a run of commands that are not too long, on a slot in order, the connection that the
  -- world's history leaves open, if any, is the slot's client and was opened with the run's key.
  pub run_slot-IsGood :
      (p : Peer) (retry_sent : Bool) (cmds : List Text) (l : Line)
      → IsSynced l
      → any (λ c. ltb max_command (length c)) cmds ≡ false
      → IsGood key (run_slot p key retry_sent cmds l).1
  unfolding run_slot
  run_slot-IsGood p retry_sent cmds l h short =
      rw short (run_loop-IsGood p key retry_sent 1 cmds [] _ (drop_stale-IsGood l h))

  run_slot-IsSynced :
      (p : Peer) (retry_sent : Bool) (cmds : List Text) (l : Line)
      → IsSynced l
      → IsSynced (run_slot p key retry_sent cmds l).1
  run_slot-IsSynced p retry_sent cmds l h =
      elim (Bool-cases (any (λ c. ltb max_command (length c)) cmds)) [
        | inl long ↦ unfold run_slot in rw long h
        | inr short ↦ (run_slot-IsGood p retry_sent cmds l h short).synced
      ]

evict-IsSynced : (l : Line) → IsSynced l → IsSynced (evict l)
unfolding evict
evict-IsSynced l h = if-rule IsSynced l.slot.locked h (IsSynced-drop l h)

note_target-IsSynced : (t : Option Text) (l : Line) → IsSynced l → IsSynced (note_target t l)
unfolding note_target
note_target-IsSynced t l h = if-rule IsSynced (changed l.slot.target t) (evict-IsSynced l h) h

sweep_slot-IsSynced : (idle now : ℕ) (l : Line) → IsSynced l → IsSynced (sweep_slot idle now l).1
unfolding sweep_slot
sweep_slot-IsSynced idle now l h =
    if-rule (λ (r : Bool × Line). IsSynced r.1) _ (IsSynced-drop l h) h

-- What callers do with a world's slot. `busy` says whether another thread holds the slot's lock.
pub data Use : Type 0 where
  run_with : Text → Bool → List Text → Use
  evict_now : Bool → Use
  note : Bool → Option Text → Use
  sweep : Bool → ℕ → ℕ → Use

abbrev lock_held : Bool → Line → Line
lock_held busy l = record l { slot = record l.slot { locked = busy } }

unfoldable pub perform : Peer → Use → Line → Line
unfolding run_slot evict note_target sweep_slot
perform p (run_with key retry_sent cmds) l = (run_slot p key retry_sent cmds l).1
perform p (evict_now busy) l = evict (lock_held busy l)
perform p (note busy t) l = note_target t (lock_held busy l)
perform p (sweep busy idle now) l = (sweep_slot idle now (lock_held busy l)).1

unfoldable pub perform_all : Peer → List Use → Line → Line
unfolding perform
perform_all p [] l = l
perform_all p (u ∷ us) l = perform_all p us (perform p u l)

perform-IsSynced : (p : Peer) (u : Use) (l : Line) → IsSynced l → IsSynced (perform p u l)
unfolding perform
perform-IsSynced p (run_with key retry_sent cmds) l h = run_slot-IsSynced key p retry_sent cmds l h
perform-IsSynced p (evict_now busy) l h = evict-IsSynced (lock_held busy l) h
perform-IsSynced p (note busy t) l h = note_target-IsSynced t (lock_held busy l) h
perform-IsSynced p (sweep busy idle now) l h = sweep_slot-IsSynced idle now (lock_held busy l) h

perform_all-IsSynced_from :
    (p : Peer) (us : List Use) (l : Line) → IsSynced l → IsSynced (perform_all p us l)
unfolding perform_all
perform_all-IsSynced_from p [] l h = h
perform_all-IsSynced_from p (u ∷ us) l h =
    perform_all-IsSynced_from p us _ (perform-IsSynced p u l h)

-- Whatever is done with a world's slot and whatever its servers answer: no second connection is
-- opened beside the first, every command and every close goes to the open one, and the slot's
-- client is the connection left open, if any, and its key the one that this was opened with.
pub perform_all-IsSynced :
    (p : Peer) (us : List Use)
    → IsSynced (perform_all p us (record { slot = new_slot; events = [] }))
perform_all-IsSynced p us = perform_all-IsSynced_from p us _ IsSynced-new

client-drop_stale :
    (key : Text) (l : Line) → l.slot.client ≡ none → (drop_stale key l).slot.client ≡ none
unfolding drop_stale
client-drop_stale key l h = if-rule (λ (m : Line). m.slot.client ≡ none) _ (client-drop l) h

client-evict : (l : Line) → l.slot.locked ≡ false → (evict l).slot.client ≡ none
unfolding evict
client-evict l free = ground (arith, client-drop l)

note_target_free :
    (l : Line) (t : Option Text)
    → changed l.slot.target t ≡ true
    → l.slot.locked ≡ false
    → (note_target t l).slot.client ≡ none
unfolding note_target
note_target_free l t h free = rw h (client-evict l free)

drop_stale_pending :
    (key : Text) (l : Line) → l.slot.evict_pending ≡ true → (drop_stale key l).slot.client ≡ none
unfolding drop_stale
drop_stale_pending key l h = rw h (client-drop l)

changed-other : (u t : Option Text) (old : Text) → u ≡ some old → t ≢ some old → changed u t ≡ true
changed-other none t old h ne = cc
changed-other (some x) none old h ne = refl
changed-other (some x) (some y) old h ne = ground (arith, text_eq.same_iff x y)

-- When the server pod noted was `old` and is now another or none, the next run starts without the
-- old connection, also where it was in use.
pub note_target-changed :
    (key : Text) (old : Text) (t : Option Text) (l : Line)
    → l.slot.target ≡ some old
    → t ≢ some old
    → (drop_stale key (note_target t l)).slot.client ≡ none
note_target-changed key old t l was now = elim (Bool-cases l.slot.locked) [
  | inl busy ↦
      drop_stale_pending key (note_target t l) (unfold note_target evict in rw (other, busy) refl)
  | inr free ↦ client-drop_stale key (note_target t l) (note_target_free l t other free)
]
  where
    other : changed l.slot.target t ≡ true
    other = changed-other l.slot.target t old was now
