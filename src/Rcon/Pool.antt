-- ===== src/Rcon/Pool.antt =====
-- src/mcdash/rcon.py: `RconPool`, which keeps one connection for each world.
-- The servers and their sockets are a `Peer`: each answer may depend on all that happened before.
pub mod Rounds
pub mod Sends
pub mod Synced
pub mod Slots
use k3s_minecraft.Prelude.{
  Text, ℕ, zero, suc, ◌-◌, Bool, true, false, ◌&&◌, ◌||◌, not, Option, none, some, List, [], ◌∷◌,
  ◌++◌, if◌then◌else◌, ltb, leb, length, any, text_eq, ◌==◌,
}

abbrev pub max_command : ℕ
max_command = 1446

-- Why `command` or `connect` raised: `RconUnsentError`, another `RconError` or `OSError`, or an
-- exception of another class.
pub data Failure : Type 0 where
  unsent broken other : Failure

pub data Outcome : Type 0 where
  reply : Text → Outcome
  failed : Failure → Outcome

-- What a run of the pool does to the outside, oldest first. A connection is opened with a key.
pub data Event : Type 0 where
  opened : ℕ → Text → Event
  sent : ℕ → Text → Outcome → Event
  closed : ℕ → Event

abbrev pub History : Type 0
History = List Event

pub data Connected : Type 0 where
  connection : ℕ → Connected
  refused : Failure → Connected

-- `connect`, `RconApi` and the clock, which are not the pool's.
pub record Peer : Type 0 where
  pub connect : History → Connected
  pub alive : History → ℕ → Bool
  pub command : History → ℕ → Text → Outcome
  pub clock : History → ℕ

-- `_Slot`. A key is what the client was opened with, a target the identity of the server pod.
pub record Slot : Type 0 where
  pub locked : Bool
  pub client : Option ℕ
  pub key : Option Text
  pub target : Option Text
  pub last_used : ℕ
  pub evict_pending : Bool

abbrev pub new_slot : Slot
new_slot = record {
  locked = false;
  client = none;
  key = none;
  target = none;
  last_used = 0;
  evict_pending = false;
}

-- A slot, and what has happened on its world's connections.
pub record Line : Type 0 where
  pub slot : Slot
  pub events : History

pub data RunError : Type 0 where
  too_long : RunError
  no_connection : Failure → RunError
  command_failed : Failure → RunError

pub data Result : Type 0 where
  replies : List Text → Result
  raised : RunError → Result

unfoldable pub record_event : Event → Line → Line
record_event e l = record l { events = l.events ++ e ∷ [] }

unfoldable pub close_client : Option ℕ → Line → Line
unfolding record_event
close_client none l = l
close_client (some c) l = record_event (closed c) l

-- `_drop`: an exception of `close` is suppressed.
unfoldable pub drop : Line → Line
unfolding close_client
drop l =
    close_client l.slot.client
      (record l { slot = record l.slot { client = none; key = none; evict_pending = false } })

-- Whether the slot's client was opened with another key.
abbrev pub other_key : Option ℕ → Option Text → Text → Bool
other_key none k key = false
other_key (some c) none key = true
other_key (some c) (some k) key = not (k == key)

unfoldable pub drop_stale : Text → Line → Line
unfolding drop
drop_stale key l =
    if l.slot.evict_pending || other_key l.slot.client l.slot.key key then drop l else l

-- A client to send on, with `reused`, or the error of `connect`.
pub data Ready : Type 0 where
  ready : ℕ → Bool → Line → Ready
  not_ready : Failure → Line → Ready

module _ (p : Peer) where
  unfoldable pub connect_client : Text → Line → Ready
  unfolding record_event
  connect_client key l = elim (p.connect l.events) [
    | refused f ↦ not_ready f l
    | connection c ↦ ready c false (
        record_event (opened c key)
          (record l { slot = record l.slot { client = some c; key = some key } }))
  ]

  unfoldable pub ready_with : Option ℕ → Text → Line → Ready
  unfolding connect_client drop
  ready_with none key l = connect_client key l
  ready_with (some c) key l =
      if p.alive l.events c then ready c true l else connect_client key (drop l)

  unfoldable pub ready_client : Text → Line → Ready
  unfolding ready_with
  ready_client key l = ready_with l.slot.client key l

  -- `slot.last_used = self.clock()`
  unfoldable pub touch : Line → Line
  touch l = record l { slot = record l.slot { last_used = p.clock l.events } }

-- `unsent or (retry_sent and rcon_err)`; `RconUnsentError` is an `RconError`.
abbrev pub retryable : Bool → Failure → Bool
retryable retry_sent unsent = true
retryable retry_sent broken = retry_sent
retryable retry_sent other = false

-- The rest of a round: after a client was found or not, and after the reply or the exception.
unfoldable pub when_ready : Ready → (ℕ → Bool → Line → Result × Line) → Result × Line
when_ready (ready c reused l) go = go c reused l
when_ready (not_ready f l) go = (raised (no_connection f), l)

unfoldable pub when_replied :
    Outcome → (Text → Result × Line) → (Failure → Result × Line) → Result × Line
when_replied (reply t) go fail = go t
when_replied (failed f) go fail = fail f

module _ (p : Peer) (key : Text) (retry_sent : Bool) where
  -- The `while` loop. The first argument is the number of retries left: 1 until `retried` is set.
  unfoldable pub run_loop : ℕ → List Text → List Text → Line → Result × Line
  unfolding ready_client record_event drop touch when_ready when_replied
  run_loop retries [] out l = (replies out, l)
  run_loop zero (cmd ∷ cmds) out l = when_ready (ready_client p key l) λ c reused l₁.
      when_replied (p.command l₁.events c cmd)
        (λ t. run_loop zero cmds (out ++ t ∷ []) (touch p (record_event (sent c cmd (reply t)) l₁)))
        (λ f. (raised (command_failed f), drop (record_event (sent c cmd (failed f)) l₁)))
  run_loop (suc r) (cmd ∷ cmds) out l = when_ready (ready_client p key l) λ c reused l₁.
      when_replied (p.command l₁.events c cmd)
        (λ t.
          run_loop (suc r) cmds (out ++ t ∷ []) (touch p (record_event (sent c cmd (reply t)) l₁)))
        (λ f.
          let again =
            run_loop r (cmd ∷ cmds) out (drop (record_event (sent c cmd (failed f)) l₁)) in
          if reused && retryable retry_sent f
          then again
          else (raised (command_failed f), drop (record_event (sent c cmd (failed f)) l₁)))

  -- `run`, in the time in which the slot's lock is held.
  unfoldable pub run_slot : List Text → Line → Result × Line
  unfolding run_loop drop_stale any
  run_slot cmds l =
      if any (λ c. ltb max_command (length c)) cmds
      then (raised too_long, l)
      else run_loop 1 cmds [] (drop_stale key l)

-- `evict`: a slot in use is marked, and the next run drops its connection.
unfoldable pub evict : Line → Line
unfolding drop
evict l =
    if l.slot.locked then record l { slot = record l.slot { evict_pending = true } } else drop l

abbrev pub changed : Option Text → Option Text → Bool
changed none none = true
changed (some old) none = true
changed none (some new) = false
changed (some old) (some new) = not (old == new)

unfoldable pub note_target : Option Text → Line → Line
unfolding evict
note_target target l =
    let l₁ = if changed l.slot.target target then evict l else l in
    record l₁ { slot = record l₁.slot { target = target } }

abbrev is_connected : Option ℕ → Bool
is_connected none = false
is_connected (some c) = true

-- One round of `sweep_idle`: whether the world is listed, and its slot afterwards.
unfoldable pub sweep_slot : ℕ → ℕ → Line → Bool × Line
unfolding drop
sweep_slot idle_timeout now l =
    if not l.slot.locked
      && is_connected l.slot.client
      && (l.slot.evict_pending || leb idle_timeout (now - l.slot.last_used))
    then (true, drop l)
    else (false, l)
