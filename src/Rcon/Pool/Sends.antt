-- ===== src/Rcon/Pool/Sends.antt =====
-- src/mcdash/rcon.py: which commands a run of `RconPool` may have made the server execute.
use native.Mathlib.Nat.{zero-add}
use k3s_minecraft.Prelude.{
  Text, ℕ, zero, suc, ◌+◌, Bool, true, false, ◌&&◌, Option, none, some, List, [], ◌∷◌, ◌++◌,
  append-nil, append_assoc, ◌≡◌, refl, sym, ◌∙◌, ap, arith, if◌then◌else◌, length, length-append,
  any, ltb, Bool-cases, inl, inr, text_eq,
}
use k3s_minecraft.Rcon.Pool.{
  record_event, close_client, connect_client, ready_with, touch, Failure, unsent, broken, other,
  Outcome, reply, failed, Event, opened, sent, closed, History, Connected, connection, refused,
  Peer, Line, RunError, Result, replies, raised, too_long, no_connection, command_failed, drop,
  drop_stale, ready, not_ready, ready_client, retryable, run_loop, run_slot, max_command,
}
use k3s_minecraft.Rcon.Pool.Rounds.{line_of, when_ready-rule, when_replied-rule}

-- The commands that the server may have executed: all that were sent, but for those of which it is
-- sure that they did not leave the process.
abbrev pub executed : History → List Text
executed [] = []
executed (opened c key ∷ h) = executed h
executed (closed c ∷ h) = executed h
executed (sent c cmd (reply t) ∷ h) = cmd ∷ executed h
executed (sent c cmd (failed unsent) ∷ h) = executed h
executed (sent c cmd (failed broken) ∷ h) = cmd ∷ executed h
executed (sent c cmd (failed other) ∷ h) = cmd ∷ executed h

executed-append : (h k : History) → executed (h ++ k) ≡ executed h ++ executed k
executed-append [] k = refl
executed-append (opened c key ∷ h) k = executed-append h k
executed-append (closed c ∷ h) k = executed-append h k
executed-append (sent c cmd (reply t) ∷ h) k = ap (λ r. cmd ∷ r) (executed-append h k)
executed-append (sent c cmd (failed unsent) ∷ h) k = executed-append h k
executed-append (sent c cmd (failed broken) ∷ h) k = ap (λ r. cmd ∷ r) (executed-append h k)
executed-append (sent c cmd (failed other) ∷ h) k = ap (λ r. cmd ∷ r) (executed-append h k)

abbrev pub ran : Line → List Text
ran l = executed l.events

ran-record_event : (e : Event) (l : Line) → ran (record_event e l) ≡ ran l ++ executed (e ∷ [])
unfolding record_event
ran-record_event e l = executed-append l.events (e ∷ [])

ran-close_client : (c : Option ℕ) (l : Line) → ran (close_client c l) ≡ ran l
unfolding close_client
ran-close_client none l = refl
ran-close_client (some c) l = ran-record_event (closed c) l ∙ append-nil (ran l)

ran-drop : (l : Line) → ran (drop l) ≡ ran l
unfolding drop
ran-drop l = ran-close_client l.slot.client _

ran-drop_stale : (key : Text) (l : Line) → ran (drop_stale key l) ≡ ran l
unfolding drop_stale
ran-drop_stale key l = ground (arith, ran-drop l)

module _ (p : Peer) (key : Text) where
  ran-connect_client : (l : Line) → ran (line_of (connect_client p key l)) ≡ ran l
  unfolding connect_client
  ran-connect_client l =
      elim (p.connect l.events)
        as (λ (a : Connected).
          ran (
            line_of (elim a [
              | refused f ↦ not_ready f l
              | connection c ↦ ready c false (
                  record_event (opened c key)
                    (record l { slot = record l.slot { client = some c; key = some key } }))
            ]))
          ≡ ran l) [
            | refused f ↦ refl
            | connection c ↦ ran-record_event (opened c key) l ∙ append-nil (ran l)
          ]

  ran-ready_with : (c : Option ℕ) (l : Line) → ran (line_of (ready_with p c key l)) ≡ ran l
  unfolding ready_with
  ran-ready_with none l = ran-connect_client l
  ran-ready_with (some c) l = elim (Bool-cases (p.alive l.events c)) [
    | inl yes' ↦ rw yes'
    | inr dead ↦ rw dead (ran-connect_client (drop l) ∙ ran-drop l)
  ]

  ran-ready_client : (l : Line) → ran (line_of (ready_client p key l)) ≡ ran l
  unfolding ready_client
  ran-ready_client l = ran-ready_with l.slot.client l

-- A run of `cmds` that took the commands executed from `before` to `after` executed some of the
-- first of them, each once and in order; all of them if it returned, and with one reply to each.
abbrev Answered : Result → ℕ → List Text → Type 0
Answered (replies ts) n rest = (rest ≡ []) × (length ts ≡ n)
Answered (raised e) n rest = Unit

pub record RanInOrder (cmds : List Text) (before after : List Text) (n : ℕ) (result : Result)
    : Type 0 where
  pub done : List Text
  pub rest : List Text
  pub split : cmds ≡ done ++ rest
  pub grown : after ≡ before ++ done
  pub answered : Answered result n rest

stopped :
    (cmds : List Text) (before after : List Text) (n : ℕ) (e : RunError)
    → after ≡ before
    → RanInOrder cmds before after n (raised e)
stopped cmds before after n e h = record {
  done = [];
  rest = cmds;
  split = refl;
  grown = h ∙ sym (append-nil before);
  answered = tt;
}

-- A failed send ends the run: the command may have been executed, or it was not.
failed_send :
    (cmd : Text) (cmds : List Text) (before after : List Text) (n c : ℕ) (f : Failure)
    → after ≡ before ++ executed (sent c cmd (failed f) ∷ [])
    → RanInOrder (cmd ∷ cmds) before after n (raised (command_failed f))
failed_send cmd cmds before after n c unsent h =
    stopped (cmd ∷ cmds) before after n (command_failed unsent) (h ∙ append-nil before)
failed_send cmd cmds before after n c broken h = record {
  done = cmd ∷ [];
  rest = cmds;
  split = refl;
  grown = h;
  answered = tt;
}
failed_send cmd cmds before after n c other h = record {
  done = cmd ∷ [];
  rest = cmds;
  split = refl;
  grown = h;
  answered = tt;
}

from_same :
    {cmds before mid after : List Text} {n : ℕ} {result : Result}
    → mid ≡ before
    → RanInOrder cmds mid after n result
    → RanInOrder cmds before after n result
from_same e r = rw (← e) r

-- Without `retry_sent` the loop tries again only after an unsent command.
retry-rule :
    (P : Result × Line → Type 0) (reused : Bool) (f : Failure) {again stop : Result × Line}
    → (f ≡ unsent → P again)
    → P stop
    → P (if reused && retryable false f then again else stop)
retry-rule P false f h k = k
retry-rule P true unsent h k = h refl
retry-rule P true broken h k = k
retry-rule P true other h k = k

after_reply :
    (cmd : Text) (cmds : List Text) (before mid after : List Text) (n m : ℕ) (result : Result)
    → mid ≡ before ++ cmd ∷ []
    → n ≡ m
    → RanInOrder cmds mid after n result
    → RanInOrder (cmd ∷ cmds) before after m result
after_reply cmd cmds before mid after n m result h k r = record {
  done = cmd ∷ r.done;
  rest = r.rest;
  split = ap (λ x. cmd ∷ x) r.split;
  grown = r.grown ∙ rw h (append_assoc before (cmd ∷ []) r.done);
  answered = rw (← k) r.answered;
}

module _ (p : Peer) (key : Text) where
  abbrev InOrder : List Text → Line → ℕ → Result × Line → Type 0
  InOrder cmds l n (result, after) = RanInOrder cmds (ran l) (ran after) n result

  -- What is recorded of a sent command, whatever the rest of the line.
  ran_after_send :
      (l : Line) (c : ℕ) (cmd : Text) (o : Outcome)
      → ran (record_event (sent c cmd o) (line_of (ready_client p key l)))
        ≡ ran l ++ executed (sent c cmd o ∷ [])
  ran_after_send l c cmd o =
      ran-record_event (sent c cmd o) (line_of (ready_client p key l))
      ∙ ap (λ h. h ++ executed (sent c cmd o ∷ [])) (ran-ready_client p key l)

  ran_after_failure :
      (l : Line) (c : ℕ) (cmd : Text) (f : Failure)
      → ran (drop (record_event (sent c cmd (failed f)) (line_of (ready_client p key l))))
        ≡ ran l ++ executed (sent c cmd (failed f) ∷ [])
  ran_after_failure l c cmd f = ran-drop _ ∙ ran_after_send l c cmd (failed f)

  abbrev replied : Line → ℕ → Text → Text → Line
  replied l c cmd t = touch p (record_event (sent c cmd (reply t)) (line_of (ready_client p key l)))

  round_length :
      (out : List Text) (t : Text) (n : ℕ) → length (out ++ t ∷ []) + n ≡ length out + suc n
  round_length out t n = omega (arith, length-append {0} out (t ∷ []))

  run_loop-InOrder :
      (r : ℕ) (cmds out : List Text) (l : Line)
      → InOrder cmds l (length out + length cmds) (run_loop p key false r cmds out l)
  unfolding run_loop
  run_loop-InOrder zero [] out l = record {
    done = [];
    rest = [];
    split = refl;
    grown = sym (append-nil (ran l));
    answered = (refl, omega arith);
  }
  run_loop-InOrder (suc r) [] out l = record {
    done = [];
    rest = [];
    split = refl;
    grown = sym (append-nil (ran l));
    answered = (refl, omega arith);
  }
  run_loop-InOrder zero (cmd ∷ cmds) out l =
      when_ready-rule (InOrder (cmd ∷ cmds) l (length out + length (cmd ∷ cmds)))
        (ready_client p key l) _
        (λ f. stopped (cmd ∷ cmds) (ran l) _ _ (no_connection f) (ran-ready_client p key l))
        λ c reused.
          when_replied-rule (InOrder (cmd ∷ cmds) l (length out + length (cmd ∷ cmds))) _ _ _
            (λ t.
              after_reply cmd cmds (ran l) _ _ _ _ _ (ran_after_send l c cmd (reply t))
                (round_length out t (length cmds))
                (run_loop-InOrder zero cmds (out ++ t ∷ []) (replied l c cmd t)))
            (λ f. failed_send cmd cmds (ran l) _ _ c f (ran_after_failure l c cmd f))
  run_loop-InOrder (suc r) (cmd ∷ cmds) out l =
      when_ready-rule (InOrder (cmd ∷ cmds) l (length out + length (cmd ∷ cmds)))
        (ready_client p key l) _
        (λ f. stopped (cmd ∷ cmds) (ran l) _ _ (no_connection f) (ran-ready_client p key l))
        λ c reused.
          when_replied-rule (InOrder (cmd ∷ cmds) l (length out + length (cmd ∷ cmds))) _ _ _
            (λ t.
              after_reply cmd cmds (ran l) _ _ _ _ _ (ran_after_send l c cmd (reply t))
                (round_length out t (length cmds))
                (run_loop-InOrder (suc r) cmds (out ++ t ∷ []) (replied l c cmd t)))
            (λ f.
              retry-rule (InOrder (cmd ∷ cmds) l (length out + length (cmd ∷ cmds))) reused f
                (λ e. from_same (ran_after_failure l c cmd f ∙ rw e (append-nil (ran l))) (
                  run_loop-InOrder r (cmd ∷ cmds) out
                    (drop (record_event (sent c cmd (failed f)) (line_of (ready_client p key l))))))
                (failed_send cmd cmds (ran l) _ _ c f (ran_after_failure l c cmd f)))

  run_slot-InOrder :
      (cmds : List Text) (l : Line) → InOrder cmds l (length cmds) (run_slot p key false cmds l)
  unfolding run_slot
  run_slot-InOrder cmds l = elim (Bool-cases (any (λ c. ltb max_command (length c)) cmds)) [
    | inl long ↦ rw long (stopped cmds (ran l) _ _ too_long refl)
    | inr short ↦ rw short (
        rw zero-add at
          (from_same (ran-drop_stale key l) (run_loop-InOrder 1 cmds [] (drop_stale key l))))
  ]

-- A run of commands that are not marked as safe to repeat may have made the server execute only
-- the first ones of them, each at most once and in order. If it returns, all were executed and
-- each has one reply.
pub run_slot-RanInOrder :
    (p : Peer) (key : Text) (cmds : List Text) (l : Line)
    → RanInOrder cmds
        (ran l)
        (ran (run_slot p key false cmds l).1)
        (length cmds)
        (run_slot p key false cmds l).0
run_slot-RanInOrder p key cmds l = run_slot-InOrder p key cmds l
