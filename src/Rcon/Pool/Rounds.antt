-- ===== src/Rcon/Pool/Rounds.antt =====
-- src/mcdash/rcon.py: the branches of a round of the loop in `RconPool.run`.
use k3s_minecraft.Prelude.{Text, ℕ, Bool, text_eq}
use k3s_minecraft.Rcon.Pool.{
  when_ready, when_replied, Failure, Outcome, reply, failed, Line, Result, raised, no_connection,
  Ready, ready, not_ready,
}

abbrev pub line_of : Ready → Line
line_of (ready c reused l) = l
line_of (not_ready f l) = l

-- What holds of the rest of a round, if it holds on each branch.
pub when_ready-rule :
    (P : Result × Line → Type 0) (x : Ready) (go : ℕ → Bool → Line → Result × Line)
    → ((f : Failure) → P (raised (no_connection f), line_of x))
    → ((c : ℕ) (reused : Bool) → P (go c reused (line_of x)))
    → P (when_ready x go)
unfolding when_ready
when_ready-rule P (ready c reused l) go no' yes' = yes' c reused
when_ready-rule P (not_ready f l) go no' yes' = no' f

pub when_replied-rule :
    (P : Result × Line → Type 0) (o : Outcome) (go : Text → Result × Line)
    (fail : Failure → Result × Line)
    → ((t : Text) → P (go t))
    → ((f : Failure) → P (fail f))
    → P (when_replied o go fail)
unfolding when_replied
when_replied-rule P (reply t) go fail h k = h t
when_replied-rule P (failed f) go fail h k = k f
