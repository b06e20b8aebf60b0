-- ===== src/Tests/Runs.antt =====
-- src/mcdash/rcon.py on a peer that answers each command with the command.
use k3s_minecraft.Prelude.{
  Text, codes, ℕ, true, false, none, some, List, [], ◌∷◌, ◌≡◌, refl, length, any, list_beq, text_eq,
}
use k3s_minecraft.Rcon.Pool.{
  Outcome, reply, failed, broken, opened, History, connection, Peer, new_slot, Line, run_slot,
  drop_stale, note_target,
}
use k3s_minecraft.Rcon.Pool.Sends.{ran, RanInOrder, run_slot-RanInOrder}
use k3s_minecraft.Rcon.Pool.Synced.{IsSynced, IsSynced-new}
use k3s_minecraft.Rcon.Pool.Slots.{
  Use, run_with, evict_now, note, sweep, perform_all, perform_all-IsSynced, IsGood, run_slot-IsGood,
  note_target-changed,
}

-- The server closed each connection on which two commands were answered.
abbrev command : History → ℕ → Text → Outcome
command [] c cmd = reply cmd
command (e ∷ []) c cmd = reply cmd
command (e ∷ e' ∷ []) c cmd = reply cmd
command (e ∷ e' ∷ e'' ∷ h) c cmd = failed broken

abbrev peer : Peer
peer = record {
  connect = λ h. connection (length h);
  alive = λ h c. true;
  command = command;
  clock = λ h. length h;
}

abbrev fresh : Line
fresh = record { slot = new_slot; events = [] }

abbrev commands : List Text
commands = codes "save-off" ∷ codes "save-all flush" ∷ codes "list" ∷ []

run_slot-RanInOrder_example :
    RanInOrder commands
      (ran fresh)
      (ran (run_slot peer (codes "pod-1") false commands fresh).1)
      (length commands)
      (run_slot peer (codes "pod-1") false commands fresh).0
run_slot-RanInOrder_example = run_slot-RanInOrder peer (codes "pod-1") commands fresh

abbrev uses : List Use
uses =
    run_with (codes "pod-1") true commands
    ∷ note true (some (codes "pod-2"))
    ∷ sweep false 300 1000
    ∷ run_with (codes "pod-2") false commands
    ∷ evict_now false
    ∷ []

perform_all-IsSynced_example : IsSynced (perform_all peer uses fresh)
perform_all-IsSynced_example = perform_all-IsSynced peer uses

run_slot-IsGood_example :
    IsGood (codes "pod-1") (run_slot peer (codes "pod-1") true commands fresh).1
unfolding any codes
run_slot-IsGood_example = run_slot-IsGood (codes "pod-1") peer true commands fresh IsSynced-new refl

-- The slot of a world with a connection to its pod.
abbrev used : Line
used = record {
  slot = record new_slot {
    client = some 7;
    key = some (codes "pod-1");
    target = some (codes "pod-1");
  };
  events = opened 7 (codes "pod-1") ∷ [];
}

note_target-changed_example :
    (drop_stale (codes "pod-1") (note_target none used)).slot.client ≡ none
unfolding list_beq codes
note_target-changed_example =
    note_target-changed (codes "pod-1") (codes "pod-1") none used refl (λ e. cc)
