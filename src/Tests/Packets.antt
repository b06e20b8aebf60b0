-- ===== src/Tests/Packets.antt =====
-- src/mcdash/rcon.py: packets on a socket that gives what the server sends, and a printed list.
use Prim.Native.Nat.{◌<◌, ◌≤◌}
use k3s_minecraft.Prelude.{
  Text, codes, ℕ, zero, suc, true, List, [], ◌∷◌, ◌++◌, ◌≡◌, ◌≢◌, refl, arith, length, take, drop,
  join, strip, all,
}
use k3s_minecraft.Rcon.Client.{
  Bytes, encode_packet, got, chunk, Socket, serverdata_response_value, Client, recv_packet, command,
}
use k3s_minecraft.Rcon.Client.Packets.{IsStream, recv_packet-encode_packet}
use k3s_minecraft.Rcon.Client.Replies.{encode_parts, whole, command-whole}
use k3s_minecraft.Rcon.Console.{parse_list, AllPrinted, nil, cons, parse_list-join}

-- The state is what is still to come. The bytes come one at a time.
abbrev cut : Bytes → ℕ → Bytes
cut s k = take (suc zero) (take k s)

abbrev sock : Socket Bytes
sock = record {
  recv = λ s k. (chunk (cut s k), drop (length (cut s k)) s);
  sendall = λ s b. (true, s);
}

cut-drop : (s : Bytes) (k : ℕ) → 0 < k → s ≢ [] → s ≡ cut s k ++ drop (length (cut s k)) s
cut-drop [] k h ne = absurd (ne refl)
cut-drop (b ∷ s) zero h ne = absurd (omega arith)
cut-drop (b ∷ s) (suc k) h ne = refl

length-cut : (s : Bytes) (k : ℕ) → 0 < k → s ≢ [] → (0 < length (cut s k)) × (length (cut s k) ≤ k)
length-cut [] k h ne = absurd (ne refl)
length-cut (b ∷ s) zero h ne = absurd (omega arith)
length-cut (b ∷ s) (suc k) h ne = (omega arith, omega arith)

stream : IsStream sock (λ s. s)
stream = record {
  cut = cut;
  recv_eq = λ s k h ne. (refl, cut-drop s k h ne, (length-cut s k h ne).0, (length-cut s k h ne).1);
}

recv_packet-encode_packet_example :
    (s' : Bytes) × (recv_packet sock (encode_packet 7 2 (codes "list") ++ codes "rest")
      ≡ (got (record { req_id = 7; ptype = 2; body = codes "list" }), s'))
    × (s' ≡ codes "rest")
recv_packet-encode_packet_example =
    recv_packet-encode_packet sock (λ s. s) stream 7 2 (codes "list") (codes "rest")
      (encode_packet 7 2 (codes "list") ++ codes "rest")
      (omega arith, omega arith, unfold codes in omega arith) refl

abbrev reply : List Text
reply = codes "There are 0 of a max of 20 " ∷ codes "players online: " ∷ []

abbrev answer : Bytes
answer =
    encode_parts 5 reply
    ++ (encode_packet 6 serverdata_response_value (codes "Unknown request 0") ++ [])

abbrev client : Client
client = record { connected = true; next_id = 5 }

command-whole_example :
    (s' : Bytes) × ((command sock 3 client (codes "list") answer).0 ≡ (got (whole reply), s'))
    × (s' ≡ [])
command-whole_example =
    command-whole sock (λ s. s) stream 3 0 client (codes "list") reply (codes "Unknown request 0")
      [] answer refl (unfold codes in omega arith) (omega arith) (omega arith)
      (unfold codes in (omega arith, (omega arith, tt))) (omega arith) (unfold codes in omega arith)
      refl refl refl

printed : AllPrinted (codes "Alex" ∷ codes "Steve" ∷ [])
unfolding codes strip all
printed =
    cons {n = codes "Alex"} (record { trimmed = refl; some_text = λ e. cc; no_comma = refl })
      (cons {n = codes "Steve"} (record { trimmed = refl; some_text = λ e. cc; no_comma = refl })
        nil)

parse_list-join_example :
    parse_list (
      codes "There are 2 players online"
      ++ b':' ∷ b' ' ∷ join (codes ", ") (codes "Alex" ∷ codes "Steve" ∷ []))
    ≡ codes "Alex" ∷ codes "Steve" ∷ []
unfolding all codes
parse_list-join_example =
    parse_list-join (codes "There are 2 players online") (codes "Alex") (codes "Steve" ∷ []) refl
      printed
