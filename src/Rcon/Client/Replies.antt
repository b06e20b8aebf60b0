-- ===== src/Rcon/Client/Replies.antt =====
-- src/mcdash/rcon.py: what `RconClient.command` returns.
use k3s_minecraft.Prelude.{
  Text, ℕ, zero, suc, ◌+◌, ◌≤◌, ◌<◌, Bool, true, false, List, [], ◌∷◌, ◌++◌, append_assoc,
  append-nil, ◌≡◌, refl, ◌∙◌, ap, arith, eqb, ltb, length,
}
use k3s_minecraft.Rcon.Pool.{max_command}
use k3s_minecraft.Rcon.Client.{
  Bytes, serverdata_execcommand, serverdata_response_value, minus_one, encode_packet, ClientError,
  unsent, send_failed, Got, got, Socket, pass_on, Client, when_sent, reply_loop, command,
}
use k3s_minecraft.Rcon.Client.Packets.{IsStream, recv_packet-encode_packet}

-- The packets of a reply that the server cut into these texts, and the text that they are.
abbrev pub encode_parts : ℕ → List Text → Bytes
encode_parts req [] = []
encode_parts req (t ∷ ts) = encode_packet req serverdata_response_value t ++ encode_parts req ts

abbrev pub whole : List Text → Text
whole [] = []
whole (t ∷ ts) = t ++ whole ts

abbrev pub AllFit : List Text → Type 0
AllFit [] = Unit {0}
AllFit (t ∷ ts) = (length t ≤ 5124) × AllFit ts

when_sent-true :
    {S A : Type 0} (sock : Socket S) (e : ClientError) (x : Bool × S) (k : S → Got A × S)
    → x.0 ≡ true
    → when_sent sock e x k ≡ k x.1
unfolding when_sent
when_sent-true sock e (b, s) k h = rw h refl

module _ {S : Type 0} (sock : Socket S) (coming : S → Bytes) (stream : IsStream sock coming) where
  reply_loop-whole :
      (f req ptype : ℕ) (ts : List Text) (parts body : Text) (rest : Bytes) (s : S)
      → length ts < f
      → req + 1 < minus_one
      → AllFit ts
      → ptype < minus_one
      → length body ≤ 5124
      → coming s ≡ encode_parts req ts ++ (encode_packet (req + 1) ptype body ++ rest)
      → (s' : S) × (reply_loop sock f req (req + 1) parts s ≡ (got (parts ++ whole ts), s'))
        × (coming s' ≡ rest)
  unfolding reply_loop pass_on
  reply_loop-whole zero req ptype ts parts body rest s l small fit typed brief h =
      absurd (omega arith)
  reply_loop-whole (suc f) req ptype [] parts body rest s l small fit typed brief h =
      let (s', e, left) =
        recv_packet-encode_packet sock coming stream (req + 1) ptype body rest s
          (omega arith, omega arith, brief) h in
      let same : eqb (req + 1) (req + 1) ≡ true = ground arith in
      (s', rw (e, same, append-nil parts) refl, left)
  reply_loop-whole (suc f) req ptype (t ∷ ts) parts body rest s l small (ft, fit) typed brief h =
      let after = encode_packet (req + 1) ptype body ++ rest in
      let (s₁, e, left) =
        recv_packet-encode_packet sock coming stream req serverdata_response_value t
          (encode_parts req ts ++ after) s (omega arith, omega arith, ft)
          (h
            ∙ append_assoc (encode_packet req serverdata_response_value t) (encode_parts req ts)
                after) in
      let (s₂, done, left₂) =
        reply_loop-whole f req ptype ts (parts ++ t) body rest s₁ (omega arith) small fit typed
          brief left in
      let other : eqb req (req + 1) ≡ false = ground arith in
      let same : eqb req req ≡ true = ground arith in
      (
        s₂,
        rw (e, other, same, done) (ap (λ x. (got x, s₂)) (append_assoc parts t (whole ts))),
        left₂,
      )

  -- The state after the command and the sentinel were sent.
  abbrev pub both_sent : ℕ → Text → S → S
  both_sent req cmd s =
      (sock.sendall (sock.sendall s (encode_packet req serverdata_execcommand cmd)).1
        (encode_packet (req + 1) serverdata_response_value [])).1

  -- A connected client whose command is not too long, and whose two packets are sent, returns the
  -- texts of the reply's packets, one behind the other, if the server answers with these and, to the
  -- sentinel, with a packet of any type and body; what comes behind that packet is left on the
  -- socket for the next command.
  pub command-whole :
      (fuel ptype : ℕ) (c : Client) (cmd : Text) (ts : List Text) (body : Text) (rest : Bytes)
      (s : S)
      → c.connected ≡ true
      → length cmd ≤ max_command
      → c.next_id + 1 < minus_one
      → length ts < fuel
      → AllFit ts
      → ptype < minus_one
      → length body ≤ 5124
      → (sock.sendall s (encode_packet c.next_id serverdata_execcommand cmd)).0 ≡ true
      → (sock.sendall
          (sock.sendall s (encode_packet c.next_id serverdata_execcommand cmd)).1
          (encode_packet (c.next_id + 1) serverdata_response_value [])).0
        ≡ true
      → coming (both_sent c.next_id cmd s)
        ≡ encode_parts c.next_id ts ++ (encode_packet (c.next_id + 1) ptype body ++ rest)
      → (s' : S) × ((command sock fuel c cmd s).0 ≡ (got (whole ts), s')) × (coming s' ≡ rest)
  unfolding command
  command-whole fuel ptype c cmd ts body rest s on short small enough fit typed tail first second
        h =
      let (s', e, left) =
        reply_loop-whole fuel c.next_id ptype ts [] body rest (both_sent c.next_id cmd s) enough
          small fit typed tail h in
      let brief : ltb max_command (length cmd) ≡ false = ground arith in
      (
        s',
        rw
            (
              on,
              brief,
              when_sent-true sock unsent (sock.sendall s _) _ first,
              when_sent-true sock send_failed (sock.sendall _ _) _ second,
              e,
            )
            refl,
        left,
      )
