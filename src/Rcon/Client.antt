-- ===== src/Rcon/Client.antt =====
-- src/mcdash/rcon.py: packets and `RconClient`. A socket is a parameter: what it does may depend on
-- its state. Text is ASCII, so that a character is a byte. An `int32` is its bit pattern.
pub mod Packets
pub mod Replies
use k3s_minecraft.Prelude.{
  Text, ℕ, zero, suc, ◌+◌, ◌-◌, ◌*◌, ◌/◌, ◌%◌, ◌^◌, Bool, true, false, ◌||◌, not, List, [], ◌∷◌,
  ◌++◌, if◌then◌else◌, eqb, ltb, length, take, drop,
}
use k3s_minecraft.Rcon.Pool.{max_command}

abbrev pub Bytes : Type 0
Bytes = List ℕ

abbrev pub serverdata_auth : ℕ
serverdata_auth = 3

abbrev pub serverdata_auth_response : ℕ
serverdata_auth_response = 2

abbrev pub serverdata_execcommand : ℕ
serverdata_execcommand = 2

abbrev pub serverdata_response_value : ℕ
serverdata_response_value = 0

abbrev pub max_packet : ℕ
max_packet = 4110

-- The bit pattern of -1.
abbrev pub minus_one : ℕ
minus_one = 2 ^ 32 - 1

-- `struct.pack("<i", n)`
unfoldable pub pack_int : ℕ → Bytes
pack_int n = n % 256 ∷ n / 256 % 256 ∷ n / 65536 % 256 ∷ n / 16777216 % 256 ∷ []

-- `struct.unpack("<i", b)` of four bytes
unfoldable pub unpack_int : Bytes → ℕ
unpack_int (a ∷ b ∷ c ∷ d ∷ bs) = a + b * 256 + c * 65536 + d * 16777216
unpack_int _ = 0

unfoldable pub encode_packet : ℕ → ℕ → Text → Bytes
unfolding pack_int
encode_packet req_id ptype body =
    let payload = pack_int req_id ++ pack_int ptype ++ body ++ 0 ∷ 0 ∷ [] in
    pack_int (length payload) ++ payload

-- The errors, all `RconError`s; the first two are of its subclasses.
pub data ClientError : Type 0 where
  auth_failed unsent too_long no_connection send_failed : ClientError
  timed_out receive_failed connection_closed bad_length : ClientError

-- `stuck` is no Python value: a loop ran out of fuel.
pub data Got (A : Type 0) : Type 0 where
  got : A → Got A
  failed : ClientError → Got A
  stuck : Got A

-- What `recv` of a socket returns, or the exception that it raises.
pub data Received : Type 0 where
  chunk : Bytes → Received
  timeout_error os_error : Received

-- `recv`, and `sendall`: whether it returned.
pub record Socket (S : Type 0) : Type 0 where
  pub recv : S → ℕ → Received × S
  pub sendall : S → Bytes → Bool × S

unfoldable pub pass_on : {S A B : Type 0} → Got A × S → (A → S → Got B × S) → Got B × S
pass_on (got a, s) f = f a s
pass_on (failed e, s) f = (failed e, s)
pass_on (stuck, s) f = (stuck, s)

-- An empty chunk is the end of the stream.
unfoldable pub when_received :
    {S : Type 0} → Received × S → (Bytes → S → Got Bytes × S) → Got Bytes × S
when_received (chunk [], s) k = (failed connection_closed, s)
when_received (chunk (b ∷ bs), s) k = k (b ∷ bs) s
when_received (timeout_error, s) k = (failed timed_out, s)
when_received (os_error, s) k = (failed receive_failed, s)

pub record Packet : Type 0 where
  pub req_id : ℕ
  pub ptype : ℕ
  pub body : Text

unfoldable pub packet_of : Bytes → Packet
unfolding unpack_int
packet_of data' = record {
  req_id = unpack_int data';
  ptype = unpack_int (drop 4 data');
  body = drop 8 (take (length data' - 2) data');
}

unfoldable pub is_bad_length : ℕ → Bool
is_bad_length n = ltb n 10 || ltb (max_packet + 1024) n

-- The client between calls: whether it has a socket, and the next of its ids.
pub record Client : Type 0 where
  pub connected : Bool
  pub next_id : ℕ

module _ {S : Type 0} (sock : Socket S) where
  -- The loop of `_read_exact`.
  unfoldable pub read_loop : ℕ → ℕ → Bytes → S → Got Bytes × S
  unfolding when_received
  read_loop zero n buf s = if ltb (length buf) n then (stuck, s) else (got buf, s)
  read_loop (suc f) n buf s =
      let rest =
        when_received (sock.recv s (n - length buf)) (λ c s'. read_loop f n (buf ++ c) s') in
      if ltb (length buf) n then rest else (got buf, s)

  -- A round adds a byte at least, so `n` rounds are enough.
  unfoldable pub read_exact : ℕ → S → Got Bytes × S
  unfolding read_loop
  read_exact n s = read_loop n n [] s

  -- `_recv`
  unfoldable pub recv_packet : S → Got Packet × S
  unfolding read_exact pass_on packet_of is_bad_length unpack_int
  recv_packet s = pass_on (read_exact 4 s) λ head s₁.
      if is_bad_length (unpack_int head)
      then (failed bad_length, s₁)
      else pass_on (read_exact (unpack_int head) s₁) (λ data' s₂. (got (packet_of data'), s₂))

  unfoldable pub when_sent : {A : Type 0} → ClientError → Bool × S → (S → Got A × S) → Got A × S
  when_sent e (true, s) k = k s
  when_sent e (false, s) k = (failed e, s)

  -- The loop of `command`, on fuel.
  unfoldable pub reply_loop : ℕ → ℕ → ℕ → Text → S → Got Text × S
  unfolding recv_packet pass_on
  reply_loop zero req sentinel parts s = (stuck, s)
  reply_loop (suc f) req sentinel parts s = pass_on (recv_packet s) λ p s₁.
      let more = reply_loop f req sentinel (parts ++ p.body) s₁ in
      let skip = reply_loop f req sentinel parts s₁ in
      if eqb p.req_id sentinel
      then (got parts, s₁)
      else if eqb p.req_id req
      then more
      else if eqb p.req_id minus_one
      then (failed unsent, s₁)
      else skip

  -- `command`, of a client whose next id is `req`, with fuel for that many packets of reply
  unfoldable pub command : ℕ → Client → Text → S → (Got Text × S) × Client
  unfolding when_sent reply_loop encode_packet
  command fuel c cmd s =
      if not c.connected
      then ((failed unsent, s), c)
      else if ltb max_command (length cmd)
      then ((failed too_long, s), c)
      else let req = c.next_id in
        let sentinel = c.next_id + 1 in
        (
          when_sent unsent (sock.sendall s (encode_packet req serverdata_execcommand cmd)) (λ s₁.
              when_sent send_failed
                (sock.sendall s₁ (encode_packet sentinel serverdata_response_value []))
                (λ s₂. reply_loop fuel req sentinel [] s₂)),
          record c { next_id = c.next_id + 2 },
        )

  -- The loop of `connect`, on fuel.
  unfoldable pub auth_loop : ℕ → ℕ → S → Got (Unit {0}) × S
  unfolding recv_packet pass_on
  auth_loop zero req s = (stuck, s)
  auth_loop (suc f) req s = pass_on (recv_packet s) λ p s₁.
      let rest = auth_loop f req s₁ in
      if eqb p.ptype serverdata_auth_response
      then (if eqb p.req_id minus_one
          then (failed auth_failed, s₁)
          else if eqb p.req_id req
          then (got tt, s₁)
          else rest)
      else rest

  -- `connect`, once there is a socket
  unfoldable pub authenticate : ℕ → Client → Text → S → (Got (Unit {0}) × S) × Client
  unfolding when_sent auth_loop encode_packet
  authenticate fuel c password s = (
    when_sent send_failed (sock.sendall s (encode_packet c.next_id serverdata_auth password))
        (λ s₁. auth_loop fuel c.next_id s₁),
    record { connected = true; next_id = c.next_id + 1 },
  )
