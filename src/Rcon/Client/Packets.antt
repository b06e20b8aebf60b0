-- ===== src/Rcon/Client/Packets.antt =====
-- src/mcdash/rcon.py: a packet that was encoded is received again, however the stream is cut.
use k3s_minecraft.Prelude.{
  Text, ℕ, zero, suc, ◌+◌, ◌-◌, ◌^◌, ◌≤◌, ◌<◌, true, false, List, [], ◌∷◌, ◌++◌, append_assoc,
  append-nil, ◌≡◌, ◌≢◌, refl, sym, ◌∙◌, ap, arith, ltb, length, take, drop, length-append,
}
use k3s_minecraft.Rcon.Client.{
  Bytes, pack_int, unpack_int, encode_packet, Got, got, Received, chunk, Socket, pass_on,
  when_received, packet_of, is_bad_length, read_loop, read_exact, recv_packet,
}

unpack_int-pack_int : (n : ℕ) (bs : Bytes) → n < 2 ^ 32 → unpack_int (pack_int n ++ bs) ≡ n
unfolding unpack_int pack_int
unpack_int-pack_int n bs h = omega arith

take-append : {A : Type 0} (xs ys : List A) → take (length xs) (xs ++ ys) ≡ xs
take-append [] ys = refl
take-append (x ∷ xs) ys = ap (λ t. x ∷ t) (take-append xs ys)

-- What is still to come on a socket. `recv` of at most `k` bytes returns a part of it, which is
-- empty only if nothing is to come.
pub record IsStream {S : Type 0} (sock : Socket S) (coming : S → Bytes) : Type 0 where
  pub cut : S → ℕ → Bytes
  pub recv_eq :
      (s : S) (k : ℕ)
      → 0 < k
      → coming s ≢ []
      → ((sock.recv s k).0 ≡ chunk (cut s k))
        × (coming s ≡ cut s k ++ coming (sock.recv s k).1)
        × (0 < length (cut s k))
        × (length (cut s k) ≤ k)

cons-eq : {A : Type 0} (x y : A) (xs ys : List A) → x ∷ xs ≡ y ∷ ys → (x ≡ y) × (xs ≡ ys)
cons-eq x y xs ys h = (cc, cc)

-- Of two beginnings of a list the shorter one begins the longer one.
prefix_split :
    {A : Type 0} (need rest c later : List A)
    → need ++ rest ≡ c ++ later
    → length c ≤ length need
    → (more : List A) × (need ≡ c ++ more) × (later ≡ more ++ rest)
prefix_split need rest [] later h l = (need, refl, sym h)
prefix_split [] rest (y ∷ c) later h l = absurd (omega arith)
prefix_split (x ∷ need) rest (y ∷ c) later h l =
    let (e, t) = cons-eq x y (need ++ rest) (c ++ later) h in
    let (more, p, q) = prefix_split need rest c later t (omega arith) in (more, cc, q)

when_received-chunk :
    {S : Type 0} (x : Received × S) (c : Bytes) (k : Bytes → S → Got Bytes × S)
    → x.0 ≡ chunk c
    → 0 < length c
    → when_received x k ≡ k c x.1
unfolding when_received
when_received-chunk (r, s) [] k h l = absurd (omega arith)
when_received-chunk (r, s) (b ∷ bs) k h l = rw h refl

module _ {S : Type 0} (sock : Socket S) (coming : S → Bytes) (stream : IsStream sock coming) where
  -- What a read returns, and that the rest is still to come.
  abbrev Reads : Got Bytes × S → Bytes → Bytes → Type 0
  Reads r bs rest = (s : S) × (r ≡ (got bs, s)) × (coming s ≡ rest)

  read_loop-Reads :
      (f n : ℕ) (buf need rest : Bytes) (s : S)
      → coming s ≡ need ++ rest
      → length buf + length need ≡ n
      → length need ≤ f
      → Reads (read_loop sock f n buf s) (buf ++ need) rest
  unfolding read_loop
  read_loop-Reads zero n buf [] rest s h e l =
      let full : ltb (length buf) n ≡ false = ground arith in (s, rw (full, append-nil buf) refl, h)
  read_loop-Reads zero n buf (b ∷ need) rest s h e l = absurd (omega arith)
  read_loop-Reads (suc f) n buf [] rest s h e l =
      let full : ltb (length buf) n ≡ false = ground arith in (s, rw (full, append-nil buf) refl, h)
  read_loop-Reads (suc f) n buf (b ∷ need) rest s h e l =
      let open' : ltb (length buf) n ≡ true = ground arith in
      let k = n - length buf in
      let (is_chunk, parts, some', few) = stream.recv_eq s k (omega arith) (λ z. cc) in
      let (more, p, q) =
        prefix_split (b ∷ need) rest (stream.cut s k) (coming (sock.recv s k).1) (sym h ∙ parts)
          (omega arith) in
      let size = length-append (stream.cut s k) more in
      let sizes = length-append buf (stream.cut s k) in
      let whole : length (b ∷ need) ≡ length (stream.cut s k) + length more = ap length p ∙ size in
      let (s', done, left) =
        read_loop-Reads f n (buf ++ stream.cut s k) more rest (sock.recv s k).1 q (omega arith)
          (omega arith) in
      (
        s',
        rw (open', when_received-chunk (sock.recv s k) (stream.cut s k) _ is_chunk some', done)
            (ap (λ t. (got t, s'))
              (append_assoc buf (stream.cut s k) more ∙ ap (λ t. buf ++ t) (sym p))),
        left,
      )

  read_exact-Reads :
      (need rest : Bytes) (n : ℕ) (s : S)
      → coming s ≡ need ++ rest
      → length need ≡ n
      → Reads (read_exact sock n s) need rest
  unfolding read_exact
  read_exact-Reads need rest n s h e =
      read_loop-Reads n n [] need rest s h (omega arith) (omega arith)

-- A packet that `_recv` takes for one of the right length.
abbrev pub Fits : ℕ → ℕ → Text → Type 0
Fits req_id ptype body = (req_id < 2 ^ 32) × (ptype < 2 ^ 32) × (length body ≤ 5124)

abbrev payload : ℕ → ℕ → Text → Bytes
payload req_id ptype body = pack_int req_id ++ pack_int ptype ++ body ++ 0 ∷ 0 ∷ []

length-payload :
    (req_id ptype : ℕ) (body : Text) → length (payload req_id ptype body) ≡ 10 + length body
unfolding pack_int
length-payload req_id ptype body = omega (arith, length-append body (0 ∷ 0 ∷ []))

packet_of-payload :
    (req_id ptype : ℕ) (body : Text)
    → Fits req_id ptype body
    → packet_of (payload req_id ptype body) ≡ record { req_id = req_id; ptype = ptype; body = body }
unfolding packet_of unpack_int pack_int
packet_of-payload req_id ptype body (i, t, b) =
    let r : unpack_int (payload req_id ptype body) ≡ req_id = omega arith in
    let p : unpack_int (drop 4 (payload req_id ptype body)) ≡ ptype = omega arith in
    let size = length-payload req_id ptype body in
    let n : length (payload req_id ptype body) - 2
        ≡ suc (suc (suc (suc (suc (suc (suc (suc (length body)))))))) =
      omega arith in
    rw (r, p, n, take-append body (0 ∷ 0 ∷ [])) refl

module _ {S : Type 0} (sock : Socket S) (coming : S → Bytes) (stream : IsStream sock coming) where
  -- A packet that `encode_packet` made is received as it was, in however many chunks it comes, and
  -- what follows it is still to come.
  pub recv_packet-encode_packet :
      (req_id ptype : ℕ) (body : Text) (rest : Bytes) (s : S)
      → Fits req_id ptype body
      → coming s ≡ encode_packet req_id ptype body ++ rest
      → (s' : S) × (recv_packet sock s
          ≡ (got (record { req_id = req_id; ptype = ptype; body = body }), s'))
        × (coming s' ≡ rest)
  unfolding recv_packet encode_packet pass_on
  recv_packet-encode_packet req_id ptype body rest s fits h =
      let size = length-payload req_id ptype body in
      let n = length (payload req_id ptype body) in
      let len : unpack_int (pack_int n) ≡ n = unfold unpack_int pack_int in omega (arith, fits.2) in
      let (s₁, head, left) =
        read_exact-Reads sock coming stream (pack_int n) (payload req_id ptype body ++ rest) 4 s
          (h ∙ append_assoc (pack_int n) (payload req_id ptype body) rest)
          (unfold pack_int in refl) in
      let (s₂, tail, left₂) =
        read_exact-Reads sock coming stream (payload req_id ptype body) rest n s₁ left refl in
      let good : is_bad_length n ≡ false = unfold is_bad_length in ground (arith, fits.2) in
      (s₂, rw (head, len, good, tail, packet_of-payload req_id ptype body fits) refl, left₂)
