-- ===== src/Tcpq/Handle.antt =====
-- upstream/lcm/lcm_tcpq.c: what lcm_tcpq_handle makes of a message that comes in.
use conftron.Base.{
  ℕ, ◌+◌, ◌-◌, ◌%◌, ◌^◌, ◌<◌, ◌≡◌, refl, sym, ap, subst, ◌∙◌, inl, inr, true, false, List, ◌++◌,
  length, Option, none, some, ltb, ℤ, pos, is_neg, append_assoc, All, until_nul_lem, arith,
  Bool-cases, lt→ltb,
}
use conftron.CoreTypes.{bytes32}
use conftron.CoreTypes.Words.{value32-bytes32}
use conftron.Tcpq.{
  Sock, Tcpq, Message, Reply, got, recv_fully, recv_uint32, number, Step, continue, ◌>>=◌, received,
  read_number, read_bytes, ensure_buf_capacity, ensure_channel, ensure_data, with_channel_buf,
  with_data_buf, read_message, end_handle, lcm_tcpq_handle, message_type_publish,
}
use conftron.Tcpq.Stream.{some_eq, IsStream, Got, recv_fully-Got}
use conftron.Tcpq.Publish.{frame}

module _ (sock : Sock) (fd : ℤ) (stream : IsStream sock fd) where
  open sock use {World, realloc_works}
  open stream use {to_come}

  -- The step reads `a` and leaves `rest` in the connection.
  record Reads {A : Type 0} (a : A) (rest : List ℕ) (r : Reply A × Tcpq × World) : Type 0 where
    self : Tcpq
    left : World
    result : r ≡ (got a, self, left)
    same_socket : self.socket ≡ fd
    still : to_come left ≡ rest

  bind-Reads :
      {A B : Type 0} (a : A) (b : B) (mid rest : List ℕ) (f : A → Step sock B)
      (r : Reply A × Tcpq × World)
      → Reads a mid r
      → ((self : Tcpq) (v : World) → self.socket ≡ fd → to_come v ≡ mid → Reads b rest (f a self v))
      → Reads b rest (continue sock f r)
  bind-Reads a b mid rest f r h k =
      subst (λ x. Reads b rest (continue sock f x)) (sym h.result)
        (k h.self h.left h.same_socket h.still)

  received-Reads :
      {A : Type 0} (a : A) (rest : List ℕ) (self : Tcpq) (r : Option A × World)
      → self.socket ≡ fd
      → r.0 ≡ some a
      → to_come r.1 ≡ rest
      → Reads a rest (received sock self r)
  received-Reads a rest self (none, v) s e h = absurd (cc e)
  received-Reads a rest self (some x, v) s e h = record {
    self = self;
    left = v;
    result = cc e;
    same_socket = s;
    still = h;
  }

  number_lem :
      (n : ℕ) (rest : List ℕ) (r : Option (List ℕ) × World)
      → n < 2 ^ 32
      → Got sock fd stream (bytes32 n) rest r
      → ((number sock r).0 ≡ some n) × (to_come (number sock r).1 ≡ rest)
  number_lem n rest (none, v) h g = absurd (cc g.value)
  number_lem n rest (some bs, v) h g = (cc (some_eq g.value, value32-bytes32 n h), g.left)

  read_number-Reads :
      (n : ℕ) (rest : List ℕ) (self : Tcpq) (w : World)
      → n < 2 ^ 32
      → self.socket ≡ fd
      → to_come w ≡ bytes32 n ++ rest
      → Reads n rest (read_number sock self w)
  unfolding recv_uint32
  read_number-Reads n rest self w h s e =
      let (value, left) =
        number_lem n rest (recv_fully sock fd 4 w) h
          (recv_fully-Got sock fd stream (bytes32 n) rest w (omega arith) e) in
      received-Reads n rest self (number sock (recv_fully sock self.socket 4 w)) s
        (ap (λ x. (number sock (recv_fully sock x 4 w)).0) s ∙ value)
        (ap (λ x. to_come (number sock (recv_fully sock x 4 w)).1) s ∙ left)

  read_bytes-Reads :
      (bs rest : List ℕ) (self : Tcpq) (w : World)
      → length bs < 2 ^ 31
      → self.socket ≡ fd
      → to_come w ≡ bs ++ rest
      → Reads bs rest (read_bytes sock (length bs) self w)
  read_bytes-Reads bs rest self w h s e =
      let g = recv_fully-Got sock fd stream bs rest w h e in
      received-Reads bs rest self (recv_fully sock self.socket (length bs) w) s
        (ap (λ x. (recv_fully sock x (length bs) w).0) s ∙ g.value)
        (ap (λ x. to_come (recv_fully sock x (length bs) w).1) s ∙ g.left)

  -- Every allocation of a size below 2 ^ 31 works.
  abbrev pub Allocates : Type 0
  Allocates = (n : ℕ) → n < 2 ^ 31 → realloc_works n ≡ true

  ensure_lem :
      (cur n : ℕ) → Allocates → n < 2 ^ 31 → (m : ℕ) × (ensure_buf_capacity sock cur n ≡ some m)
  ensure_lem cur n works h = elim (Bool-cases (ltb cur n)) [
    | inl e ↦ (n, rw (e, lt→ltb n (2 ^ 31) h, works n h) refl)
    | inr e ↦ (cur, rw e refl)
  ]

  channel-Reads :
      (o : Option ℕ) (m : ℕ) (rest : List ℕ) (self : Tcpq) (w : World)
      → o ≡ some m
      → self.socket ≡ fd
      → to_come w ≡ rest
      → Reads tt rest (with_channel_buf sock o self w)
  channel-Reads none m rest self w e s h = absurd (cc e)
  channel-Reads (some n) m rest self w e s h = record {
    self = record self { recv_channel_buf_len = n };
    left = w;
    result = refl;
    same_socket = s;
    still = h;
  }

  data-Reads :
      (o : Option ℕ) (m : ℕ) (rest : List ℕ) (self : Tcpq) (w : World)
      → o ≡ some m
      → self.socket ≡ fd
      → to_come w ≡ rest
      → Reads tt rest (with_data_buf sock o self w)
  data-Reads none m rest self w e s h = absurd (cc e)
  data-Reads (some n) m rest self w e s h = record {
    self = record self { data_buf_len = n };
    left = w;
    result = refl;
    same_socket = s;
    still = h;
  }

  -- The part of the channel, of the payload and of its size.
  abbrev read_body : ℕ → Step sock (List ℕ × List ℕ)
  read_body channel_len = ◌>>=◌ sock (read_bytes sock channel_len) λ channel.
      ◌>>=◌ sock (read_number sock) λ data_len.
        ◌>>=◌ sock (ensure_data sock data_len)
          λ v. ◌>>=◌ sock (read_bytes sock data_len) λ bytes self w. (got (channel, bytes), self, w)

  body-Reads :
      (channel bytes rest : List ℕ) (self : Tcpq) (w : World)
      → Allocates
      → length channel < 2 ^ 31 - 1
      → length bytes < 2 ^ 31
      → self.socket ≡ fd
      → to_come w ≡ channel ++ (bytes32 (length bytes) ++ (bytes ++ rest))
      → Reads (channel, bytes) rest (read_body (length channel) self w)
  body-Reads channel bytes rest self w works hc hb s e =
      bind-Reads channel (channel, bytes) (bytes32 (length bytes) ++ (bytes ++ rest)) rest _
        (read_bytes sock (length channel) self w)
        (read_bytes-Reads channel _ self w (omega arith) s e)
        λ self1 v1 s1 e1.
          bind-Reads (length bytes) (channel, bytes) (bytes ++ rest) rest _
            (read_number sock self1 v1)
            (read_number-Reads (length bytes) _ self1 v1 (omega arith) s1 e1)
            λ self2 v2 s2 e2.
              let (m, room) = ensure_lem self2.data_buf_len (length bytes) works hb in
              bind-Reads tt (channel, bytes) (bytes ++ rest) rest _
                (ensure_data sock (length bytes) self2 v2) (data-Reads _ m _ self2 v2 room s2 e2)
                λ self3 v3 s3 e3.
                  bind-Reads bytes (channel, bytes) rest rest _
                    (read_bytes sock (length bytes) self3 v3)
                    (read_bytes-Reads bytes rest self3 v3 hb s3 e3)
                    λ self4 v4 s4 e4. record {
                      self = self4;
                      left = v4;
                      result = refl;
                      same_socket = s4;
                      still = e4;
                    }

  read_message-Reads :
      (channel bytes rest : List ℕ) (self : Tcpq) (w : World)
      → Allocates
      → length channel < 2 ^ 31 - 1
      → length bytes < 2 ^ 31
      → self.socket ≡ fd
      → to_come w ≡ frame channel bytes ++ rest
      → Reads (channel, bytes) rest (read_message sock self w)
  read_message-Reads channel bytes rest self w works hc hb s e =
      let payload = bytes32 (length bytes) ++ (bytes ++ rest) in
      let whole =
        ap (λ xs. bytes32 message_type_publish ++ (bytes32 (length channel) ++ xs))
          (append_assoc channel (bytes32 (length bytes) ++ bytes) rest) in
      bind-Reads message_type_publish (channel, bytes)
        (bytes32 (length channel) ++ (channel ++ payload)) rest _ (read_number sock self w)
        (read_number-Reads message_type_publish _ self w (omega arith) s (e ∙ whole))
        λ self1 v1 s1 e1.
          bind-Reads (length channel) (channel, bytes) (channel ++ payload) rest _
            (read_number sock self1 v1)
            (read_number-Reads (length channel) _ self1 v1 (omega arith) s1 e1)
            λ self2 v2 s2 e2.
              let (m, room) =
                ensure_lem self2.recv_channel_buf_len ((length channel + 1) % 2 ^ 32) works
                  (omega arith) in
              bind-Reads tt (channel, bytes) (channel ++ payload) rest _
                (ensure_channel sock (length channel) self2 v2)
                (channel-Reads _ m _ self2 v2 room s2 e2)
                (λ self3 v3 s3 e3. body-Reads channel bytes rest self3 v3 works hc hb s3 e3)

-- Delivered: the message is dispatched, and what stands behind it is still to come.
pub record Delivered (sock : Sock) (fd : ℤ) (stream : IsStream sock fd)
    (channel bytes rest : List ℕ) (r : (ℤ × Option Message) × Tcpq × sock.World) : Type 0 where
  pub left : sock.World
  pub self : Tcpq
  pub result : r ≡ (
    (pos 0, some (record { channel = channel; bytes = bytes; recv_utime = sock.now left })),
    self,
    left,
  )
  pub same_socket : self.socket ≡ fd
  pub still : stream.to_come left ≡ rest

-- A message that comes in, on a connection that is open, is dispatched with its channel and its bytes,
-- whatever parts the connection gives it in, and what stands behind it stays to come; if allocation
-- works, the channel has no NUL, and the lengths are below 2 ^ 31 - 1 and 2 ^ 31.
pub lcm_tcpq_handle-Delivered :
    (sock : Sock) (self : Tcpq) (stream : IsStream sock self.socket) (channel bytes rest : List ℕ)
    (w : sock.World)
    → is_neg self.socket ≡ false
    → Allocates sock self.socket stream
    → All (λ c. 0 < c) channel
    → length channel < 2 ^ 31 - 1
    → length bytes < 2 ^ 31
    → stream.to_come w ≡ frame channel bytes ++ rest
    → Delivered sock self.socket stream channel bytes rest (lcm_tcpq_handle sock self w)
unfolding lcm_tcpq_handle
lcm_tcpq_handle-Delivered sock self stream channel bytes rest w h works text hc hb e =
    let r =
      read_message-Reads sock self.socket stream channel bytes rest self w works hc hb refl e in
    record {
      left = r.left;
      self = r.self;
      result = rw h (ap (end_handle sock) r.result ∙ rw (until_nul_lem channel text) refl);
      same_socket = r.same_socket;
      still = r.still;
    }
