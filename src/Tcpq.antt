-- ===== src/Tcpq.antt =====
-- upstream/lcm/lcm_tcpq.c: messages to and from a relay over a TCP connection. The sockets, the clock
-- and the addresses are the record Sock over a world; a file descriptor is an integer.
pub mod Stream
pub mod Publish
pub mod Handle
pub mod RoundTrip
pub mod Creating
mod Runs
use conftron.Base.{
  until_nul, ℕ, zero, suc, ◌+◌, ◌-◌, ◌%◌, ◌^◌, Bool, true, false, ◌&&◌, Option, none, some, List,
  [], ◌∷◌, ◌++◌, length, drop, if◌then◌else◌, ltb, ◌==◌, ℤ, pos, negsuc, minus_one, is_neg,
}
use conftron.CoreTypes.{bytes32, value32}

abbrev pub magic_server : ℕ
magic_server = 0x287617fa

abbrev pub magic_client : ℕ
magic_client = 0x287617fb

abbrev pub protocol_version : ℕ
protocol_version = 0x0100

abbrev pub message_type_publish : ℕ
message_type_publish = 1

abbrev pub message_type_subscribe : ℕ
message_type_subscribe = 2

-- `recv` gives the bytes received, or `none` for a failure; `realloc_works` is asked for a size.
pub record Sock : Type 1 where
  pub World : Type 0
  pub send : ℤ → List ℕ → World → ℤ × World
  pub recv : ℤ → ℕ → World → Option (List ℕ) × World
  pub open_socket : World → ℤ × World
  pub connect : ℤ → World → Bool × World
  pub close : ℤ → World → World
  pub now : World → ℕ
  pub realloc_works : ℕ → Bool

-- struct _lcm_provider_t: the socket and the sizes of the two buffers
pub record Tcpq : Type 0 where
  pub socket : ℤ
  pub recv_channel_buf_len : ℕ
  pub data_buf_len : ℕ

-- What lcm_dispatch_handlers is given.
pub record Message : Type 0 where
  pub channel : List ℕ
  pub bytes : List ℕ
  pub recv_utime : ℕ

-- The result of a step: a value, `goto disconnected`, or the failed allocation.
pub data Reply (A : Type 0) : Type 0 where
  got : A → Reply A
  disconnected : Reply A
  no_memory : Reply A

module _ (sock : Sock) where
  open sock use {World, send, recv, open_socket, connect, close, now, realloc_works}

  -- One send of the loop of _send_fully.
  abbrev pub after_send : (List ℕ → World → Bool × World) → List ℕ → ℤ × World → Bool × World
  after_send go bs (pos zero, w) = (false, w)
  after_send go bs (pos (suc k), w) = go (drop (suc k) bs) w
  after_send go bs (negsuc k, w) = (false, w)

  -- The loop; a send takes a byte at least, so that the length is fuel enough.
  abbrev pub send_all : ℕ → ℤ → List ℕ → World → Bool × World
  send_all n fd [] w = (true, w)
  send_all zero fd (b ∷ bs) w = (false, w)
  send_all (suc n) fd (b ∷ bs) w = after_send (send_all n fd) (b ∷ bs) (send fd (b ∷ bs) w)

  -- _send_fully, compared with the length, which is negative as an int from 2 ^ 31 on
  unfoldable pub send_fully : ℤ → List ℕ → World → Bool × World
  send_fully fd bs w = if ltb (length bs) (2 ^ 31) then send_all (length bs) fd bs w else (false, w)

  unfoldable pub send_uint32 : ℤ → ℕ → World → Bool × World
  unfolding send_fully
  send_uint32 fd v w = send_fully fd (bytes32 v) w

  abbrev pub with_rest : List ℕ → Option (List ℕ) × World → Option (List ℕ) × World
  with_rest bs (none, w) = (none, w)
  with_rest bs (some more, w) = (some (bs ++ more), w)

  -- One recv of the loop of _recv_fully.
  abbrev pub after_recv :
      (ℕ → World → Option (List ℕ) × World) → ℕ → Option (List ℕ) × World → Option (List ℕ) × World
  after_recv go k (none, w) = (none, w)
  after_recv go k (some [], w) = (none, w)
  after_recv go k (some (b ∷ bs), w) = with_rest (b ∷ bs) (go (k - length (b ∷ bs)) w)

  abbrev pub recv_all : ℕ → ℤ → ℕ → World → Option (List ℕ) × World
  recv_all n fd zero w = (some [], w)
  recv_all zero fd (suc k) w = (none, w)
  recv_all (suc n) fd (suc k) w = after_recv (recv_all n fd) (suc k) (recv fd (suc k) w)

  -- _recv_fully, compared with the length
  unfoldable pub recv_fully : ℤ → ℕ → World → Option (List ℕ) × World
  recv_fully fd len w = if ltb len (2 ^ 31) then recv_all len fd len w else (none, w)

  abbrev pub number : Option (List ℕ) × World → Option ℕ × World
  number (none, w) = (none, w)
  number (some bs, w) = (some (value32 bs), w)

  unfoldable pub recv_uint32 : ℤ → World → Option ℕ × World
  unfolding recv_fully
  recv_uint32 fd w = number (recv_fully fd 4 w)

  -- One write behind another, as long as they succeed.
  infixr 4 ◌⨾◌
  abbrev pub ◌⨾◌ : (World → Bool × World) → (World → Bool × World) → World → Bool × World
  (first ⨾ next) w = let (ok, w') = first w in if ok then next w' else (false, w')

  unfoldable pub lcm_tcpq_destroy : Tcpq → World → World
  lcm_tcpq_destroy self w = if is_neg self.socket then w else close self.socket w

  -- The end of a call that has sent something.
  abbrev pub end_send : Tcpq → Bool × World → ℤ × Tcpq × World
  end_send self (true, w) = (pos 0, self, w)
  end_send self (false, w) = (minus_one, record self { socket = minus_one }, close self.socket w)

  -- _sub_unsub_helper
  unfoldable pub sub_unsub_helper : Tcpq → List ℕ → ℕ → World → ℤ × Tcpq × World
  unfolding send_uint32
  sub_unsub_helper self channel msg_type w =
      let sends =
        send_uint32 self.socket msg_type
        ⨾ send_uint32 self.socket (length channel)
        ⨾ send_fully self.socket channel in
      if is_neg self.socket then (minus_one, self, w) else end_send self (sends w)

  unfoldable pub lcm_tcpq_subscribe : Tcpq → List ℕ → World → ℤ × Tcpq × World
  unfolding sub_unsub_helper
  lcm_tcpq_subscribe self channel = sub_unsub_helper self channel message_type_subscribe

  -- It sends what lcm_tcpq_subscribe sends.
  unfoldable pub lcm_tcpq_unsubscribe : Tcpq → List ℕ → World → ℤ × Tcpq × World
  unfolding sub_unsub_helper
  lcm_tcpq_unsubscribe self channel = sub_unsub_helper self channel message_type_subscribe

  -- lcm_tcpq_publish, of a channel without NUL
  abbrev pub send_message : ℤ → List ℕ → List ℕ → World → Bool × World
  send_message fd channel bytes =
      send_uint32 fd message_type_publish
      ⨾ send_uint32 fd (length channel)
      ⨾ send_fully fd channel
      ⨾ send_uint32 fd (length bytes)
      ⨾ send_fully fd bytes

  unfoldable pub lcm_tcpq_publish : Tcpq → List ℕ → List ℕ → World → ℤ × Tcpq × World
  unfolding send_uint32
  lcm_tcpq_publish self channel bytes w =
      if is_neg self.socket
      then (minus_one, self, w)
      else end_send self (send_message self.socket channel bytes w)

  -- A step of lcm_tcpq_handle, which may change the state.
  abbrev pub Step : Type 0 → Type 0
  Step A = Tcpq → World → Reply A × Tcpq × World

  abbrev pub continue :
      {A B : Type 0} → (A → Step B) → Reply A × Tcpq × World → Reply B × Tcpq × World
  continue f (got a, self, w) = f a self w
  continue f (disconnected, self, w) = (disconnected, self, w)
  continue f (no_memory, self, w) = (no_memory, self, w)

  infixl 5 ◌>>=◌
  abbrev pub ◌>>=◌ : {A B : Type 0} → Step A → (A → Step B) → Step B
  p >>= f = λ self w. continue f (p self w)

  abbrev pub received : {A : Type 0} → Tcpq → Option A × World → Reply A × Tcpq × World
  received self (none, w) = (disconnected, self, w)
  received self (some a, w) = (got a, self, w)

  abbrev pub read_number : Step ℕ
  read_number self w = received self (recv_uint32 self.socket w)

  abbrev pub read_bytes : ℕ → Step (List ℕ)
  read_bytes len self w = received self (recv_fully self.socket len w)

  -- _ensure_buf_capacity: the size that is then known, or `none`. The request is an int, which is
  -- compared as an unsigned number and widened to a size_t.
  abbrev pub ensure_buf_capacity : ℕ → ℕ → Option ℕ
  ensure_buf_capacity cur_size req_size =
      if ltb cur_size req_size
      then (if realloc_works
            (if ltb req_size (2 ^ 31) then req_size else req_size + (2 ^ 64 - 2 ^ 32))
          then some req_size
          else none)
      else some cur_size

  abbrev pub with_channel_buf : Option ℕ → Step (Unit {0})
  with_channel_buf none self w = (no_memory, self, w)
  with_channel_buf (some n) self w = (got tt, record self { recv_channel_buf_len = n }, w)

  abbrev pub with_data_buf : Option ℕ → Step (Unit {0})
  with_data_buf none self w = (no_memory, self, w)
  with_data_buf (some n) self w = (got tt, record self { data_buf_len = n }, w)

  abbrev pub ensure_channel : ℕ → Step (Unit {0})
  ensure_channel channel_len self =
      with_channel_buf (ensure_buf_capacity self.recv_channel_buf_len ((channel_len + 1) % 2 ^ 32))
        self

  abbrev pub ensure_data : ℕ → Step (Unit {0})
  ensure_data data_len self = with_data_buf (ensure_buf_capacity self.data_buf_len data_len) self

  -- The reads of lcm_tcpq_handle
  abbrev pub read_message : Step (List ℕ × List ℕ)
  read_message = do
    msg_type ← read_number
    channel_len ← read_number
    u ← ensure_channel channel_len
    channel ← read_bytes channel_len
    data_len ← read_number
    v ← ensure_data data_len
    bytes ← read_bytes data_len
    λ self w. (got (channel, bytes), self, w)

  abbrev pub end_handle :
      Reply (List ℕ × List ℕ) × Tcpq × World → (ℤ × Option Message) × Tcpq × World
  end_handle (got (channel, bytes), self, w) = (
    (pos 0, some (record { channel = until_nul channel; bytes = bytes; recv_utime = now w })),
    self,
    w,
  )
  end_handle (disconnected, self, w) =
      ((minus_one, none), record self { socket = minus_one }, close self.socket w)
  end_handle (no_memory, self, w) = ((minus_one, none), self, w)

  -- lcm_tcpq_handle, with what it gives to lcm_dispatch_handlers
  unfoldable pub lcm_tcpq_handle : Tcpq → World → (ℤ × Option Message) × Tcpq × World
  unfolding recv_uint32
  lcm_tcpq_handle self w =
      if is_neg self.socket then ((minus_one, none), self, w) else end_handle (read_message self w)

  -- _connect_to_server
  abbrev pub is_server : Option ℕ × World → (World → Option ℕ × World) → Bool × World
  is_server (none, w) version = (false, w)
  is_server (some magic, w) version =
      let (v, w') = version w in (if has_value v then magic == magic_server else false, w')
    where
      has_value : Option ℕ → Bool
      has_value none = false
      has_value (some n) = true

  abbrev pub greet : ℤ → World → Bool × World
  greet fd =
      connect fd
      ⨾ send_uint32 fd magic_client
      ⨾ send_uint32 fd protocol_version
      ⨾ (λ w. is_server (recv_uint32 fd w) (recv_uint32 fd))

  abbrev pub with_socket : Tcpq → ℤ × World → ℤ × Tcpq × World
  with_socket self (fd, w) =
      if is_neg fd
      then (minus_one, record self { socket = fd }, w)
      else end_send (record self { socket = fd }) (greet fd w)

  abbrev pub is_zero : ℤ → Bool
  is_zero (pos n) = n == 0
  is_zero (negsuc n) = false

  unfoldable pub connect_to_server : Tcpq → World → ℤ × Tcpq × World
  unfolding send_uint32 recv_uint32
  connect_to_server self w =
      with_socket self (open_socket (if is_zero self.socket then w else close self.socket w))
