-- ===== src/Tcpq/Publish.antt =====
-- upstream/lcm/lcm_tcpq.c: what lcm_tcpq_publish sends.
use conftron.Base.{
  ℕ, ◌≡◌, refl, ap, ◌∙◌, ◌⊎◌, inl, inr, Bool, true, false, List, ◌++◌, length, if◌then◌else◌, ℤ,
  pos, minus_one, is_neg, append_assoc,
}
use conftron.CoreTypes.{bytes32}
use conftron.Tcpq.{
  Sock, Tcpq, send_uint32, ◌⨾◌, end_send, send_message, lcm_tcpq_publish, message_type_publish,
}
use conftron.Tcpq.Stream.{IsStream, Sent, send_fully-Sent}

-- A message as it goes over the connection.
abbrev pub frame : List ℕ → List ℕ → List ℕ
frame channel bytes =
    bytes32 message_type_publish
    ++ (bytes32 (length channel) ++ (channel ++ (bytes32 (length bytes) ++ bytes)))

module _ (sock : Sock) (fd : ℤ) (stream : IsStream sock fd) where
  open sock use {World}
  open stream use {sent}

  joined :
      (bs cs : List ℕ) (w : World) (next : World → Bool × World) (r : Bool × World)
      → Sent sock fd stream bs w r
      → ((v : World) → Sent sock fd stream cs v (next v))
      → Sent sock fd stream (bs ++ cs) w (if r.0 then next r.1 else (false, r.1))
  joined bs cs w next (true, v) h k =
      λ ok. k v ok ∙ (ap (λ xs. xs ++ cs) (h refl) ∙ append_assoc (sent w) bs cs)
  joined bs cs w next (false, v) h k = λ ok. absurd (cc ok)

  seq-Sent :
      (bs cs : List ℕ) (first next : World → Bool × World)
      → ((v : World) → Sent sock fd stream bs v (first v))
      → ((v : World) → Sent sock fd stream cs v (next v))
      → (w : World) → Sent sock fd stream (bs ++ cs) w ((◌⨾◌ sock first next) w)
  seq-Sent bs cs first next h k w = joined bs cs w next (first w) (h w) k

  send_uint32-Sent :
      (v : ℕ) (w : World) → Sent sock fd stream (bytes32 v) w (send_uint32 sock fd v w)
  unfolding send_uint32
  send_uint32-Sent v w = send_fully-Sent sock fd stream (bytes32 v) w

  send_message-Sent :
      (channel bytes : List ℕ) (w : World)
      → Sent sock fd stream (frame channel bytes) w (send_message sock fd channel bytes w)
  send_message-Sent channel bytes = seq-Sent _ _ _ _ (send_uint32-Sent message_type_publish) (
      seq-Sent _ _ _ _ (send_uint32-Sent (length channel)) (
        seq-Sent _ _ _ _ (send_fully-Sent sock fd stream channel) (
          seq-Sent _ _ _ _ (send_uint32-Sent (length bytes))
            (send_fully-Sent sock fd stream bytes))))

  -- The two ends of a publish.
  abbrev pub Published : Tcpq → List ℕ → List ℕ → World → ℤ × Tcpq × World → Type 0
  Published self channel bytes w (r, self1, v) =
      ((r ≡ pos 0) × (self1 ≡ self) × (sent v ≡ sent w ++ frame channel bytes))
      ⊎ ((r ≡ minus_one) × (self1.socket ≡ minus_one))

  ended :
      (self : Tcpq) (channel bytes : List ℕ) (w : World) (r : Bool × World)
      → Sent sock fd stream (frame channel bytes) w r
      → Published self channel bytes w (end_send sock self r)
  ended self channel bytes w (true, v) h = inl (refl, refl, h refl)
  ended self channel bytes w (false, v) h = inr (refl, refl)

-- On an open connection whose sends fail or take a first part of the bytes, lcm_tcpq_publish returns 0
-- and has sent the whole message, in whatever parts, or it returns -1 and is no longer connected.
pub lcm_tcpq_publish-Published :
    (sock : Sock) (self : Tcpq) (stream : IsStream sock self.socket) (channel bytes : List ℕ)
    (w : sock.World)
    → is_neg self.socket ≡ false
    → Published sock self.socket stream self channel bytes w
        (lcm_tcpq_publish sock self channel bytes w)
unfolding lcm_tcpq_publish
lcm_tcpq_publish-Published sock self stream channel bytes w h = open_case (is_neg self.socket) h
  where
    open_case :
        (b : Bool)
        → b ≡ false
        → Published sock self.socket stream self channel bytes w (
            if b
            then (minus_one, self, w)
            else end_send sock self (send_message sock self.socket channel bytes w))
    open_case true e = absurd (cc e)
    open_case false e =
        ended sock self.socket stream self channel bytes w
          (send_message sock self.socket channel bytes w)
          (send_message-Sent sock self.socket stream channel bytes w)
