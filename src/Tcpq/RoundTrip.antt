-- ===== src/Tcpq/RoundTrip.antt =====
-- upstream/lcm/lcm_tcpq.c: a message that is published is the message that is handled.
use conftron.Base.{
  ℕ, ◌-◌, ◌^◌, ◌<◌, ◌≡◌, sym, ap, ◌∙◌, inl, inr, false, List, ◌++◌, length, drop, ℤ, pos, is_neg,
  All, drop-length_append,
}
use conftron.Tcpq.{Sock, Tcpq, lcm_tcpq_publish, lcm_tcpq_handle}
use conftron.Tcpq.Stream.{IsStream}
use conftron.Tcpq.Publish.{frame, Published, lcm_tcpq_publish-Published}
use conftron.Tcpq.Handle.{Allocates, Delivered, lcm_tcpq_handle-Delivered}

append_cancel : (xs ys zs : List ℕ) → xs ++ ys ≡ xs ++ zs → ys ≡ zs
append_cancel xs ys zs e =
    sym (drop-length_append xs ys) ∙ (ap (drop (length xs)) e ∙ drop-length_append xs zs)

sent_frame :
    (sock : Sock) (self : Tcpq) (out : IsStream sock self.socket) (channel bytes transit : List ℕ)
    (w : sock.World) (r : ℤ × Tcpq × sock.World)
    → Published sock self.socket out self channel bytes w r
    → r.0 ≡ pos 0
    → out.sent r.2 ≡ out.sent w ++ transit
    → transit ≡ frame channel bytes
sent_frame sock self out channel bytes transit w r (inl (zero, same, e)) ok h =
    append_cancel (out.sent w) transit (frame channel bytes) (sym h ∙ e)
sent_frame sock self out channel bytes transit w r (inr (e, closed)) ok h = absurd (cc (ok, e))

-- If lcm_tcpq_publish returns 0, and the bytes that it has sent come in on another open connection,
-- lcm_tcpq_handle there dispatches the same channel and bytes, and leaves what stands behind them; if
-- allocation works, the channel has no NUL, and the lengths are below 2 ^ 31 - 1 and 2 ^ 31.
pub lcm_tcpq_handle-publish :
    (sock : Sock) (self other : Tcpq) (out : IsStream sock self.socket)
    (into : IsStream sock other.socket) (channel bytes transit rest : List ℕ) (w v : sock.World)
    → is_neg self.socket ≡ false
    → is_neg other.socket ≡ false
    → Allocates sock other.socket into
    → All (λ c. 0 < c) channel
    → length channel < 2 ^ 31 - 1
    → length bytes < 2 ^ 31
    → (lcm_tcpq_publish sock self channel bytes w).0 ≡ pos 0
    → out.sent (lcm_tcpq_publish sock self channel bytes w).2 ≡ out.sent w ++ transit
    → into.to_come v ≡ transit ++ rest
    → Delivered sock other.socket into channel bytes rest (lcm_tcpq_handle sock other v)
lcm_tcpq_handle-publish sock self other out into channel bytes transit rest w v h k works text hc hb
      ok e f =
    let sent =
      sent_frame sock self out channel bytes transit w (lcm_tcpq_publish sock self channel bytes w)
        (lcm_tcpq_publish-Published sock self out channel bytes w h) ok e in
    lcm_tcpq_handle-Delivered sock other into channel bytes rest v k works text hc hb
      (f ∙ ap (λ xs. xs ++ rest) sent)
