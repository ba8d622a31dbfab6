-- ===== src/Tcpq/Stream.antt =====
-- What lcm_tcpq.c relies on of a TCP connection, and its loops over send and recv.
use conftron.Base.{
  head_eq, ℕ, zero, suc, ◌+◌, ◌-◌, ◌^◌, ◌≤◌, ◌<◌, ◌≡◌, refl, sym, ap, subst, ◌∙◌, ◌≢◌, Bool, true,
  false, Option, none, some, List, [], ◌∷◌, ◌++◌, length, take, drop, if◌then◌else◌, ltb, ℤ, pos,
  negsuc, arith, append_assoc, append-nil, take-append-drop, length-append, length-drop, lt→ltb,
}
use conftron.Tcpq.{
  Sock, after_send, send_all, send_fully, after_recv, with_rest, recv_all, recv_fully,
}

-- A send fails, or takes a first part of the bytes.
pub data Sends {World : Type 0} (sent : World → List ℕ) (bs : List ℕ) (w : World)
    : ℤ × World → Type 0 where
  failed : (k : ℕ) (v : World) → Sends sent bs w (negsuc k, v)
  took :
      (k : ℕ) (v : World)
      → k < length bs
      → sent v ≡ sent w ++ take (suc k) bs
      → Sends sent bs w (pos (suc k), v)

-- While there are bytes to come, a recv gives a first part of them.
pub record Gives {World : Type 0} (to_come : World → List ℕ) (n : ℕ) (w : World)
    (r : Option (List ℕ) × World) : Type 0 where
  pub first : ℕ
  pub more : List ℕ
  pub result : r.0 ≡ some (first ∷ more)
  pub fits : length more < n
  pub still : to_come w ≡ (first ∷ more) ++ to_come r.1

-- The two directions of a connection: what has been sent into it, and what is to come out of it.
pub record IsStream (sock : Sock) (fd : ℤ) : Type 0 where
  pub sent : sock.World → List ℕ
  pub to_come : sock.World → List ℕ
  pub send-Sends :
      (b : ℕ) (bs : List ℕ) (w : sock.World) → Sends sent (b ∷ bs) w (sock.send fd (b ∷ bs) w)
  pub recv-Gives :
      (n : ℕ) (w : sock.World) → 0 < n → to_come w ≢ [] → Gives to_come n w (sock.recv fd n w)

pub some_eq : {xs ys : List ℕ} → Path (Option (List ℕ)) (some xs) (some ys) → xs ≡ ys
some_eq e = ap (λ o. value_or o) e
  where
    value_or : Option (List ℕ) → List ℕ
    value_or none = []
    value_or (some xs) = xs

not_empty : (bs rest all : List ℕ) (k : ℕ) → length bs ≡ suc k → all ≡ bs ++ rest → all ≢ []
not_empty [] rest all k l e h = absurd (omega arith)
not_empty (b ∷ bs) rest all k l e h = cc (e, h)

-- Two ways to cut a list, the first one no later than the second.
split_at_length :
    (xs ys zs ws : List ℕ)
    → xs ++ ys ≡ zs ++ ws
    → length xs ≤ length zs
    → (zs ≡ xs ++ drop (length xs) zs) × (ys ≡ drop (length xs) zs ++ ws)
split_at_length [] ys zs ws e l = (refl, e)
split_at_length (x ∷ xs) ys [] ws e l = absurd (omega arith)
split_at_length (x ∷ xs) ys (z ∷ zs) ws e l =
    let (front, back) = split_at_length xs ys zs ws (ap (drop 1) e) (omega arith) in
    (cc (head_eq e, front), back)

module _ (sock : Sock) (fd : ℤ) (stream : IsStream sock fd) where
  open sock use {World}
  open stream use {sent, to_come}

  -- All the bytes are sent, or the call fails.
  abbrev pub Sent : List ℕ → World → Bool × World → Type 0
  Sent bs w (ok, v) = ok ≡ true → sent v ≡ sent w ++ bs

  after_send-Sent :
      (go : List ℕ → World → Bool × World) (bs : List ℕ) (w : World) (r : ℤ × World)
      → ((k : ℕ) (v : World) → k < length bs → Sent (drop (suc k) bs) v (go (drop (suc k) bs) v))
      → Sends sent bs w r
      → Sent bs w (after_send sock go bs r)
  after_send-Sent go bs w r ih (failed k v) ok = absurd (cc ok)
  after_send-Sent go bs w r ih (took k v l e) ok =
      ih k v l ok
      ∙ (ap (λ xs. xs ++ drop (suc k) bs) e
          ∙ (append_assoc (sent w) (take (suc k) bs) (drop (suc k) bs)
              ∙ ap (λ xs. sent w ++ xs) (take-append-drop (suc k) bs)))

  send_all-Sent :
      (n : ℕ) (bs : List ℕ) (w : World) → length bs ≤ n → Sent bs w (send_all sock n fd bs w)
  send_all-Sent n [] w h ok = sym (append-nil (sent w))
  send_all-Sent zero (b ∷ bs) w h ok = absurd (omega arith)
  send_all-Sent (suc n) (b ∷ bs) w h ok =
      after_send-Sent (send_all sock n fd) (b ∷ bs) w (sock.send fd (b ∷ bs) w)
        (λ k v l. send_all-Sent n (drop k bs) v (omega (arith, length-drop k bs)))
        (stream.send-Sends b bs w) ok

  pub send_fully-Sent : (bs : List ℕ) (w : World) → Sent bs w (send_fully sock fd bs w)
  unfolding send_fully
  send_fully-Sent bs w = checked (ltb (length bs) (2 ^ 31))
    where
      checked : (b : Bool) → Sent bs w (if b then send_all sock (length bs) fd bs w else (false, w))
      checked true = send_all-Sent (length bs) bs w (omega arith)
      checked false = λ ok. absurd (cc ok)

  -- A read of `bs`, when these are the next bytes.
  pub record Got (bs rest : List ℕ) (r : Option (List ℕ) × World) : Type 0 where
    pub value : r.0 ≡ some bs
    pub left : to_come r.1 ≡ rest

  abbrev append_to : List ℕ → Option (List ℕ) → Option (List ℕ)
  append_to first none = none
  append_to first (some bs) = some (first ++ bs)

  with_rest-Got :
      (first more rest : List ℕ) (r : Option (List ℕ) × World)
      → Got more rest r
      → Got (first ++ more) rest (with_rest sock first r)
  with_rest-Got first more rest (none, v) g = absurd (cc g.value)
  with_rest-Got first more rest (some bs, v) g = record {
    value = ap (append_to first) g.value;
    left = g.left;
  }

  after_recv-Got :
      (go : ℕ → World → Option (List ℕ) × World) (k : ℕ) (bs rest : List ℕ) (w : World)
      (r : Option (List ℕ) × World)
      → length bs ≡ k
      → to_come w ≡ bs ++ rest
      → Gives to_come k w r
      → ((more : List ℕ) (v : World) (len : ℕ)
          → 0 < len
          → len + length more ≡ k
          → to_come v ≡ more ++ rest
          → Got more rest (go (k - len) v))
      → Got bs rest (after_recv sock go k r)
  after_recv-Got go k bs rest w (none, v) l e g ih = absurd (cc g.result)
  after_recv-Got go k bs rest w (some [], v) l e g ih = absurd (cc g.result)
  after_recv-Got go k bs rest w (some (c ∷ cs), v) l e g ih =
      let same = some_eq g.result in
      let parts =
        split_at_length (c ∷ cs) (to_come v) bs rest
          (ap (λ xs. xs ++ to_come v) same ∙ (sym g.still ∙ e))
          (omega (arith, g.fits, ap length same, l)) in
      subst (λ xs. Got xs rest (after_recv sock go k (some (c ∷ cs), v))) (sym parts.0)
        (with_rest-Got (c ∷ cs) (drop (length (c ∷ cs)) bs) rest (go (k - length (c ∷ cs)) v) (
          ih (drop (length (c ∷ cs)) bs) v (length (c ∷ cs)) (omega arith)
            (omega
              (arith, ap length parts.0, l, length-append (c ∷ cs) (drop (length (c ∷ cs)) bs)))
            parts.1))

  recv_all-Got :
      (n k : ℕ) (bs rest : List ℕ) (w : World)
      → k ≤ n
      → length bs ≡ k
      → to_come w ≡ bs ++ rest
      → Got bs rest (recv_all sock n fd k w)
  recv_all-Got n zero [] rest w h l e = record { value = refl; left = e }
  recv_all-Got n zero (b ∷ bs) rest w h l e = absurd (omega arith)
  recv_all-Got zero (suc k) bs rest w h l e = absurd (omega arith)
  recv_all-Got (suc n) (suc k) bs rest w h l e =
      after_recv-Got (recv_all sock n fd) (suc k) bs rest w (sock.recv fd (suc k) w) l e
        (stream.recv-Gives (suc k) w (omega arith) (not_empty bs rest (to_come w) k l e))
        (λ more v len some_bytes total left.
          recv_all-Got n (suc k - len) more rest v (omega arith) (omega arith) left)

  pub recv_fully-Got :
      (bs rest : List ℕ) (w : World)
      → length bs < 2 ^ 31
      → to_come w ≡ bs ++ rest
      → Got bs rest (recv_fully sock fd (length bs) w)
  unfolding recv_fully
  recv_fully-Got bs rest w h e =
      rw (lt→ltb (length bs) (2 ^ 31) h)
        (recv_all-Got (length bs) (length bs) bs rest w (omega arith) refl e)
