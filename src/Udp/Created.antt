-- ===== src/Udp/Created.antt =====
-- upstream/lcm/lcm_udp.c: the descriptors that lcm_udpm_create leaves open.
use conftron.Base.{
  ℕ, ◌+◌, ◌-◌, ◌≡◌, refl, ap, ◌∙◌, Bool, true, false, Option, none, some, List, ℤ, pos, minus_one,
  is_neg, if◌then◌else◌, arith,
}
use conftron.Lcmgen.Text.{Text}
use conftron.Handlers.Create.{GlibText}
use conftron.Udp.Life.{
  Params, SocketOption, time_to_live, loopback, Sys, Life, then_step, close_fd, destroy_recv_parts,
  lcm_udpm_destroy,
}
use conftron.Udp.Opening.{
  new_arguments, parse_mc_addr_and_port, initial, open_transmit, set_transmit, end_create,
  with_notify, with_params, lcm_udpm_create,
}
use conftron.Udp.Descriptors.{count, Counts, IsClosed}
use conftron.Udp.Closing.{close_fd-fds, destroy_recv_parts-IsClosed}

-- Connecting opens no descriptor; what is no descriptor cannot be connected and has no options.
pub record SocketLaws (sys : Sys) (fds : sys.World → ℕ) : Type 0 where
  pub connect_same :
      (fd : ℤ) (addr port : ℕ) (w : sys.World) → fds (sys.connect fd addr port w).1 ≡ fds w
  pub connects_open :
      (fd : ℤ) (addr port : ℕ) (w : sys.World)
      → (sys.connect fd addr port w).0 ≡ true
      → is_neg fd ≡ false
  pub sets_open :
      (fd : ℤ) (o : SocketOption) (w : sys.World)
      → (sys.setsockopt fd o w).0 ≡ true
      → is_neg fd ≡ false

-- What lcm_udpm_create is given: the parameters that no argument has set.
abbrev pub zero_params : Params
zero_params = record { mc_addr = 0; mc_port = 0; mc_ttl = 0; recv_buf_size = pos 0 }

module _ (sys : Sys) (counts : Counts sys) where
  open sys use {World, socket, connect, pipe_create, set_nonblock}
  open counts use {fds}

  -- By whether the connection that is tried succeeds: a context has its two pipe ends and its socket
  -- open and nothing for receiving; without one all is closed, but for the socket of the trial when it
  -- could not be connected.
  abbrev pub Connected : ℕ → Bool → ℤ → Option Life × World → Type 0
  Connected base true testfd (some l, v) =
      (fds v ≡ base + 3) × (is_neg l.sendfd ≡ false) × IsClosed l
  Connected base true testfd (none, v) = fds v ≡ base
  Connected base false testfd (some l, v) = ⊥
  Connected base false testfd (none, v) = fds v ≡ base + count testfd

  abbrev pub Piped : ℕ → Params → Option (ℤ × ℤ) × World → Option Life × World → Type 0
  Piped base params (none, w) (o, v) = (o ≡ none) × (fds v ≡ base)
  Piped base params (some p, w) r =
      let (testfd, w1) = socket (set_nonblock p.1 w) in
      Connected base (connect testfd params.mc_addr params.mc_port w1).0 testfd r

  abbrev pub Created : World → Option Params → Option Life × World → Type 0
  Created w none (o, v) = (o ≡ none) × (v ≡ w)
  Created w (some params) r = Piped (fds w) params (pipe_create w) r

module _ (glib : GlibText) (sys : Sys) (counts : Counts sys)
    (laws : SocketLaws sys counts.fds) where
  open sys use {World, socket, setsockopt, connect, pipe_create, set_nonblock, close}
  open counts use {fds}

  module _ (params : Params) (p : ℤ × ℤ) (p0 : is_neg p.0 ≡ false) (p1 : is_neg p.1 ≡ false) where
    abbrev sending : ℤ → Life
    sending fd = record (initial glib sys params p) { sendfd = fd }

    destroy-sending :
        (base : ℕ) (fd : ℤ) (w : World)
        → fds w ≡ base + count fd + 2
        → fds (lcm_udpm_destroy sys (sending fd) w) ≡ base
    unfolding lcm_udpm_destroy
    destroy-sending base fd w e =
        let (closed, kept) =
          destroy_recv_parts-IsClosed sys counts (base + count fd + 2) (sending fd) w
            (e ∙ nothing_held (count fd), refl) in
        let w1 = (destroy_recv_parts sys (sending fd) w).1 in
        let w2 = close_fd sys fd w1 in
        counts.close_closes p.1 (close p.0 w2) p1
        ∙ (ap (λ n. n - 1) (counts.close_closes p.0 w2 p0)
            ∙ (ap (λ n. n - 1 - 1) (close_fd-fds sys counts 0 fd w1 ∙ ap (λ n. n - count fd) kept)
                ∙ all_closed (count fd)))
      where
        nothing_held : (c : ℕ) → base + c + 2 ≡ base + c + 2 + (0 + (0 + 0))
        nothing_held c = omega arith

        all_closed : (c : ℕ) → base + c + 2 - c - 1 - 1 ≡ base
        all_closed c = omega arith

    -- The two options of the socket that sends.
    options-Connected :
        (base : ℕ) (testfd fd : ℤ) (w : World)
        → fds w ≡ base + count fd + 2
        → Connected sys counts base true testfd (
            end_create glib sys (
              then_step
                (set_transmit glib sys (λ q. loopback))
                (set_transmit glib sys (λ q. time_to_live q.mc_ttl) (sending fd) w)))
    options-Connected base testfd fd w e =
        first (setsockopt fd (time_to_live params.mc_ttl) w).0
          (setsockopt fd (time_to_live params.mc_ttl) w).1
          (counts.setsockopt_same fd (time_to_live params.mc_ttl) w ∙ e)
      where
        opened : (v : World) → fds v ≡ base + count fd + 2 → is_neg fd ≡ false → fds v ≡ base + 3
        opened v h g = h ∙ (ap (λ b. base + (if b then 0 else 1) + 2) g ∙ omega arith)

        second :
            (ok : Bool) (v : World)
            → fds v ≡ base + count fd + 2
            → (ok ≡ true → is_neg fd ≡ false)
            → Connected sys counts base true testfd (end_create glib sys (ok, (sending fd, v)))
        second true v h k = (
          opened v h (k refl),
          k refl,
          record {
            no_socket = refl;
            no_pipe = (refl, refl);
            no_thread = refl;
            no_queues = (refl, refl);
            no_ringbuf = refl;
          },
        )
        second false v h k = destroy-sending base fd v h

        first :
            (ok : Bool) (v : World)
            → fds v ≡ base + count fd + 2
            → Connected sys counts base true testfd (
                end_create glib sys
                  (then_step (set_transmit glib sys (λ q. loopback)) (ok, (sending fd, v))))
        first true v h =
            second (setsockopt fd loopback v).0 (setsockopt fd loopback v).1
              (counts.setsockopt_same fd loopback v ∙ h) (laws.sets_open fd loopback v)
        first false v h = destroy-sending base fd v h

    with_notify-Connected :
        (base : ℕ) (w : World)
        → fds w ≡ base + 2
        → Piped sys counts base params (some p, w) (with_notify glib sys params (some p, w))
    with_notify-Connected base w e =
        tried (connect testfd params.mc_addr params.mc_port w1).0
          (connect testfd params.mc_addr params.mc_port w1).1
          (laws.connect_same testfd params.mc_addr params.mc_port w1
            ∙ (counts.socket_opens start
                ∙ ap (λ n. n + count testfd) (counts.nonblock_same p.1 w ∙ e)))
          (laws.connects_open testfd params.mc_addr params.mc_port w1)
      where
        start : World
        start = set_nonblock p.1 w

        testfd : ℤ
        testfd = (socket (set_nonblock p.1 w)).0

        w1 : World
        w1 = (socket (set_nonblock p.1 w)).1

        tried :
            (ok : Bool) (v : World)
            → fds v ≡ base + 2 + count (socket (set_nonblock p.1 w)).0
            → (ok ≡ true → is_neg (socket (set_nonblock p.1 w)).0 ≡ false)
            → Connected sys counts base ok (socket (set_nonblock p.1 w)).0 (
                end_create glib sys (
                  then_step
                    (λ l v.
                      then_step
                        (λ l2 v2.
                          then_step
                            (set_transmit glib sys (λ q. loopback))
                            (set_transmit glib sys (λ q. time_to_live q.mc_ttl) l2 v2))
                        (open_transmit glib sys l v))
                    (
                      ok,
                      (
                        initial glib sys params p,
                        if ok then close (socket (set_nonblock p.1 w)).0 v else v,
                      ),
                    )))
        tried true v h k =
            let fd1 = (socket (set_nonblock p.1 w)).0 in
            let v1 = close fd1 v in
            let left =
              counts.close_closes fd1 v (k refl)
              ∙ (ap (λ n. n - 1) (h ∙ ap (λ b. base + 2 + (if b then 0 else 1)) (k refl))
                  ∙ one_less) in
            options-Connected base fd1 (socket v1).0 (socket v1).1 (
              counts.socket_opens v1
              ∙ (ap (λ n. n + count (socket v1).0) left ∙ swapped (count (socket v1).0)))
          where
            one_less : base + 2 + 1 - 1 ≡ base + 2
            one_less = omega arith

            swapped : (c : ℕ) → base + 2 + c ≡ base + c + 2
            swapped c = omega arith
        tried false v h k =
            destroy-sending (base + count (socket (set_nonblock p.1 w)).0) minus_one v
              (h ∙ with_none (count (socket (set_nonblock p.1 w)).0))
          where
            with_none : (c : ℕ) → base + 2 + c ≡ base + c + 0 + 2
            with_none c = omega arith

  with_notify-Piped :
      (w : World) (params : Params) (r : Option (ℤ × ℤ) × World)
      → (r.0 ≡ none → fds r.1 ≡ fds w)
      → ((p : ℤ × ℤ)
          → r.0 ≡ some p
          → (is_neg p.0 ≡ false) × (is_neg p.1 ≡ false) × (fds r.1 ≡ fds w + 2))
      → Piped sys counts (fds w) params r (with_notify glib sys params r)
  with_notify-Piped w params (none, v) closed opened = (refl, closed refl)
  with_notify-Piped w params (some p, v) closed opened =
      let (p0, p1, two) = opened p refl in with_notify-Connected params p p0 p1 (fds w) v two

  -- Whatever call fails, lcm_udpm_create leaves no descriptor open when it gives NULL, but for one: where
  -- connect fails on the socket that tries the connection, that socket stays open. The context that it
  -- makes has three descriptors open, the two ends of its pipe and the socket that sends, and nothing is
  -- held for receiving.
  pub lcm_udpm_create-Created :
      (network : Option Text) (args : List (Text × Text)) (w : World)
      → Created sys counts w
          (parse_mc_addr_and_port glib sys network (new_arguments glib sys args zero_params))
          (lcm_udpm_create glib sys network args w)
  unfolding lcm_udpm_create
  lcm_udpm_create-Created network args w =
      created (parse_mc_addr_and_port glib sys network (new_arguments glib sys args zero_params))
    where
      created : (o : Option Params) → Created sys counts w o (with_params glib sys o w)
      created none = (refl, refl)
      created (some params) =
          with_notify-Piped w params (pipe_create w) (counts.no_pipe w) (counts.pipe_opens w)
