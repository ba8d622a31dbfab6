-- ===== src/Udp/LifeRuns.antt =====
-- A system that counts its open descriptors and the microseconds, and the theorems on it.
use conftron.Base.{
  ℕ, ◌⊎◌, ◌+◌, ◌-◌, ◌/◌, ◌%◌, ◌≡◌, refl, sym, ap, Bool, true, false, not, none, [], ◌∷◌, some, ℤ,
  pos, is_neg,
}
use mathlib.Core.Option.{some-ne-none, some-injective}
use conftron.Handlers.UrlRuns.{glib}
use conftron.Udp.SelfTest.{TestNet}
use conftron.Udp.Life.{Sys, Life, setup_steps, lcm_udpm_subscribe}
use conftron.Udp.Opening.{initial, new_arguments, parse_mc_addr_and_port, lcm_udpm_create}
use conftron.Udp.Created.{zero_params, SocketLaws, Created, lcm_udpm_create-Created}
use conftron.Lcmgen.Text.{codes}
use conftron.Udp.Descriptors.{Counts, TestCounts, IsClosed}
use conftron.Udp.Subscribing.{Busy, Outcome, lcm_udpm_subscribe-Outcome}

-- The open descriptors, the clock, and whether the message of the self test has been handled.
record Host : Type 0 where
  fds : ℕ
  clock : ℕ
  handled : Bool

abbrev host : Sys
host = record {
  World = Host;
  inet_aton = λ text addr. (pos 1, addr);
  socket = λ w. (pos w.fds, record w { fds = w.fds + 1 });
  setsockopt = λ fd o w. (true, w);
  getsockopt_rcvbuf = λ fd w. (pos 212992, w);
  bind = λ fd port w. (true, w);
  connect = λ fd addr port w. (true, w);
  pipe_create = λ w. (some (pos w.fds, pos (w.fds + 1)), record w { fds = w.fds + 2 });
  write_exit = λ fd w. (true, w);
  set_nonblock = λ fd w. w;
  close = λ fd w. record w { fds = w.fds - 1 };
  create_thread = λ w. (true, w);
  join_thread = λ w. w;
}

abbrev host_counts : Counts host
host_counts = record {
  fds = λ w. w.fds;
  socket_opens = λ w. refl;
  close_closes = λ fd w e. refl;
  no_pipe = λ w e. absurd (some-ne-none (pos w.fds, pos (w.fds + 1)) e);
  pipe_opens = λ w p e.
      let q = some-injective (pos w.fds, pos (w.fds + 1)) p e in
      (ap (λ (a, b). is_neg a) (sym q), ap (λ (a, b). is_neg b) (sym q), refl);
  setsockopt_same = λ fd o w. refl;
  getsockopt_same = λ fd w. refl;
  bind_same = λ fd port w. refl;
  write_same = λ fd w. refl;
  nonblock_same = λ fd w. refl;
  create_same = λ w. refl;
  join_same = λ w. refl;
}

-- The message comes in when it is handled; each reading of the clock takes a millisecond.
abbrev host_net : TestNet Host
host_net = record {
  subscribe = λ w. w;
  unsubscribe = λ w. w;
  publish = λ w. w;
  handle = λ w. record w { handled = true };
  success = λ w. w.handled;
  get_current_time = λ w. (
    record { tv_sec = w.clock / 1000000; tv_usec = w.clock % 1000000 },
    record w { clock = w.clock + 1000 },
  );
  select = λ fd t w. (true, w);
}

abbrev host_test : TestCounts host_counts.fds host_net
host_test = record {
  subscribe_same = λ w. refl;
  unsubscribe_same = λ w. refl;
  publish_same = λ w. refl;
  handle_same = λ w. refl;
  time_same = λ w. refl;
  select_same = λ fd t w. refl;
}

abbrev started : Host
started = record { fds = 5; clock = 1700000000000000; handled = false }

abbrev ready : Life
ready =
    initial glib host (record { mc_addr = 0xef; mc_port = 7667; mc_ttl = 0; recv_buf_size = pos 0 })
      (pos 3, pos 4)

ready-IsClosed : IsClosed ready
ready-IsClosed = record {
  no_socket = refl;
  no_pipe = (refl, refl);
  no_thread = refl;
  no_queues = (refl, refl);
  no_ringbuf = refl;
}

lcm_udpm_subscribe-Outcome_example :
    ((o : ℤ × (Life × Host)) × (lcm_udpm_subscribe host host_net 5 ready started ≡ some o)
      × Outcome host host_counts 5 o)
    ⊎ Busy host host_net 5 (setup_steps host ready started)
lcm_udpm_subscribe-Outcome_example =
    lcm_udpm_subscribe-Outcome host host_counts host_net host_test 5 ready started ready-IsClosed

-- A host without a route to the group.
abbrev cut_off : Sys
cut_off = record host {
  connect = λ fd addr port w. (false, w);
  setsockopt = λ fd o w. (not (is_neg fd), w);
}

abbrev cut_off_counts : Counts cut_off
cut_off_counts = record {
  fds = host_counts.fds;
  socket_opens = host_counts.socket_opens;
  close_closes = host_counts.close_closes;
  no_pipe = host_counts.no_pipe;
  pipe_opens = host_counts.pipe_opens;
  setsockopt_same = λ fd o w. refl;
  getsockopt_same = host_counts.getsockopt_same;
  bind_same = host_counts.bind_same;
  write_same = host_counts.write_same;
  nonblock_same = host_counts.nonblock_same;
  create_same = host_counts.create_same;
  join_same = host_counts.join_same;
}

open_if : (b : Bool) → not b ≡ true → b ≡ false
open_if true e = cc e
open_if false e = refl

cut_off-SocketLaws : SocketLaws cut_off host_counts.fds
cut_off-SocketLaws = record {
  connect_same = λ fd addr port w. refl;
  connects_open = λ fd addr port w e. cc e;
  sets_open = λ fd o w e. open_if (is_neg fd) e;
}

lcm_udpm_create-Created_example :
    Created cut_off cut_off_counts started
      (parse_mc_addr_and_port glib cut_off none
        (new_arguments glib cut_off ((codes "ttl", codes "1") ∷ []) zero_params))
      (lcm_udpm_create glib cut_off none ((codes "ttl", codes "1") ∷ []) started)
lcm_udpm_create-Created_example =
    lcm_udpm_create-Created glib cut_off cut_off_counts cut_off-SocketLaws none
      ((codes "ttl", codes "1") ∷ []) started
