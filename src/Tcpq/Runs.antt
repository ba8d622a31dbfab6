-- ===== src/Tcpq/Runs.antt =====
-- Runs of the TCP provider on a connection to itself: the world is the list of the bytes on their way.
use conftron.Base.{
  ℕ, to_int, zero, suc, ◌<◌, ◌≡◌, refl, ◌≢◌, true, Option, none, some, List, [], ◌∷◌, ◌++◌, ℤ, pos,
  arith,
}
use conftron.Tcpq.{
  Sock, Tcpq, lcm_tcpq_publish, lcm_tcpq_handle, lcm_tcpq_subscribe, lcm_tcpq_unsubscribe,
}
use conftron.Handlers.UrlRuns.{glib}
use conftron.Lcmgen.Text.{codes}
use conftron.Tcpq.Creating.{Names, parse_network, lcm_tcpq_create}
use conftron.Tcpq.Stream.{IsStream, Sends, took, Gives}
use conftron.Tcpq.Publish.{frame}
use conftron.Tcpq.Handle.{Delivered}
use conftron.Tcpq.RoundTrip.{lcm_tcpq_handle-publish}

-- At most three bytes are taken at once, and at most two are given.
abbrev sends : List ℕ → List ℕ → ℤ × List ℕ
sends [] w = (pos 0, w)
sends (a ∷ []) w = (pos 1, w ++ (a ∷ []))
sends (a ∷ b ∷ []) w = (pos 2, w ++ (a ∷ b ∷ []))
sends (a ∷ b ∷ c ∷ bs) w = (pos 3, w ++ (a ∷ b ∷ c ∷ []))

abbrev gives : ℕ → List ℕ → Option (List ℕ) × List ℕ
gives n [] = (none, [])
gives zero (a ∷ w) = (none, a ∷ w)
gives (suc zero) (a ∷ w) = (some (a ∷ []), w)
gives (suc (suc n)) (a ∷ []) = (some (a ∷ []), [])
gives (suc (suc n)) (a ∷ b ∷ w) = (some (a ∷ b ∷ []), w)

abbrev loop : Sock
loop = record {
  World = List ℕ;
  send = λ fd. sends;
  recv = λ fd. gives;
  open_socket = λ w. (pos 5, w);
  connect = λ fd w. (true, w);
  close = λ fd w. w;
  now = λ w. 7;
  realloc_works = λ n. true;
}

abbrev self : Tcpq
self = record { socket = pos 5; recv_channel_buf_len = 2; data_buf_len = 1024 }

sends-Sends :
    (b : ℕ) (bs w : List ℕ) → Sends {World = List ℕ} (λ v. v) (b ∷ bs) w (sends (b ∷ bs) w)
sends-Sends b [] w = took 0 _ (omega arith) refl
sends-Sends b (c ∷ []) w = took 1 _ (omega arith) refl
sends-Sends b (c ∷ d ∷ bs) w = took 2 _ (omega arith) refl

gives-Gives :
    (n : ℕ) (w : List ℕ) → 0 < n → w ≢ [] → Gives {World = List ℕ} (λ v. v) n w (gives n w)
gives-Gives n [] h k = absurd (k refl)
gives-Gives zero (a ∷ w) h k = absurd (omega arith)
gives-Gives (suc zero) (a ∷ w) h k = record {
  first = a;
  more = [];
  result = refl;
  fits = omega arith;
  still = refl;
}
gives-Gives (suc (suc n)) (a ∷ []) h k = record {
  first = a;
  more = [];
  result = refl;
  fits = omega arith;
  still = refl;
}
gives-Gives (suc (suc n)) (a ∷ b ∷ w) h k = record {
  first = a;
  more = b ∷ [];
  result = refl;
  fits = omega arith;
  still = refl;
}

abbrev stream : IsStream loop (pos 5)
stream = record {
  sent = λ w. w;
  to_come = λ w. w;
  send-Sends = sends-Sends;
  recv-Gives = gives-Gives;
}

publish_runs :
    lcm_tcpq_publish loop self (97 ∷ 98 ∷ []) (1 ∷ 2 ∷ 3 ∷ []) []
    ≡ (pos 0, self, frame (97 ∷ 98 ∷ []) (1 ∷ 2 ∷ 3 ∷ []))
unfolding lcm_tcpq_publish
publish_runs = refl

handle_runs : lcm_tcpq_handle loop self (frame (97 ∷ 98 ∷ []) (1 ∷ 2 ∷ 3 ∷ []) ++ (9 ∷ [])) ≡ (
  (pos 0, some (record { channel = 97 ∷ 98 ∷ []; bytes = 1 ∷ 2 ∷ 3 ∷ []; recv_utime = 7 })),
  record self { recv_channel_buf_len = 3 },
  9 ∷ [],
)
unfolding lcm_tcpq_handle
handle_runs = refl

-- To unsubscribe is to subscribe.
unsubscribe_runs :
    lcm_tcpq_unsubscribe loop self (97 ∷ []) [] ≡ lcm_tcpq_subscribe loop self (97 ∷ []) []
unfolding lcm_tcpq_unsubscribe lcm_tcpq_subscribe
unsubscribe_runs = refl

lcm_tcpq_handle-publish_example :
    Delivered loop
      (pos 5)
      stream
      (97 ∷ 98 ∷ [])
      (1 ∷ 2 ∷ 3 ∷ [])
      (9 ∷ [])
      (lcm_tcpq_handle loop self (frame (97 ∷ 98 ∷ []) (1 ∷ 2 ∷ 3 ∷ []) ++ (9 ∷ [])))
unfolding lcm_tcpq_publish
lcm_tcpq_handle-publish_example =
    lcm_tcpq_handle-publish loop self self stream stream (97 ∷ 98 ∷ []) (1 ∷ 2 ∷ 3 ∷ [])
      (frame (97 ∷ 98 ∷ []) (1 ∷ 2 ∷ 3 ∷ [])) (9 ∷ []) []
      (frame (97 ∷ 98 ∷ []) (1 ∷ 2 ∷ 3 ∷ []) ++ (9 ∷ [])) refl refl (λ n h. refl) (omega arith)
      (omega arith) (omega arith) refl refl refl

-- Every text is an address to inet_aton, as the code tests it: a name without digits stands for 0.
abbrev names : Names
names = record { inet_aton = λ text addr. (pos 0, addr); gethostbyname = λ text. some 99 }

names_run : parse_network glib names (some (codes "relay:0x20")) ≡ some (0, 32)
unfolding parse_network to_int
names_run = refl

default_port_run : parse_network glib names (some (codes "relay")) ≡ some (0, 7700)
unfolding parse_network to_int
default_port_run = refl

bad_port_run : parse_network glib names (some (codes "relay:70000")) ≡ none
unfolding parse_network to_int
bad_port_run = refl

-- A peer that gives back what it gets is no relay.
create_run : (lcm_tcpq_create glib names loop (λ addr port fd w. (true, w)) none []).0 ≡ none
unfolding lcm_tcpq_create to_int
create_run = refl
