-- ===== src/Logprov/Runs.antt =====
-- Runs of the log-file provider at concrete hosts.
use conftron.Base.{
  ℕ, ◌+◌, ◌%◌, ◌^◌, ◌≡◌, refl, true, false, Option, none, some, List, [], ◌∷◌, ℤ, pos, minus_one,
  arith, read_bytes,
}
use conftron.IoUtils.{fwrite, fwrite32, fwrite64}
use conftron.EventLog.{write_event}
use conftron.Logprov.Creating.{lcm_logprov_create}
use conftron.Logprov.{Host, Ends, Mode, Logprov, opened, lcm_logprov_publish, timer_round}
use conftron.Logprov.Published.{Sent, publish_all}
use conftron.Logprov.Play.{playback, IsPlayed, playback-publish}

-- The world is what has been done to the descriptors, a close with its number, a write of a
-- character the number 100.
abbrev host_with : Option (ℤ × ℤ) → Host
host_with pipe = record {
  World = List ℤ;
  Speed = ℕ;
  one = 1;
  strtod = λ s. 0;
  is_positive = λ n. true;
  next_time = λ t d n. (t + d) % 2 ^ 64;
  now = λ w. 50;
  pipe_create = λ w. (pipe, w);
  close = λ fd w. fd ∷ w;
  read_char = λ fd w. (pos 1, w);
  write_char = λ fd w. pos 100 ∷ w;
  read_time = λ fd w. (some 40, w);
  write_time = λ fd t w. pos t ∷ w;
  select = λ fd s u w. (pos 0, w);
  create_thread = λ w. (true, w);
  join_thread = λ w. w;
  fopen = λ name writes w. (some (record { contents = []; place = 0; space = 500 }), w);
}

abbrev host : Host
host = host_with (some (pos 5, pos 6))

abbrev ends : Ends
ends = record { thread_created = false; notify_pipe = (pos 5, pos 6); timer_pipe = (pos 7, pos 8) }

abbrev writing : Mode ℕ
writing = record { writer = true; speed = 1 }

abbrev playing : Mode ℕ
playing = record { writer = false; speed = 1 }

abbrev empty : Logprov ℕ
empty = opened host ends writing (record { contents = []; place = 0; space = 200 })

abbrev first : Sent host
first = record { channel = 65 ∷ []; bytes = 1 ∷ 2 ∷ []; moment = [] }

abbrev second : Sent host
second = record { channel = 66 ∷ 67 ∷ []; bytes = []; moment = [] }

-- Without a pipe, the destructor closes the descriptor 0, the standard input.
create_runs :
    lcm_logprov_create (host_with none) (108 ∷ []) [] []
    ≡ some (none, pos 0 ∷ pos 0 ∷ pos 0 ∷ pos 0 ∷ [])
unfolding lcm_logprov_create
create_runs = refl

-- A time that has passed gives a character at once.
timer_runs : timer_round host ends [] ≡ (true, pos 100 ∷ [])
unfolding timer_round
timer_runs = refl

-- A player does not publish.
publish_runs :
    lcm_logprov_publish host
      (opened host ends playing (record { contents = []; place = 0; space = 0 }))
      (65 ∷ [])
      []
      []
    ≡ some (minus_one, opened host ends playing (record { contents = []; place = 0; space = 0 }))
unfolding lcm_logprov_publish
publish_runs = refl

-- A full device: the message is lost, and the result is 0.
abbrev status_of : Option (ℤ × Logprov ℕ) → Option (ℤ × List ℕ)
status_of none = none
status_of (some (status, lr)) = some (status, lr.log.f.contents)

full_runs :
    status_of (
      lcm_logprov_publish host
        (opened host ends writing (record { contents = []; place = 0; space = 0 }))
        (65 ∷ [])
        []
        [])
    ≡ some (pos 0, [])
unfolding lcm_logprov_publish write_event fwrite fwrite32 fwrite64 read_bytes
full_runs = refl

playback-publish_example :
    (lr : Logprov ℕ) × ((publish_all host empty (first ∷ second ∷ []) ≡ some lr)
      × IsPlayed host (first ∷ second ∷ []) (playback host ends playing 2 [] lr.log.f.contents))
playback-publish_example =
    playback-publish host ends ends writing playing first (second ∷ []) 200 []
      (λ fd w. (0, (w, refl))) refl
      (
        ((omega arith, tt), omega arith, omega arith),
        (((omega arith, (omega arith, tt)), omega arith, omega arith), tt),
      )
      (omega arith)
