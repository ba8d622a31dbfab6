-- ===== src/Udp/Opening.antt =====
-- upstream/lcm/lcm_udp.c: lcm_udpm_create, with the arguments and the address of the network.
use conftron.Base.{
  ℕ, ◌-◌, ◌%◌, Bool, true, false, Option, none, some, List, [], ◌∷◌, if◌then◌else◌, ltb, ℤ, pos,
  negsuc, minus_one, is_neg,
}
use conftron.Lcmgen.Text.{Text, codes, streq}
use conftron.Lcmgen.Numbers.{strtoll, narrow, or_zero}
use conftron.Handlers.Create.{GlibText}
use conftron.Udp.Life.{
  Params, SocketOption, time_to_live, loopback, Sys, Life, Step, ◌⨾◌, lcm_udpm_destroy,
}

-- A port that strtol reads, as an int between 0 and 65535.
abbrev pub as_port : ℤ → Option ℕ
as_port (pos port) = if ltb 65535 port then none else some port
as_port (negsuc n) = none

abbrev pub port_read : Option (ℤ × Text) → Option ℕ
port_read none = none
port_read (some (v, rest)) = as_port (narrow v)

unfoldable pub read_port : Text → Option ℕ
unfolding strtoll
read_port word = port_read (strtoll word)

module _ (glib : GlibText) (sys : Sys) where
  open glib use {g_strsplit}
  open sys use {World, inet_aton, socket, setsockopt, connect, pipe_create, set_nonblock, close}

  -- htons, and the cast to uint8_t
  abbrev pub as_byte : ℤ → ℕ
  as_byte (pos n) = n % 256
  as_byte (negsuc n) = 255 - n % 256

  -- new_argument
  unfoldable pub new_argument : Text → Text → Params → Params
  unfolding strtoll
  new_argument key value params =
      if streq key (codes "recv_buf_size")
      then record params { recv_buf_size = narrow (or_zero (strtoll value)) }
      else if streq key (codes "ttl")
      then record params { mc_ttl = as_byte (or_zero (strtoll value)) }
      else params

  abbrev pub with_port : Params → Option ℕ → Option Params
  with_port params none = none
  with_port params (some port) = some (record params { mc_port = port })

  abbrev pub with_addr : Params → List Text → ℤ × ℕ → Option Params
  with_addr params port_words (status, addr) = if is_neg status then none else port_part port_words
    where
      given : Params
      given = record params { mc_addr = addr }

      port_part : List Text → Option Params
      port_part [] = some given
      port_part (port ∷ rest) = with_port given (read_port port)

  abbrev pub parse_words : Params → List Text → Option Params
  parse_words params [] = none
  parse_words params (addr ∷ port_words) =
      with_addr params port_words (inet_aton addr params.mc_addr)

  -- parse_mc_addr_and_port; the result -1 is `none`.
  unfoldable pub parse_mc_addr_and_port : Option Text → Params → Option Params
  unfolding read_port
  parse_mc_addr_and_port none params =
      parse_words params (g_strsplit (codes "239.255.76.67:7667") (codes ":") (pos 2))
  parse_mc_addr_and_port (some []) params =
      parse_words params (g_strsplit (codes "239.255.76.67:7667") (codes ":") (pos 2))
  parse_mc_addr_and_port (some (c ∷ str)) params =
      parse_words params (g_strsplit (c ∷ str) (codes ":") (pos 2))

  -- lcm_udpm_create
  abbrev pub new_arguments : List (Text × Text) → Params → Params
  unfolding new_argument
  new_arguments [] params = params
  new_arguments ((key, value) ∷ args) params = new_arguments args (new_argument key value params)

  abbrev pub initial : Params → ℤ × ℤ → Life
  initial params notify_pipe = record {
    recvfd = minus_one;
    sendfd = minus_one;
    params = params;
    kernel_rbuf_sz = pos 0;
    inbufs_empty = none;
    inbufs_filled = none;
    ringbuf = none;
    thread_created = false;
    notify_pipe = notify_pipe;
    thread_msg_pipe = (minus_one, minus_one);
    has_frag_bufs = true;
  }

  -- The socket that only tries the connection.
  abbrev pub test_connection : Step World
  test_connection l w =
      let (testfd, w1) = socket w in
      let (ok, w2) = connect testfd l.params.mc_addr l.params.mc_port w1 in
      (ok, (l, if ok then close testfd w2 else w2))

  abbrev pub open_transmit : Step World
  open_transmit l w = let (fd, w1) = socket w in (true, (record l { sendfd = fd }, w1))

  abbrev pub set_transmit : (Params → SocketOption) → Step World
  set_transmit o l w = let (ok, w1) = setsockopt l.sendfd (o l.params) w in (ok, (l, w1))

  abbrev pub create_steps : Step World
  create_steps =
      test_connection
      ⨾ open_transmit
      ⨾ set_transmit (λ p. time_to_live p.mc_ttl)
      ⨾ set_transmit (λ p. loopback)

  abbrev pub end_create : Bool × (Life × World) → Option Life × World
  end_create (true, (l, w)) = (some l, w)
  end_create (false, (l, w)) = (none, lcm_udpm_destroy sys l w)

  abbrev pub with_notify : Params → Option (ℤ × ℤ) × World → Option Life × World
  with_notify params (none, w) = (none, w)
  with_notify params (some p, w) = end_create (create_steps (initial params p) (set_nonblock p.1 w))

  abbrev pub with_params : Option Params → World → Option Life × World
  with_params none w = (none, w)
  with_params (some params) w = with_notify params (pipe_create w)

  unfoldable pub lcm_udpm_create : Option Text → List (Text × Text) → World → Option Life × World
  unfolding parse_mc_addr_and_port lcm_udpm_destroy
  lcm_udpm_create network args w =
      with_params
        (parse_mc_addr_and_port network (
          new_arguments args
            (record { mc_addr = 0; mc_port = 0; mc_ttl = 0; recv_buf_size = pos 0 })))
        w
