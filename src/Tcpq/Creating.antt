-- ===== src/Tcpq/Creating.antt =====
-- upstream/lcm/lcm_tcpq.c: lcm_tcpq_create, with the address of the relay. An address is a number, and a
-- port is not in network order.
use conftron.Base.{
  ℕ, Bool, Option, none, some, List, [], ◌∷◌, if◌then◌else◌, ℤ, pos, negsuc, zero, suc, minus_one,
  is_neg,
}
use conftron.Lcmgen.Text.{Text, codes}
use conftron.Handlers.Create.{GlibText}
use conftron.Udp.Opening.{read_port}
use conftron.Tcpq.{Sock, Tcpq, lcm_tcpq_destroy, connect_to_server}

-- The names of hosts: the status of inet_aton and the address, which is as it was if the text is none,
-- and the address that gethostbyname gives, or NULL.
pub record Names : Type 0 where
  pub inet_aton : Text → ℕ → ℤ × ℕ
  pub gethostbyname : Text → Option ℕ

abbrev pub new_tcpq : Tcpq
new_tcpq = record { socket = minus_one; recv_channel_buf_len = 64; data_buf_len = 1024 }

module _ (glib : GlibText) (names : Names) where
  open glib use {g_strsplit}
  open names use {inet_aton, gethostbyname}

  abbrev pub resolve : Text → Option ℕ
  resolve server_addr_str =
      let (status, addr) = inet_aton server_addr_str 0 in
      if is_neg status then gethostbyname server_addr_str else some addr

  -- The port of the second word, or 7700.
  abbrev pub server_port : List Text → Option ℕ
  server_port [] = some 7700
  server_port (word ∷ rest) = read_port word

  abbrev pub both : Option ℕ → Option ℕ → Option (ℕ × ℕ)
  both none port = none
  both (some addr) none = none
  both (some addr) (some port) = some (addr, port)

  abbrev pub parse_words : List Text → Option (ℕ × ℕ)
  parse_words [] = none
  parse_words (addr ∷ port) = both (resolve addr) (server_port port)

  -- The address and the port that a network stands for.
  unfoldable pub parse_network : Option Text → Option (ℕ × ℕ)
  unfolding read_port
  parse_network none = parse_words (g_strsplit (codes "127.0.0.1:7700") (codes ":") (pos 2))
  parse_network (some []) = parse_words (g_strsplit (codes "127.0.0.1:7700") (codes ":") (pos 2))
  parse_network (some (c ∷ network)) = parse_words (g_strsplit (c ∷ network) (codes ":") (pos 2))

  -- `connect` is given the address and the port.
  module _ (sock : Sock) (connect : ℕ → ℕ → ℤ → sock.World → Bool × sock.World) where
    open sock use {World}

    abbrev pub to_server : ℕ × ℕ → Sock
    to_server (addr, port) = record sock { connect = connect addr port }

    abbrev pub end_create : ℤ × Tcpq × World → Option Tcpq × World
    end_create (pos zero, self, w) = (some self, w)
    end_create (pos (suc n), self, w) = (none, lcm_tcpq_destroy sock self w)
    end_create (negsuc n, self, w) = (none, lcm_tcpq_destroy sock self w)

    abbrev pub with_server : Option (ℕ × ℕ) → World → Option Tcpq × World
    with_server none w = (none, lcm_tcpq_destroy sock new_tcpq w)
    with_server (some server) w = end_create (connect_to_server (to_server server) new_tcpq w)

    unfoldable pub lcm_tcpq_create : Option Text → World → Option Tcpq × World
    unfolding parse_network connect_to_server
    lcm_tcpq_create network w = with_server (parse_network network) w

abbrev pub lcm_tcpq_get_fileno : Tcpq → ℤ
lcm_tcpq_get_fileno self = self.socket
