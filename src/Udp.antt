-- ===== src/Udp.antt =====
-- upstream/lcm/lcm_udp.c: LCM over UDP multicast, and its packets on the wire. Numbers go in network
-- order, except that the sequence number of a short message is sent as it stands in memory.
pub mod Receive
pub mod Transmit
pub mod Reassembly
pub mod Following
pub mod Delivery
pub mod Rest
pub mod Publish
pub mod EndToEnd
pub mod Thread
pub mod Buffers
pub mod Short
pub mod Wraps
pub mod SelfTest
pub mod TestEnds
pub mod Life
pub mod Opening
pub mod Created
pub mod Descriptors
pub mod Closing
pub mod Subscribing
pub mod Runs
mod FragmentRuns
mod LifeRuns
use conftron.Base.{
  ℕ, zero, suc, ◌+◌, ◌*◌, ◌/◌, ◌%◌, ◌^◌, Option, none, some, List, [], ◌∷◌, ◌++◌, take, drop, ◌>>=◌,
}
use conftron.CoreTypes.{bytes16, value16, bytes32, value32}

abbrev pub magic_short : ℕ
magic_short = 0x4c433032

abbrev pub magic_long : ℕ
magic_long = 0x4c433033

abbrev pub short_message_max_size : ℕ
short_message_max_size = 1400

abbrev pub max_channel_name_length : ℕ
max_channel_name_length = 63

abbrev pub max_message_size : ℕ
max_message_size = 2 ^ 28

-- sizeof (lcm2_header_short_t) and sizeof (lcm2_header_long_t)
abbrev pub sizeof_short : ℕ
sizeof_short = 8

abbrev pub sizeof_long : ℕ
sizeof_long = 20

-- lcm2_header_long_t behind its magic number
pub record HeaderLong : Type 0 where
  pub msg_seqno : ℕ
  pub msg_size : ℕ
  pub fragment_offset : ℕ
  pub fragment_no : ℕ
  pub fragments_in_msg : ℕ

-- The bytes of a long header, and what the receiver reads in them.
abbrev pub long_bytes : HeaderLong → List ℕ
long_bytes hdr =
    bytes32 magic_long
    ++ (bytes32 hdr.msg_seqno
        ++ (bytes32 hdr.msg_size
            ++ (bytes32 hdr.fragment_offset
                ++ (bytes16 hdr.fragment_no ++ bytes16 hdr.fragments_in_msg))))

abbrev pub long_header : List ℕ → HeaderLong
long_header buf = record {
  msg_seqno = value32 (take 4 (drop 4 buf));
  msg_size = value32 (take 4 (drop 8 buf));
  fragment_offset = value32 (take 4 (drop 12 buf));
  fragment_no = value16 (take 2 (drop 16 buf));
  fragments_in_msg = value16 (take 2 (drop 18 buf));
}

-- A number as a little-endian machine keeps it.
abbrev pub memory32 : ℕ → List ℕ
memory32 v = (v % 256) ∷ (v / 2 ^ 8 % 256) ∷ (v / 2 ^ 16 % 256) ∷ (v / 2 ^ 24 % 256) ∷ []

-- strlen; `none` if the buffer ends before a NUL.
abbrev pub strlen : List ℕ → Option ℕ
strlen [] = none
strlen (zero ∷ rest) = some 0
strlen (suc c ∷ rest) = strlen rest >>= λ n. some (suc n)
