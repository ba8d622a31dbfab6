-- ===== src/Udp/EndToEnd.antt =====
-- A long message from lcm_udpm_publish of one program to the receiving thread of another (lcm_udp.c).
use conftron.Base.{
  ℕ, Bool, ◌+◌, ◌*◌, ◌%◌, ◌^◌, ◌<◌, ◌≤◌, ◌≡◌, ap, subst, sym, none, some, List, [], ◌∷◌, length,
  All, arith, pos,
}
use conftron.RingBuf.{RingBuf}
use conftron.Udp.{max_message_size}
use conftron.Udp.Receive.{FragTable, Udpm}
use conftron.Udp.Reassembly.{IsTable, whole_message}
use conftron.Udp.Following.{Arrivals, join, receive}
use conftron.Udp.Delivery.{IsChannel, Ready, message_packets, receive-message_packets}
use conftron.Udp.Transmit.{Net, publish}
use conftron.Udp.Rest.{accept_all}
use conftron.Udp.Publish.{payload, publish_parts}

module _ (table : FragTable) (malloc : ℕ → List ℕ) (has_handlers : List ℕ → Bool)
    (laws : IsTable table) (a : Arrivals) (u : Udpm table.Table) (channel : List ℕ) (seqno : ℕ)
    (ring : RingBuf) (named : IsChannel channel) (seqno_fits : seqno < 2 ^ 32) where
  abbrev Delivered : List ℕ → List (List ℕ) → Type 0
  Delivered bytes packets =
      (u' : Udpm table.Table) × (receive table malloc has_handlers a u 0 packets
        ≡ some (whole_message channel (length bytes) (a.utime 0) bytes ∷ [], u'))
      × (table.lookup u'.frag_bufs a.sender ≡ none)

  receive_parts :
      (bytes part : List ℕ) (ps : List (List ℕ))
      → join (part ∷ ps) ≡ bytes
      → 0 < length ps
      → length ps + 1 < 2 ^ 16
      → All (λ (p : List ℕ). length p < 2 ^ 16) (part ∷ ps)
      → length bytes ≤ max_message_size
      → Ready table malloc has_handlers u a channel (length bytes) ring
      → Delivered bytes (message_packets seqno channel part ps)
  receive_parts bytes part [] e some_parts few fit small ready = absurd (omega (arith, some_parts))
  receive_parts bytes part (next ∷ ps) e some_parts few fit small ready =
      subst (λ b. Delivered b (message_packets seqno channel part (next ∷ ps))) e
        (receive-message_packets table malloc has_handlers laws a u channel part next ps seqno ring
          named
          (subst (λ b. Ready table malloc has_handlers u a channel (length b) ring) (sym e) ready)
          seqno_fits (omega (arith, few)) fit (omega (arith, small, ap (length {A = ℕ}) e)))

  -- A message of more than 1400 bytes, channel and NUL counted, and at most 1400 * 65535, is sent by
  -- lcm_udpm_publish, on a socket that takes every packet, as packets of which the receiver makes this
  -- one message, channel and data as they were, and keeps no fragments of the sender, whatever bytes
  -- stand behind the packets in memory. The name of the channel is proper and has a subscriber, the
  -- receiver has no fragments of the sender before, is within its limits, and can give the chunk back.
  pub publish-receive :
      (net : Net) (accept : List ℕ → net.World → net.World)
      (takes : (p : List ℕ) (w : net.World) → net.sendmsg p w ≡ (pos (length p), accept p w))
      (bytes : List ℕ) (w : net.World)
      → 1400 < payload channel bytes
      → payload channel bytes ≤ 1400 * 65535
      → Ready table malloc has_handlers u a channel (length bytes) ring
      → (packets : List (List ℕ)) × (publish net channel bytes seqno w
          ≡ some (pos 0, (seqno + 1) % 2 ^ 32, accept_all net accept takes packets w))
        × (u' : Udpm table.Table) × (receive table malloc has_handlers a u 0 packets
            ≡ some (whole_message channel (length bytes) (a.utime 0) bytes ∷ [], u'))
        × (table.lookup u'.frag_bufs a.sender ≡ none)
  publish-receive net accept takes bytes w long bounded ready =
      let (part, ps, sent, same, enough, few, fit) =
        publish_parts net accept takes channel bytes seqno w named.short (omega (arith, long))
          bounded in
      let (u', received, gone) =
        receive_parts bytes part ps same (omega (arith, long, enough)) (omega (arith, few)) fit
          (omega (arith, bounded)) ready in
      (message_packets seqno channel part ps, sent, u', received, gone)
