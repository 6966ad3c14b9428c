-- ===== src/Codec/Packet/RoundTrip.antt =====
-- `PacketCodec::encode` and `feed` (src/codec/packet_codec.cc), one on each end of a connection.
use linux_server.Base.{
  ◌≤◌, ◌≡◌, ◌≢◌, refl, true, List, [], ◌∷◌, ◌++◌, append_assoc, append-nil, arith, Bytes, some,
  length, map, All, last?,
}
use linux_server.Codec.Packet.{
  newline, carriage_return, max_packet_size, feed, encode, strip_return, fresh,
}
use linux_server.Codec.Packet.Lines.{complete, residue, all_short, NoNewline}
use linux_server.Codec.Packet.Feed.{feed_lem}

-- A payload that comes back as it was sent: one line, within the limit, with no '\r' at its end.
pub record IsPayload (p : Bytes) : Type 0 where
  pub one_line : NoNewline p
  pub within : length p ≤ max_packet_size
  pub ending : last? p ≢ some carriage_return

-- What the sender writes to the stream.
unfoldable pub encode_all : List Bytes → Bytes
encode_all [] = []
encode_all (p ∷ ps) = encode p ++ encode_all ps

complete-encode :
    (cur p rest : Bytes)
    → NoNewline p
    → (complete cur ((p ++ newline ∷ []) ++ rest) ≡ (cur ++ p) ∷ complete [] rest)
      × (residue cur ((p ++ newline ∷ []) ++ rest) ≡ residue [] rest)
complete-encode cur [] rest h = (ground (arith, append-nil cur), refl)
complete-encode cur (c ∷ cs) rest h =
    ground (arith, complete-encode (cur ++ c ∷ []) cs rest h.1, append_assoc cur (c ∷ []) cs)

strip_payload : (p : Bytes) → IsPayload p → strip_return p ≡ p
unfolding strip_return
strip_payload p h = ground arith

encoded :
    (ps : List Bytes)
    → All IsPayload ps
    → (map strip_return (complete [] (encode_all ps)) ≡ ps)
      × (all_short (complete [] (encode_all ps)) ≡ true)
      × (residue [] (encode_all ps) ≡ [])
unfolding encode_all encode
encoded [] h = (refl, refl, refl)
encoded (p ∷ ps) h = ground (
  arith,
  complete-encode [] p (encode_all ps) h.0.one_line,
  encoded ps h.1,
  strip_payload p h.0,
  h.0.within,
)

-- A receiver with an empty buffer gets back exactly the payloads that were encoded, in order, and
-- keeps nothing; the payloads have no newline, at most `max_packet_size` bytes and no '\r' at the
-- end.
pub feed-encode_all :
    (ps : List Bytes)
    → All IsPayload ps
    → feed fresh (encode_all ps) ≡ record { ok = true; packets = ps; codec = fresh }
feed-encode_all ps h = rw (feed_lem fresh (encode_all ps)) (ground (arith, encoded ps h))
