-- ===== src/Codec/Packet/Tests.antt =====
-- Runs of the codec (src/codec/packet_codec.cc), and its theorems at concrete inputs.
use linux_server.Base.{All, ◌≡◌, refl, true, [], ◌∷◌, arith, List, Bytes, codes}
use linux_server.Codec.Packet.{feed, find, finish, feed_loop, strip_return, fresh, PacketCodec}
use linux_server.Codec.Packet.Chunks.{
  Agree, IsPacket, feed-packets, feed_all, IsValid, feed_all-eq-feed, feed-IsValid,
}
use linux_server.Codec.Packet.RoundTrip.{encode_all, feed-encode_all}

abbrev half : PacketCodec
half = record { buffer = codes "ab" }

feed_two_packets : feed half (codes "c\r\nd\ne") ≡ record {
  ok = true;
  packets = codes "abc" ∷ codes "d" ∷ [];
  codec = record { buffer = codes "e" };
}
unfolding feed feed_loop find finish strip_return
feed_two_packets = refl

half-IsValid : IsValid half
half-IsValid = record { unterminated = (refl, (refl, tt)); bounded = omega arith }

feed-IsValid_example : IsValid (feed half (codes "c\nd")).codec
feed-IsValid_example = feed-IsValid half (codes "c\nd")

feed_all-eq-feed_example :
    Agree (feed_all half (codes "c" ∷ codes "\nd" ∷ [])) (feed half (codes "c\nd"))
feed_all-eq-feed_example = feed_all-eq-feed half (codes "c" ∷ codes "\nd" ∷ []) half-IsValid

feed-packets_example : All IsPacket (feed half (codes "c\nd")).packets
feed-packets_example = feed-packets half (codes "c\nd")

abbrev payloads : List Bytes
payloads = codes "{}" ∷ [] ∷ codes "ok" ∷ []

feed-encode_all_example :
    feed fresh (encode_all payloads) ≡ record { ok = true; packets = payloads; codec = fresh }
feed-encode_all_example = feed-encode_all payloads (ground arith)
