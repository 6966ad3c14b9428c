-- ===== src/Codec/Packet.antt =====
-- `PacketCodec` (src/codec/packet_codec.cc): cutting the byte stream of a connection into packets.
-- `feed`'s while loop is `feed_loop`, on fuel; one round takes at least one byte off the buffer, so
-- `length buffer + 1` rounds reach its end.
pub mod Lines
pub mod Feed
pub mod Chunks
pub mod RoundTrip
mod Tests
use linux_server.Base.{
  ℕ, zero, suc, ◌+◌, ◌*◌, Bool, true, false, ◌&&◌, not, List, [], ◌∷◌, ◌++◌, Option, none, some,
  Bytes, length, take, drop, last?, init, is_empty, ltb, nat_beq, if◌then◌else◌,
}

-- kMaxPacketSize
abbrev pub max_packet_size : ℕ
max_packet_size = 64 * 1024

-- '\n' and '\r'
abbrev pub newline : ℕ
newline = 10

abbrev pub carriage_return : ℕ
carriage_return = 13

-- The state of the codec: the bytes that do not make up a packet yet.
pub record PacketCodec : Type 0 where
  pub buffer : Bytes

abbrev pub fresh : PacketCodec
fresh = record { buffer = [] }

-- What `feed` returns, and the packets that it hands out.
pub record Fed : Type 0 where
  pub ok : Bool
  pub packets : List Bytes
  pub codec : PacketCodec

-- buffer_.find('\n'); `none` is npos.
unfoldable pub find : ℕ → Bytes → Option ℕ
find b [] = none
find b (c ∷ cs) =
    let later : Option ℕ = elim (find b cs) [ none ↦ none | some p ↦ some (suc p) ] in
    if nat_beq c b then some 0 else later

ends_with_return : Option ℕ → Bool
ends_with_return none = false
ends_with_return (some c) = nat_beq c carriage_return

-- if (!packet.empty() && packet.back() == '\r') packet.pop_back();
unfoldable pub strip_return : Bytes → Bytes
unfolding ends_with_return
strip_return packet =
    if not (is_empty packet) && ends_with_return (last? packet) then init packet else packet

abbrev pub rejected : Fed
rejected = record { ok = false; packets = []; codec = fresh }

-- The check after the loop.
unfoldable pub finish : Bytes → List Bytes → Fed
finish buffer packets =
    if ltb max_packet_size (length buffer)
    then rejected
    else record { ok = true; packets = packets; codec = record { buffer = buffer } }

unfoldable pub feed_loop : ℕ → Bytes → List Bytes → Fed
feed_loop zero buffer packets = finish buffer packets
feed_loop (suc fuel) buffer packets = elim (find newline buffer) [
  | none ↦ finish buffer packets
  | some p ↦
      let rest =
        feed_loop fuel (drop (p + 1) buffer) (packets ++ strip_return (take p buffer) ∷ []) in
      if ltb max_packet_size p then rejected else rest
]

unfoldable pub feed : PacketCodec → Bytes → Fed
feed c chunk = let buffer = c.buffer ++ chunk in feed_loop (length buffer + 1) buffer []

unfoldable pub encode : Bytes → Bytes
encode payload = payload ++ newline ∷ []
