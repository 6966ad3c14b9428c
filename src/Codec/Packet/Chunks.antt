-- ===== src/Codec/Packet/Chunks.antt =====
-- How the chunks of a TCP stream (src/TcpServer.cc reads at most 4096 bytes at a time) bear on
-- what `PacketCodec::feed` (src/codec/packet_codec.cc) makes of it.
use linux_server.Base.{
  ◌≤◌, ◌≡◌, ◌⊎◌, sym, subst, true, false, ◌&&◌, List, [], ◌∷◌, ◌++◌, append_assoc, append-nil,
  arith, Bytes, length, last?, not, is_empty, if◌then◌else◌, map, inl, inr, Bool-cases, All,
  All-init, length-init-le,
}
use mathlib.Core.List.{map-append}
use linux_server.Codec.Packet.{
  ends_with_return, max_packet_size, feed, strip_return, rejected, PacketCodec, Fed,
}
use linux_server.Codec.Packet.Lines.{
  complete, residue, fits, all_short, NoNewline, complete_clean, residue_clean, complete-append,
  residue-append, all_short-append, residue-NoNewline, complete-NoNewline, fits_long,
}
use linux_server.Codec.Packet.Feed.{outcome, feed_lem}

-- What a `feed` after another comes to: the packets of both, the later ones behind.
abbrev keeping : Fed → Fed → Fed
keeping a b = if a.ok then record b { packets = a.packets ++ b.packets } else a

-- The packets of each chunk are handed out before the next is read; a connection whose codec
-- rejects a chunk is closed, so no more chunks are fed.
unfoldable pub feed_all : PacketCodec → List Bytes → Fed
feed_all c [] = record { ok = true; packets = []; codec = c }
feed_all c (chunk ∷ chunks) = let a = feed c chunk in keeping a (feed_all a.codec chunks)

-- The same with nothing handed out where the second part is rejected.
abbrev all_or_none : Fed → Fed → Fed
all_or_none a b = if a.ok && b.ok then record b { packets = a.packets ++ b.packets } else rejected

abbrev and_then : Fed → (PacketCodec → Fed) → Fed
and_then a f = all_or_none a (f a.codec)

abbrev pub concat : List Bytes → Bytes
concat [] = []
concat (x ∷ xs) = x ++ concat xs

-- What the buffer holds between two calls.
pub record IsValid (c : PacketCodec) : Type 0 where
  pub unterminated : NoNewline c.buffer
  pub bounded : length c.buffer ≤ max_packet_size

module _ (s t : Bytes) where
  -- The lines of the rest are those of the stream from the residue on.
  complete_rest : complete [] (residue [] s ++ t) ≡ complete (residue [] s) t
  complete_rest =
      let clean = residue-NoNewline [] s tt in
      ground (
        arith,
        complete-append [] (residue [] s) t,
        complete_clean [] (residue [] s) clean,
        residue_clean [] (residue [] s) clean,
      )

  residue_rest : residue [] (residue [] s ++ t) ≡ residue (residue [] s) t
  residue_rest = ground (
    arith,
    residue-append [] (residue [] s) t,
    residue_clean [] (residue [] s) (residue-NoNewline [] s tt),
  )

  outcome_twice : outcome (s ++ t) [] ≡ and_then (outcome s []) (λ d. outcome (d.buffer ++ t) [])
  outcome_twice = ground (
    arith,
    complete-append [] s t,
    residue-append [] s t,
    complete_rest,
    residue_rest,
    all_short-append (complete [] s) (complete (residue [] s) t),
    map-append strip_return (complete [] s) (complete (residue [] s) t),
    fits_long (residue [] s) t,
  )

-- Feeding a chunk in two parts, one after the other, hands out the packets, leaves the buffer and
-- rejects the stream exactly as feeding it whole does, for every state of the codec.
feed-append :
    (c : PacketCodec) (s t : Bytes) → feed c (s ++ t) ≡ and_then (feed c s) (λ d. feed d t)
feed-append c s t =
    rw (feed_lem c (s ++ t), feed_lem c s)
      (ground (
        arith,
        append_assoc c.buffer s t,
        outcome_twice (c.buffer ++ s) t,
        feed_lem (record { buffer = residue [] (c.buffer ++ s) }) t,
        feed_lem (rejected.codec) t,
      ))

-- Every state that `feed` leaves behind holds no newline and at most `max_packet_size` bytes.
pub feed-IsValid : (c : PacketCodec) (chunk : Bytes) → IsValid (feed c chunk).codec
feed-IsValid c chunk = rw (feed_lem c chunk) (go (c.buffer ++ chunk))
  where
    go : (s : Bytes) → IsValid (outcome s []).codec
    go s = elim (Bool-cases (fits [] s)) [
      | inl e ↦ rw e (record { unterminated = residue-NoNewline [] s tt; bounded = ground arith })
      | inr e ↦ rw e (record { unterminated = tt; bounded = omega arith })
    ]

feed_nil : (c : PacketCodec) → IsValid c → feed c [] ≡ record { ok = true; packets = []; codec = c }
feed_nil c v =
    rw (feed_lem c [], append-nil c.buffer)
      (ground (
        arith,
        complete_clean [] c.buffer v.unterminated,
        residue_clean [] c.buffer v.unterminated,
        v.bounded,
      ))

-- Two ways to feed come to the same, or both are rejected.
abbrev pub Agree : Fed → Fed → Type 0
Agree x y = (x ≡ y) ⊎ ((x.ok ≡ false) × (y.ok ≡ false))

keeping_same : (a b : Fed) → Agree (keeping a b) (all_or_none a b)
keeping_same a b = elim (Bool-cases a.ok) [
  | inr e ↦ inr (ground arith, ground arith)
  | inl e ↦ elim (Bool-cases b.ok) [
    | inl f ↦ inl (ground arith)
    | inr f ↦ inr (ground arith, ground arith)
  ]
]

keeping-Agree : (a b b' : Fed) → Agree b b' → Agree (keeping a b) (all_or_none a b')
keeping-Agree a b b' (inl same) =
    subst (λ y. Agree (keeping a b) (all_or_none a y)) same (keeping_same a b)
keeping-Agree a b b' (inr (e, f)) = inr (ground arith, ground arith)

-- From any state that the codec can be in between calls, feeding the chunks of a stream one by one
-- (and closing at the first that is rejected) is rejected exactly if feeding the whole stream at
-- once is, and otherwise hands out the same packets and leaves the same buffer: as long as nothing
-- is rejected, it does not matter where the network cut the stream.
pub feed_all-eq-feed :
    (c : PacketCodec) (chunks : List Bytes)
    → IsValid c
    → Agree (feed_all c chunks) (feed c (concat chunks))
unfolding feed_all
feed_all-eq-feed c [] v = inl (sym (feed_nil c v))
feed_all-eq-feed c (s ∷ rest) v = rw (feed-append c s (concat rest)) (
    keeping-Agree (feed c s) (feed_all (feed c s).codec rest) (feed (feed c s).codec (concat rest))
      (feed_all-eq-feed (feed c s).codec rest (feed-IsValid c s)))

abbrev pub IsPacket : Bytes → Type 0
IsPacket p = NoNewline p × (length p ≤ max_packet_size)

strip-IsPacket : (l : Bytes) → IsPacket l → IsPacket (strip_return l)
unfolding strip_return
strip-IsPacket l h = elim (Bool-cases (not (is_empty l) && ends_with_return (last? l))) [
  | inl e ↦ rw e (All-init _ l h.0, omega (arith, length-init-le l))
  | inr e ↦ rw e h
]

lines-IsPacket :
    (ls : List Bytes) → all_short ls ≡ true → All NoNewline ls → All IsPacket (map strip_return ls)
lines-IsPacket [] short clean = tt
lines-IsPacket (l ∷ ls) short clean =
    (strip-IsPacket l (clean.0, ground arith), lines-IsPacket ls (ground arith) clean.1)

-- Every packet handed out, by an accepted chunk or not, is free of newlines and within the limit.
pub feed-packets : (c : PacketCodec) (chunk : Bytes) → All IsPacket (feed c chunk).packets
feed-packets c chunk = rw (feed_lem c chunk) (go (c.buffer ++ chunk))
  where
    go : (s : Bytes) → All IsPacket (outcome s []).packets
    go s = elim (Bool-cases (fits [] s)) [
      | inl e ↦ rw e (lines-IsPacket (complete [] s) (ground arith) (complete-NoNewline [] s tt))
      | inr e ↦ rw e tt
    ]
