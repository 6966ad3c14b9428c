-- ===== src/Codec/Packet/Feed.antt =====
-- `PacketCodec::feed` (src/codec/packet_codec.cc) against the one-pass reference of Lines.
use linux_server.Base.{
  ℕ, zero, suc, ◌+◌, ◌<◌, ◌≡◌, true, List, [], ◌∷◌, ◌++◌, append_assoc, append-nil, arith, Bytes,
  length, nat_beq, if◌then◌else◌, map, inl, inr, Bool-cases, none, some, Option-cases, take, drop,
}
use linux_server.Codec.Packet.{
  newline, find, feed_loop, feed, finish, strip_return, rejected, PacketCodec, Fed,
}
use linux_server.Codec.Packet.Lines.{
  complete, residue, fits, NoNewline, complete_clean, residue_clean,
}

-- What a run over `s` comes to, with `packets` handed out before.
abbrev pub outcome : Bytes → List Bytes → Fed
outcome s packets =
    if fits [] s
    then record {
      ok = true;
      packets = packets ++ map strip_return (complete [] s);
      codec = record { buffer = residue [] s };
    }
    else rejected

find-none : (xs : Bytes) → find newline xs ≡ none → NoNewline xs
unfolding find
find-none [] h = tt
find-none (x ∷ xs) h = elim (Option-cases (find newline xs)) [
  | inl e ↦ (ground arith, find-none xs e)
  | inr (p, e) ↦ absurd (ground arith)
]

abbrev Found : Bytes → Bytes → ℕ → Type 0
Found cur xs p =
    (complete cur xs ≡ (cur ++ take p xs) ∷ complete [] (drop (p + 1) xs))
    × (residue cur xs ≡ residue [] (drop (p + 1) xs))
    × (length (take p xs) ≡ p)
    × (length (drop (p + 1) xs) < length xs)

find-some : (cur xs : Bytes) (p : ℕ) → find newline xs ≡ some p → Found cur xs p
unfolding find
find-some cur [] p h = absurd (ground arith)
find-some cur (x ∷ xs) p h = elim (Bool-cases (nat_beq x newline)) [
  | inl here ↦ ground (arith, append-nil cur)
  | inr later ↦ elim (Option-cases (find newline xs)) [
    | inl e ↦ absurd (ground arith)
    | inr (q, e) ↦
        let step : Found (cur ++ x ∷ []) xs q = find-some (cur ++ x ∷ []) xs q e in
        ground (arith, append_assoc cur (x ∷ []) (take q xs))
  ]
]

pub feed_loop_lem :
    (fuel : ℕ) (buffer : Bytes) (packets : List Bytes)
    → length buffer < fuel
    → feed_loop fuel buffer packets ≡ outcome buffer packets
unfolding feed_loop finish
feed_loop_lem zero buffer packets h = elim h [ ]
feed_loop_lem (suc fuel) buffer packets h = elim (Option-cases (find newline buffer)) [
  | inl e ↦
      rw (e, feed_loop)
        (ground (
          arith,
          complete_clean [] buffer (find-none buffer e),
          residue_clean [] buffer (find-none buffer e),
          append-nil packets,
        ))
  | inr (p, e) ↦
      let found : Found [] buffer p = find-some [] buffer p e in
      rw (e, feed_loop)
        (ground (
          arith,
          feed_loop_lem fuel (drop (p + 1) buffer) (packets ++ strip_return (take p buffer) ∷ []),
          append_assoc packets (strip_return (take p buffer) ∷ [])
              (map strip_return (complete [] (drop (p + 1) buffer))),
        ))
]

-- `feed` cuts the buffered bytes and the chunk into lines in one go, as the reference does.
pub feed_lem : (c : PacketCodec) (chunk : Bytes) → feed c chunk ≡ outcome (c.buffer ++ chunk) []
unfolding feed
feed_lem c chunk = feed_loop_lem _ (c.buffer ++ chunk) [] (omega arith)
