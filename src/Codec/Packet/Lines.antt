-- ===== src/Codec/Packet/Lines.antt =====
-- The lines of a byte stream, by one pass over it: what the codec is held to.
use linux_server.Base.{
  ◌<◌, ◌≡◌, refl, Bool, true, false, ◌&&◌, List, [], ◌∷◌, ◌++◌, append_assoc, arith, Bytes, length,
  length-append, leb, nat_beq, if◌then◌else◌, inl, inr, Bool-cases, All, All-append,
}
use linux_server.Codec.Packet.{newline, max_packet_size}

-- The complete lines of `cur ++ cs`, where `cur` is what was read of the first.
abbrev pub complete : Bytes → Bytes → List Bytes
complete cur [] = []
complete cur (c ∷ cs) =
    if nat_beq c newline then cur ∷ complete [] cs else complete (cur ++ c ∷ []) cs

-- What follows the last newline.
abbrev pub residue : Bytes → Bytes → Bytes
residue cur [] = cur
residue cur (c ∷ cs) = if nat_beq c newline then residue [] cs else residue (cur ++ c ∷ []) cs

abbrev pub all_short : List Bytes → Bool
all_short [] = true
all_short (l ∷ ls) = leb (length l) max_packet_size && all_short ls

-- Every line of `cur ++ cs`, the last included, is within the limit.
abbrev pub fits : Bytes → Bytes → Bool
fits cur cs = all_short (complete cur cs) && leb (length (residue cur cs)) max_packet_size

abbrev pub NoNewline : Bytes → Type 0
NoNewline = All (λ c. nat_beq c newline ≡ false)

pub complete-append :
    (cur xs ys : Bytes) → complete cur (xs ++ ys) ≡ complete cur xs ++ complete (residue cur xs) ys
complete-append cur [] ys = refl
complete-append cur (x ∷ xs) ys = elim (Bool-cases (nat_beq x newline)) [
  | inl e ↦ ground (arith, complete-append [] xs ys)
  | inr e ↦ ground (arith, complete-append (cur ++ x ∷ []) xs ys)
]

pub residue-append : (cur xs ys : Bytes) → residue cur (xs ++ ys) ≡ residue (residue cur xs) ys
residue-append cur [] ys = refl
residue-append cur (x ∷ xs) ys =
    ground (arith, residue-append [] xs ys, residue-append (cur ++ x ∷ []) xs ys)

-- Bytes without a newline make up no line.
pub complete_clean : (cur xs : Bytes) → NoNewline xs → complete cur xs ≡ []
complete_clean cur [] h = refl
complete_clean cur (x ∷ xs) h = ground (arith, complete_clean (cur ++ x ∷ []) xs h.1)

pub residue_clean : (cur xs : Bytes) → NoNewline xs → residue cur xs ≡ cur ++ xs
residue_clean cur [] h = ground (arith, append_nil' cur)
  where
    append_nil' : (l : Bytes) → l ++ [] ≡ l
    append_nil' [] = refl
    append_nil' (c ∷ cs) = ground (arith, append_nil' cs)
residue_clean cur (x ∷ xs) h =
    ground (arith, residue_clean (cur ++ x ∷ []) xs h.1, append_assoc cur (x ∷ []) xs)

pub residue-NoNewline : (cur xs : Bytes) → NoNewline cur → NoNewline (residue cur xs)
residue-NoNewline cur [] h = h
residue-NoNewline cur (x ∷ xs) h = elim (Bool-cases (nat_beq x newline)) [
  | inl e ↦ rw e (residue-NoNewline [] xs tt)
  | inr e ↦ rw e (residue-NoNewline (cur ++ x ∷ []) xs (All-append _ cur (x ∷ []) h (e, tt)))
]

pub complete-NoNewline : (cur xs : Bytes) → NoNewline cur → All NoNewline (complete cur xs)
complete-NoNewline cur [] h = tt
complete-NoNewline cur (x ∷ xs) h = elim (Bool-cases (nat_beq x newline)) [
  | inl e ↦ rw e (h, complete-NoNewline [] xs tt)
  | inr e ↦ rw e (complete-NoNewline (cur ++ x ∷ []) xs (All-append _ cur (x ∷ []) h (e, tt)))
]

-- A line that is already too long stays so.
pub fits_long : (cur xs : Bytes) → max_packet_size < length cur → fits cur xs ≡ false
fits_long cur [] h = ground arith
fits_long cur (x ∷ xs) h = ground (arith, fits_long (cur ++ x ∷ []) xs, length-append cur (x ∷ []))

pub all_short-append : (xs ys : List Bytes) → all_short (xs ++ ys) ≡ (all_short xs && all_short ys)
all_short-append [] ys = refl
all_short-append (x ∷ xs) ys = ground (arith, all_short-append xs ys)
