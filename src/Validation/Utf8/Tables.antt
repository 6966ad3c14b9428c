-- ===== src/Validation/Utf8/Tables.antt =====
-- The bit tests of `DecodeUtf8` (src/common/validator.cc) as ranges of a byte, by checking each.
use linux_server.Base.{
  ℕ, zero, suc, ◌<◌, ◌≡◌, refl, Bool, true, false, ◌&&◌, arith, leb, ltb, nat_beq, not,
}
use Prim.Native.Nat.{bit_and}

-- The test holds of each of the first values.
checked : (ℕ → Bool) → ℕ → Bool
checked test zero = true
checked test (suc top) = checked test top && test top

checked-eq : (test : ℕ → Bool) (top c : ℕ) → c < top → checked test top ≡ true → test c ≡ true
unfolding checked
checked-eq test zero c small all_hold = absurd (omega arith)
checked-eq test (suc top) c small all_hold = ground (arith, checked-eq test top c)

abbrev same : Bool → Bool → Bool
same true b = b
same false b = not b

same-eq : (a b : Bool) → same a b ≡ true → a ≡ b
same-eq true b h = ground arith
same-eq false b h = ground arith

pub two_bytes : (c : ℕ) → c < 256 → nat_beq (bit_and c 0xe0) 0xc0 ≡ (leb 192 c && ltb c 224)
unfolding checked
two_bytes c h =
    same-eq _ _
      (checked-eq (λ c. same (nat_beq (bit_and c 0xe0) 0xc0) (leb 192 c && ltb c 224)) 256 c h refl)

pub three_bytes : (c : ℕ) → c < 256 → nat_beq (bit_and c 0xf0) 0xe0 ≡ (leb 224 c && ltb c 240)
unfolding checked
three_bytes c h =
    same-eq _ _
      (checked-eq (λ c. same (nat_beq (bit_and c 0xf0) 0xe0) (leb 224 c && ltb c 240)) 256 c h refl)

pub four_bytes : (c : ℕ) → c < 256 → nat_beq (bit_and c 0xf8) 0xf0 ≡ (leb 240 c && ltb c 248)
unfolding checked
four_bytes c h =
    same-eq _ _
      (checked-eq (λ c. same (nat_beq (bit_and c 0xf8) 0xf0) (leb 240 c && ltb c 248)) 256 c h refl)

pub continuation : (c : ℕ) → c < 256 → nat_beq (bit_and c 0xc0) 0x80 ≡ (leb 128 c && ltb c 192)
unfolding checked
continuation c h =
    same-eq _ _
      (checked-eq (λ c. same (nat_beq (bit_and c 0xc0) 0x80) (leb 128 c && ltb c 192)) 256 c h refl)
