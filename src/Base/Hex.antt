-- ===== src/Base/Hex.antt =====
-- `std::hex` with `std::setw` and `std::setfill('0')`, and the 64-bit words that ids are mixed from.
use Prim.Native.Nat.{ℕ, zero, suc, ◌+◌, ◌-◌, ◌*◌, ◌/◌, ◌%◌, ◌^◌, ◌<◌}
use mathlib.Core.Path.{◌≡◌, refl}
use mathlib.Core.Bool.{Bool, true, ◌&&◌, ◌||◌}
use mathlib.Core.List.{[], ◌∷◌, ◌++◌}
use native.Mathlib.Omega.{arith}
use linux_server.Base.Tests.{ltb, leb, if◌then◌else◌}
use linux_server.Base.Lists.{All, All-append, length, length-append}
use linux_server.Base.Int.{ℤ, pos, negsuc}
use linux_server.Base.Text.{Bytes}

unfoldable pub hex_digit : ℕ → ℕ
hex_digit n = if ltb n 10 then 48 + n else 87 + n

-- The last `width` digits of a number.
unfoldable pub hex_fixed : ℕ → ℕ → Bytes
hex_fixed zero n = []
hex_fixed (suc width) n = hex_fixed width (n / 16) ++ hex_digit (n % 16) ∷ []

abbrev pub u64 : ℕ
u64 = 2 ^ 64

-- static_cast<uint64_t>
unfoldable pub to_uint64 : ℤ → ℕ
to_uint64 (pos n) = n % u64
to_uint64 (negsuc n) = u64 - 1 - n % u64

-- x << k on `uint64_t`
unfoldable pub shift_left : ℕ → ℕ → ℕ
shift_left x k = x * 2 ^ k % u64

abbrev pub is_lower_hex : ℕ → Bool
is_lower_hex c = (leb b'0' c && leb c b'9') || (leb b'a' c && leb c b'f')

pub length-hex_fixed : (width n : ℕ) → length (hex_fixed width n) ≡ width
unfolding hex_fixed
length-hex_fixed zero n = refl
length-hex_fixed (suc width) n = omega (
  arith,
  length-append (hex_fixed width (n / 16)) (hex_digit (n % 16) ∷ []),
  length-hex_fixed width (n / 16),
)

hex_digit_range : (n : ℕ) → n < 16 → is_lower_hex (hex_digit n) ≡ true
unfolding hex_digit
hex_digit_range n h = ground arith

pub hex_fixed-All : (width n : ℕ) → All (λ c. is_lower_hex c ≡ true) (hex_fixed width n)
unfolding hex_fixed
hex_fixed-All zero n = tt
hex_fixed-All (suc width) n =
    All-append _ (hex_fixed width (n / 16)) (hex_digit (n % 16) ∷ []) (hex_fixed-All width (n / 16))
      (hex_digit_range (n % 16) (omega arith), tt)

-- The loop that writes each byte with `std::setw(2)`.
unfoldable pub hex_bytes : Bytes → Bytes
hex_bytes [] = []
hex_bytes (b ∷ bs) = hex_fixed 2 b ++ hex_bytes bs

pub length-hex_bytes : (bs : Bytes) → length (hex_bytes bs) ≡ 2 * length bs
unfolding hex_bytes
length-hex_bytes [] = refl
length-hex_bytes (b ∷ bs) =
    omega (
      arith,
      length-append (hex_fixed 2 b) (hex_bytes bs),
      length-hex_fixed 2 b,
      length-hex_bytes bs,
    )

pub hex_bytes-All : (bs : Bytes) → All (λ c. is_lower_hex c ≡ true) (hex_bytes bs)
unfolding hex_bytes
hex_bytes-All [] = tt
hex_bytes-All (b ∷ bs) =
    All-append _ (hex_fixed 2 b) (hex_bytes bs) (hex_fixed-All 2 b) (hex_bytes-All bs)
