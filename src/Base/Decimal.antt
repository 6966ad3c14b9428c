-- ===== src/Base/Decimal.antt =====
-- `std::to_string` of integers and `std::strtoll` in base ten (`ParseInteger` of
-- src/stream/redis_push_stream.cc and src/server/redis_session_store.cc), and `std::hex`.
use Prim.Native.Nat.{ℕ, zero, suc, ◌+◌, ◌-◌, ◌*◌, ◌/◌, ◌%◌, ◌^◌, ◌≤◌, ◌<◌}
use mathlib.Core.Path.{◌≡◌, refl, ap, ◌∙◌, sym}
use mathlib.Core.Logic.{inl, inr}
use mathlib.Core.Bool.{Bool, true, false, ◌&&◌, ◌||◌}
use mathlib.Core.Option.{Option, none, some}
use mathlib.Core.List.{[], ◌∷◌, ◌++◌}
use native.Mathlib.Omega.{arith}
use linux_server.Base.Tests.{ltb, leb, nat_beq, if◌then◌else◌, Bool-cases}
use linux_server.Base.Lists.{All, All-append, length, length-append}
use linux_server.Base.Int.{ℤ, pos, negsuc}
use linux_server.Base.Text.{Bytes}

abbrev pub is_decimal : ℕ → Bool
is_decimal c = leb b'0' c && leb c b'9'

-- Each round takes a digit off, so `suc n` rounds are enough.
unfoldable pub decimal : ℕ → ℕ → Bytes
decimal zero n = []
decimal (suc fuel) n = elim (ltb n 10) [
  | true ↦ (48 + n) ∷ []
  | false ↦ decimal fuel (n / 10) ++ (48 + n % 10) ∷ []
]

unfoldable pub nat_to_string : ℕ → Bytes
unfolding decimal
nat_to_string n = decimal (suc n) n

unfoldable pub to_string : ℤ → Bytes
unfolding nat_to_string
to_string (pos n) = nat_to_string n
to_string (negsuc n) = b'-' ∷ nat_to_string (suc n)

-- The digits at the front: how many there are, their value behind `acc`, and what follows.
unfoldable pub scan_digits : ℕ → ℕ → Bytes → ℕ × ℕ × Bytes
scan_digits count acc [] = (count, acc, [])
scan_digits count acc (c ∷ cs) =
    let rest = scan_digits (suc count) (acc * 10 + (c - 48)) cs in
    if is_decimal c then rest else (count, acc, c ∷ cs)

-- isspace of the C locale.
abbrev is_space : ℕ → Bool
is_space c = nat_beq c 32 || (leb 9 c && leb c 13)

unfoldable pub skip_spaces : Bytes → Bytes
skip_spaces [] = []
skip_spaces (c ∷ cs) = let rest = skip_spaces cs in if is_space c then rest else c ∷ cs

-- The text up to its first NUL, as `c_str()` is read.
unfoldable pub until_nul : Bytes → Bytes
until_nul [] = []
until_nul (c ∷ cs) = let rest = c ∷ until_nul cs in if nat_beq c 0 then [] else rest

abbrev pub max_int64 : ℕ
max_int64 = 2 ^ 63 - 1

-- The value is clamped to the range of `long long`.
clamp : Bool → ℕ → ℤ
clamp false n = if ltb max_int64 n then pos max_int64 else pos n
clamp true zero = pos 0
clamp true (suc n) = if ltb max_int64 n then negsuc max_int64 else negsuc n

accept_digits : Bool → ℕ × ℕ × Bytes → Option ℤ
unfolding clamp
accept_digits negative (count, value, rest) =
    if nat_beq count 0 || not_empty rest then none else some (clamp negative value)
  where
    not_empty : Bytes → Bool
    not_empty [] = false
    not_empty (c ∷ cs) = true

signed : Bytes → Option ℤ
unfolding accept_digits
signed [] = accept_digits false (scan_digits 0 0 [])
signed (c ∷ cs) =
    if nat_beq c b'-'
    then accept_digits true (scan_digits 0 0 cs)
    else if nat_beq c b'+'
    then accept_digits false (scan_digits 0 0 cs)
    else accept_digits false (scan_digits 0 0 (c ∷ cs))

-- `none` where nothing is read (`end == value.c_str()`) or something is left (`*end != '\0'`).
unfoldable pub parse_integer : Bytes → Option ℤ
unfolding signed skip_spaces until_nul scan_digits
parse_integer value = signed (skip_spaces (until_nul value))

abbrev pub IsDecimal : Bytes → Type 0
IsDecimal = All (λ c. is_decimal c ≡ true)

pub decimal-IsDecimal :
    (fuel n : ℕ) → n < fuel → IsDecimal (decimal fuel n) × (0 < length (decimal fuel n))
unfolding decimal
decimal-IsDecimal zero n h = absurd (omega arith)
decimal-IsDecimal (suc fuel) n h = elim (Bool-cases (ltb n 10)) [
  | inl e ↦ rw (e, decimal) ((ground arith, tt), omega arith)
  | inr e ↦
      let ih = decimal-IsDecimal fuel (n / 10) (ground arith) in
      rw (e, decimal)
        (
          All-append _ (decimal fuel (n / 10)) ((48 + n % 10) ∷ []) ih.0 (ground arith, tt),
          omega (arith, length-append (decimal fuel (n / 10)) ((48 + n % 10) ∷ [])),
        )
]

-- The number that digits stand for, behind those that make `acc`.
abbrev value : ℕ → Bytes → ℕ
value acc [] = acc
value acc (c ∷ cs) = value (acc * 10 + (c - 48)) cs

value-append : (acc : ℕ) (xs ys : Bytes) → value acc (xs ++ ys) ≡ value (value acc xs) ys
value-append acc [] ys = refl
value-append acc (x ∷ xs) ys = value-append (acc * 10 + (x - 48)) xs ys

value-decimal : (fuel n : ℕ) → n < fuel → value 0 (decimal fuel n) ≡ n
unfolding decimal
value-decimal zero n h = absurd (omega arith)
value-decimal (suc fuel) n h = elim (Bool-cases (ltb n 10)) [
  | inl e ↦ rw (e, decimal) (omega arith)
  | inr e ↦
      rw (e, decimal)
        (omega (
          arith,
          value-append 0 (decimal fuel (n / 10)) ((48 + n % 10) ∷ []),
          value-decimal fuel (n / 10) (ground arith),
        ))
]

scan_digits_all :
    (count acc : ℕ) (ds : Bytes)
    → IsDecimal ds
    → scan_digits count acc ds ≡ (count + length ds, value acc ds, [])
unfolding scan_digits
scan_digits_all count acc [] h = ground arith
scan_digits_all count acc (d ∷ ds) h =
    ground (arith, scan_digits_all (suc count) (acc * 10 + (d - 48)) ds h.1)

until_nul_digits : (ds : Bytes) → IsDecimal ds → until_nul ds ≡ ds
unfolding until_nul
until_nul_digits [] h = refl
until_nul_digits (d ∷ ds) h = ground (arith, until_nul_digits ds h.1)

-- Digits, read back.
parse_digits :
    (ds : Bytes)
    → IsDecimal ds
    → 0 < length ds
    → value 0 ds ≤ max_int64
    → parse_integer ds ≡ some (pos (value 0 ds))
unfolding parse_integer
parse_digits [] h some_digit small = absurd (omega arith)
parse_digits (d ∷ ds) h some_digit small =
    rw (until_nul_digits (d ∷ ds) h) (ground (arith, scan_digits_all 0 0 (d ∷ ds) h))

parse_negative :
    (ds : Bytes) (n : ℕ)
    → IsDecimal ds
    → 0 < length ds
    → value 0 ds ≡ suc n
    → n ≤ max_int64
    → parse_integer (b'-' ∷ ds) ≡ some (negsuc n)
unfolding parse_integer
parse_negative ds n h some_digit e small =
    ground (arith, until_nul_digits ds h, scan_digits_all 0 0 ds h)

abbrev pub InRange : ℤ → Type 0
InRange (pos n) = n ≤ max_int64
InRange (negsuc n) = n ≤ max_int64

-- What `std::to_string` writes of an `int64_t` is read back by `ParseInteger`.
pub parse_integer-to_string : (z : ℤ) → InRange z → parse_integer (to_string z) ≡ some z
unfolding to_string
parse_integer-to_string (pos n) h =
    let d = decimal-IsDecimal (suc n) n (omega arith) in
    let v = value-decimal (suc n) n (omega arith) in
    parse_digits (decimal (suc n) n) d.0 d.1 (omega arith) ∙ ap (λ k. some (pos k)) v
parse_integer-to_string (negsuc n) h =
    let d = decimal-IsDecimal (suc (suc n)) (suc n) (omega arith) in
    parse_negative (decimal (suc (suc n)) (suc n)) n d.0 d.1
      (value-decimal (suc (suc n)) (suc n) (omega arith)) h

pub nat_to_string-injective : (m n : ℕ) → nat_to_string m ≡ nat_to_string n → m ≡ n
unfolding nat_to_string
nat_to_string-injective m n e =
    sym (value-decimal (suc m) m (omega arith))
    ∙ ap (value 0) e
    ∙ value-decimal (suc n) n (omega arith)

-- Digits end where a byte that is none follows them.
pub decimal_split :
    (c : ℕ) (xs ys a b : Bytes)
    → is_decimal c ≡ false
    → IsDecimal xs
    → IsDecimal ys
    → xs ++ c ∷ a ≡ ys ++ c ∷ b
    → (xs ≡ ys) × (a ≡ b)
decimal_split c [] [] a b n h k e = (refl, cc e)
decimal_split c [] (y ∷ ys) a b n h k e = absurd (ground arith)
decimal_split c (x ∷ xs) [] a b n h k e = absurd (ground arith)
decimal_split c (x ∷ xs) (y ∷ ys) a b n h k e =
    let ih = decimal_split c xs ys a b n h.1 k.1 (cc e) in (cc (e, ih.0), ih.1)

pub nat_to_string-IsDecimal : (n : ℕ) → IsDecimal (nat_to_string n)
unfolding nat_to_string
nat_to_string-IsDecimal n = (decimal-IsDecimal (suc n) n (omega arith)).0
