-- ===== src/Validation/Utf8/Encoding.antt =====
-- `DecodeUtf8` (src/common/validator.cc) against the encoding form of the Unicode standard.
use linux_server.Base.{
  ℕ, suc, ◌+◌, ◌*◌, ◌/◌, ◌%◌, ◌<◌, ◌≤◌, ◌≡◌, refl, Bool, false, ◌||◌, List, [], ◌∷◌, ◌++◌, some,
  arith, Bytes, ltb, if◌then◌else◌, ◌⊎◌, inl, inr, Bool-cases,
}
use linux_server.Validation.Utf8.{lead_length, continuations, is_malformed, is_control, decode_one}
use linux_server.Validation.Utf8.Tables.{two_bytes, three_bytes, four_bytes, continuation}

abbrev pub IsScalar : ℕ → Type 0
IsScalar c = (c < 0xd800) ⊎ ((0xe000 ≤ c) × (c ≤ 0x10ffff))

abbrev pub encode : ℕ → Bytes
encode c =
    if ltb c 0x80
    then c ∷ []
    else if ltb c 0x800
    then (192 + c / 64) ∷ (128 + c % 64) ∷ []
    else if ltb c 0x10000
    then (224 + c / 4096) ∷ (128 + c / 64 % 64) ∷ (128 + c % 64) ∷ []
    else (240 + c / 262144) ∷ (128 + c / 4096 % 64) ∷ (128 + c / 64 % 64) ∷ (128 + c % 64) ∷ []

abbrev pub encode_all : List ℕ → Bytes
encode_all [] = []
encode_all (c ∷ cs) = encode c ++ encode_all cs

abbrev pub any_control : List ℕ → Bool
any_control [] = false
any_control (c ∷ cs) = is_control c || any_control cs

pub lead_one : (c : ℕ) → c < 128 → lead_length c ≡ some (1, c)
unfolding lead_length
lead_one c h = ground arith

pub lead_two : (x : ℕ) → x < 32 → lead_length (192 + x) ≡ some (2, x)
unfolding lead_length
lead_two x h = ground (arith, two_bytes (192 + x))

pub lead_three : (x : ℕ) → x < 16 → lead_length (224 + x) ≡ some (3, x)
unfolding lead_length
lead_three x h = ground (arith, two_bytes (224 + x), three_bytes (224 + x))

pub lead_four : (x : ℕ) → x < 8 → lead_length (240 + x) ≡ some (4, x)
unfolding lead_length
lead_four x h = ground (arith, two_bytes (240 + x), three_bytes (240 + x), four_bytes (240 + x))

continuations_step :
    (n cp x : ℕ) (bytes : Bytes)
    → x < 64
    → continuations (suc n) cp ((128 + x) ∷ bytes) ≡ continuations n (cp * 64 + x) bytes
unfolding continuations
continuations_step n cp x bytes h = ground (arith, continuation (128 + x))

continuations_end : (cp : ℕ) (bytes : Bytes) → continuations 0 cp bytes ≡ some (cp, bytes)
unfolding continuations
continuations_end cp bytes = refl

pub decode_one-encode :
    (c : ℕ) (rest : Bytes) → IsScalar c → decode_one (encode c ++ rest) ≡ some (c, rest)
unfolding decode_one
decode_one-encode c rest h = elim (Bool-cases (ltb c 0x80)) [
  | inl e ↦ rw e (
      rw (lead_one c (ground arith), continuations_end c rest)
        (unfold is_malformed in ground arith))
  | inr e ↦ rw e (elim (Bool-cases (ltb c 0x800)) [
    | inl f ↦ rw f (
        rw
          (
            lead_two (c / 64) (ground arith),
            continuations_step 0 (c / 64) (c % 64) rest (omega arith),
            continuations_end _ rest,
          )
          (unfold is_malformed in ground arith))
    | inr f ↦ rw f (elim (Bool-cases (ltb c 0x10000)) [
      | inl g ↦ rw g (
          rw
            (
              lead_three (c / 4096) (ground arith),
              continuations_step 1 (c / 4096) (c / 64 % 64) ((128 + c % 64) ∷ rest) (omega arith),
              continuations_step 0 _ (c % 64) rest (omega arith),
              continuations_end _ rest,
            )
            (unfold is_malformed in ground arith))
      | inr g ↦ rw g (
          rw
            (
              lead_four (c / 262144) (ground arith),
              continuations_step 2 (c / 262144) (c / 4096 % 64)
                  ((128 + c / 64 % 64) ∷ (128 + c % 64) ∷ rest) (omega arith),
              continuations_step 1 _ (c / 64 % 64) ((128 + c % 64) ∷ rest) (omega arith),
              continuations_step 0 _ (c % 64) rest (omega arith),
              continuations_end _ rest,
            )
            (unfold is_malformed in ground arith))
    ])
  ])
]
