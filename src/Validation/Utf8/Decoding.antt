-- ===== src/Validation/Utf8/Decoding.antt =====
-- What `DecodeUtf8` (src/common/validator.cc) accepts: the encodings of scalar values, and no more.
use linux_server.Base.{
  ℕ, zero, suc, ◌+◌, ◌-◌, ◌*◌, ◌%◌, ◌<◌, ◌≤◌, ◌≡◌, refl, Bool, true, false, ◌&&◌, ◌||◌, List, [],
  ◌∷◌, ◌++◌, Option, none, some, arith, ap, sym, ◌∙◌, subst, Bytes, IsBytes, length, length-append,
  leb, ltb, ◌⊎◌, inl, inr, All, Option-cases, Bool-cases, All-append_right,
}
use linux_server.Validation.Utf8.{
  lead_length, continuations, is_malformed, is_control, decode_one, decode_loop, decode_utf8,
  accept,
}
use linux_server.Validation.Utf8.Tables.{two_bytes, three_bytes, four_bytes, continuation}
use linux_server.Validation.Utf8.Encoding.{
  IsScalar, encode, encode_all, any_control, lead_one, lead_two, lead_three, lead_four,
  decode_one-encode,
}

abbrev Decoded : Bytes → ℕ → Bytes → Type 0
Decoded s c rest = IsScalar c × (s ≡ encode c ++ rest) × (length rest < length s)

Decoded-one : (c : ℕ) (rest : Bytes) → c < 128 → Decoded (c ∷ rest) c rest
Decoded-one c rest h = (inl (omega arith), ground arith, omega arith)

Decoded-two :
    (x y : ℕ) (rest : Bytes)
    → x < 32
    → y < 64
    → is_malformed 2 (x * 64 + y) ≡ false
    → Decoded ((192 + x) ∷ (128 + y) ∷ rest) (x * 64 + y) rest
unfolding is_malformed
Decoded-two x y rest hx hy ok = (ground arith, ground arith, omega arith)

Decoded-three :
    (x y z : ℕ) (rest : Bytes)
    → x < 16
    → y < 64
    → z < 64
    → is_malformed 3 ((x * 64 + y) * 64 + z) ≡ false
    → Decoded ((224 + x) ∷ (128 + y) ∷ (128 + z) ∷ rest) ((x * 64 + y) * 64 + z) rest
unfolding is_malformed
Decoded-three x y z rest hx hy hz ok = (ground arith, ground arith, omega arith)

Decoded-four :
    (x y z w : ℕ) (rest : Bytes)
    → x < 8
    → y < 64
    → z < 64
    → w < 64
    → is_malformed 4 (((x * 64 + y) * 64 + z) * 64 + w) ≡ false
    → Decoded
        ((240 + x) ∷ (128 + y) ∷ (128 + z) ∷ (128 + w) ∷ rest)
        (((x * 64 + y) * 64 + z) * 64 + w)
        rest
unfolding is_malformed
Decoded-four x y z w rest hx hy hz hw ok = (ground arith, ground arith, omega arith)

continuations_inv :
    (n cp : ℕ) (bytes : Bytes) (r : ℕ × Bytes)
    → IsBytes bytes
    → continuations (suc n) cp bytes ≡ some r
    → (y : ℕ) × (rest : Bytes) × (bytes ≡ (128 + y) ∷ rest)
      × (y < 64)
      × IsBytes rest
      × (continuations n (cp * 64 + y) rest ≡ some r)
unfolding continuations
continuations_inv n cp [] r h e = cc
continuations_inv n cp (c ∷ bytes) r h e =
    let t = continuation c h.0 in
    let low : leb 128 c && ltb c 192 ≡ true = ground arith in
    let is_sum : c ≡ 128 + (c - 128) = ground arith in
    let same : c % 64 ≡ c - 128 = ground arith in
    (c - 128, bytes, ap (λ k. k ∷ bytes) is_sum, ground arith, h.1, ground arith)

continuations_zero :
    (cp : ℕ) (bytes : Bytes) (r : ℕ × Bytes)
    → continuations 0 cp bytes ≡ some r
    → ◌≡◌ {A = ℕ × Bytes} (cp, bytes) r
unfolding continuations
continuations_zero cp bytes r e = ground arith

accept_inv :
    (len : ℕ) (o : Option (ℕ × Bytes)) (c : ℕ) (rest : Bytes)
    → accept len o ≡ some (c, rest)
    → (o ≡ some (c, rest)) × (is_malformed len c ≡ false)
unfolding accept
accept_inv len none c rest e = cc
accept_inv len (some (d, r)) c rest e = ground arith

abbrev Lead : ℕ → Type 0
Lead c =
    (c < 128)
    ⊎ ((x : ℕ) × (c ≡ 192 + x) × (x < 32))
    ⊎ ((x : ℕ) × (c ≡ 224 + x) × (x < 16))
    ⊎ ((x : ℕ) × (c ≡ 240 + x) × (x < 8))
    ⊎ (lead_length c ≡ none)

Lead-cases : (c : ℕ) → c < 256 → Lead c
unfolding lead_length
Lead-cases c h = elim (Bool-cases (ltb c 128)) [
  | inl a ↦ inl (ground arith)
  | inr a ↦ elim (Bool-cases (ltb c 192)) [
    | inl b ↦ inr (inr (inr (inr (ground (arith, two_bytes c h, three_bytes c h, four_bytes c h)))))
    | inr b ↦ elim (Bool-cases (ltb c 224)) [
      | inl d ↦ inr (inl (c - 192, ground arith, ground arith))
      | inr d ↦ elim (Bool-cases (ltb c 240)) [
        | inl e ↦ inr (inr (inl (c - 224, ground arith, ground arith)))
        | inr e ↦ elim (Bool-cases (ltb c 248)) [
          | inl f ↦ inr (inr (inr (inl (c - 240, ground arith, ground arith))))
          | inr f ↦
              inr (inr (inr (inr (ground (arith, two_bytes c h, three_bytes c h, four_bytes c h)))))
        ]
      ]
    ]
  ]
]

sequence_inv :
    (lead n x : ℕ) (bytes : Bytes) (c : ℕ) (rest : Bytes)
    → lead_length lead ≡ some (suc n, x)
    → decode_one (lead ∷ bytes) ≡ some (c, rest)
    → (continuations n x bytes ≡ some (c, rest)) × (is_malformed (suc n) c ≡ false)
unfolding decode_one
sequence_inv lead n x bytes c rest l e =
    ground (arith, accept_inv (suc n) (continuations n x bytes) c rest)

Decoded-along :
    (s t : Bytes) (c c' : ℕ) (rest rest' : Bytes)
    → s ≡ t
    → ◌≡◌ {A = ℕ × Bytes} (c', rest') (c, rest)
    → Decoded t c' rest'
    → Decoded s c rest
Decoded-along s t c c' rest rest' e p d = rw (e, ← ap (λ q. q.0) p, ← ap (λ q. q.1) p) d

module _ (bytes : Bytes) (h : IsBytes bytes) (c : ℕ) (rest : Bytes) where
  sound_one :
      (lead : ℕ)
      → lead < 128
      → decode_one (lead ∷ bytes) ≡ some (c, rest)
      → Decoded (lead ∷ bytes) c rest
  sound_one lead small e =
      let inv = sequence_inv lead 0 lead bytes c rest (lead_one lead small) e in
      let p = continuations_zero lead bytes (c, rest) inv.0 in
      Decoded-along _ _ c _ rest _ refl p (Decoded-one lead bytes small)

  sound_two :
      (x : ℕ)
      → x < 32
      → decode_one ((192 + x) ∷ bytes) ≡ some (c, rest)
      → Decoded ((192 + x) ∷ bytes) c rest
  sound_two x small e =
      let inv = sequence_inv (192 + x) 1 x bytes c rest (lead_two x small) e in
      let (y, bs, eq, hy, hb, k) = continuations_inv 0 x bytes (c, rest) h inv.0 in
      let p = continuations_zero (x * 64 + y) bs (c, rest) k in
      Decoded-along _ _ c _ rest _ (ap (◌∷◌ (192 + x)) eq) p
        (Decoded-two x y bs small hy (ap (λ q. is_malformed 2 q.0) p ∙ inv.1))

  sound_three :
      (x : ℕ)
      → x < 16
      → decode_one ((224 + x) ∷ bytes) ≡ some (c, rest)
      → Decoded ((224 + x) ∷ bytes) c rest
  sound_three x small e =
      let inv = sequence_inv (224 + x) 2 x bytes c rest (lead_three x small) e in
      let (y, bs, eq, hy, hb, k) = continuations_inv 1 x bytes (c, rest) h inv.0 in
      let (z, cs, eq', hz, hc, k') = continuations_inv 0 (x * 64 + y) bs (c, rest) hb k in
      let p = continuations_zero ((x * 64 + y) * 64 + z) cs (c, rest) k' in
      Decoded-along _ _ c _ rest _ (ap (◌∷◌ (224 + x)) (eq ∙ ap (◌∷◌ (128 + y)) eq')) p
        (Decoded-three x y z cs small hy hz (ap (λ q. is_malformed 3 q.0) p ∙ inv.1))

  sound_four :
      (x : ℕ)
      → x < 8
      → decode_one ((240 + x) ∷ bytes) ≡ some (c, rest)
      → Decoded ((240 + x) ∷ bytes) c rest
  sound_four x small e =
      let inv = sequence_inv (240 + x) 3 x bytes c rest (lead_four x small) e in
      let (y, bs, eq, hy, hb, k) = continuations_inv 2 x bytes (c, rest) h inv.0 in
      let (z, cs, eq', hz, hc, k') = continuations_inv 1 (x * 64 + y) bs (c, rest) hb k in
      let (w, ds, eq'', hw, hd, k'') =
        continuations_inv 0 ((x * 64 + y) * 64 + z) cs (c, rest) hc k' in
      let p = continuations_zero (((x * 64 + y) * 64 + z) * 64 + w) ds (c, rest) k'' in
      Decoded-along _ _ c _ rest _
        (ap (◌∷◌ (240 + x)) (eq ∙ ap (◌∷◌ (128 + y)) (eq' ∙ ap (◌∷◌ (128 + z)) eq''))) p
        (Decoded-four x y z w ds small hy hz hw (ap (λ q. is_malformed 4 q.0) p ∙ inv.1))

not_none : (lead : ℕ) (bytes : Bytes) → lead_length lead ≡ none → decode_one (lead ∷ bytes) ≡ none
unfolding decode_one
not_none lead bytes e = rw e

decode_one-Decoded :
    (s : Bytes) (c : ℕ) (rest : Bytes)
    → IsBytes s
    → decode_one s ≡ some (c, rest)
    → Decoded s c rest
decode_one-Decoded [] c rest h e = unfold decode_one in cc
decode_one-Decoded (lead ∷ bytes) c rest h e = elim (Lead-cases lead h.0) [
  | inl small ↦ sound_one bytes h.1 c rest lead small e
  | inr (inl (x, l, small)) ↦ rw l (sound_two bytes h.1 c rest x small (rw l at e))
  | inr (inr (inl (x, l, small))) ↦ rw l (sound_three bytes h.1 c rest x small (rw l at e))
  | inr (inr (inr (inl (x, l, small)))) ↦ rw l (sound_four bytes h.1 c rest x small (rw l at e))
  | inr (inr (inr (inr bad))) ↦ absurd (ground (arith, not_none lead bytes bad))
]

decode_loop_step :
    (fuel : ℕ) (s : Bytes) (n : ℕ) (control : Bool) (c : ℕ) (rest : Bytes)
    → decode_one s ≡ some (c, rest)
    → decode_loop (suc fuel) s n control ≡ decode_loop fuel rest (n + 1) (control || is_control c)
unfolding decode_loop
decode_loop_step fuel [] n control c rest e = unfold decode_one in cc
decode_loop_step fuel (b ∷ bs) n control c rest e = rw (e, decode_loop)

length-encode-pos : (c : ℕ) → 0 < length (encode c)
length-encode-pos c = ground arith

or_assoc : (a b c : Bool) → (a || b || c) ≡ ((a || b) || c)
or_assoc true b c = refl
or_assoc false b c = refl

counted :
    (n m : ℕ) (a b c : Bool)
    → ◌≡◌ {A = ℕ × Bool} (n + 1 + m, (a || b) || c) (n + suc m, a || (b || c))
counted n m a b c = ground (arith, or_assoc a b c)

-- The loop counts on, and keeps whether it has met a control character.
decode_loop-encode_all :
    (fuel : ℕ) (cs : List ℕ) (n : ℕ) (control : Bool)
    → All IsScalar cs
    → length (encode_all cs) ≤ fuel
    → decode_loop fuel (encode_all cs) n control ≡ some (n + length cs, control || any_control cs)
decode_loop-encode_all fuel [] n control h enough = unfold decode_loop in ground arith
decode_loop-encode_all zero (c ∷ cs) n control h enough =
    absurd (omega (arith, length-append (encode c) (encode_all cs), length-encode-pos c))
decode_loop-encode_all (suc fuel) (c ∷ cs) n control h enough =
    rw
      (
        decode_loop_step fuel (encode c ++ encode_all cs) n control c (encode_all cs)
            (decode_one-encode c (encode_all cs) h.0),
        decode_loop-encode_all fuel cs (n + 1) (control || is_control c) h.1
            (omega (arith, length-append (encode c) (encode_all cs), length-encode-pos c)),
      )
      (ground (arith, or_assoc control (is_control c) (any_control cs)))

decode_loop_sound :
    (fuel : ℕ) (s : Bytes) (n : ℕ) (control : Bool) (r : ℕ × Bool)
    → IsBytes s
    → decode_loop fuel s n control ≡ some r
    → (cs : List ℕ) × All IsScalar cs
      × (s ≡ encode_all cs)
      × (r ≡ (n + length cs, control || any_control cs))
decode_loop_sound fuel [] n control r h e = unfold decode_loop in ([], tt, refl, ground arith)
decode_loop_sound zero (b ∷ bs) n control r h e = unfold decode_loop in cc
decode_loop_sound (suc fuel) (b ∷ bs) n control r h e = elim (Option-cases (decode_one (b ∷ bs))) [
  | inl none_here ↦ absurd (unfold decode_loop in ground arith)
  | inr ((c, rest), q) ↦
      let d : Decoded (b ∷ bs) c rest = decode_one-Decoded (b ∷ bs) c rest h q in
      let h' : IsBytes rest = All-append_right _ (encode c) rest (subst IsBytes d.1 h) in
      let step = decode_loop_step fuel (b ∷ bs) n control c rest q in
      let (cs, hs, eq, er) =
        decode_loop_sound fuel rest (n + 1) (control || is_control c) r h' (sym step ∙ e) in
      (
        c ∷ cs,
        (d.0, hs),
        d.1 ∙ ap (λ t. encode c ++ t) eq,
        er ∙ counted n (length cs) control (is_control c) (any_control cs),
      )
]

-- `DecodeUtf8` accepts every sequence of Unicode scalar values in its encoded form, with their
-- number and whether one of them is a control character.
pub decode_utf8-encode_all :
    (cs : List ℕ) → All IsScalar cs → decode_utf8 (encode_all cs) ≡ some (length cs, any_control cs)
unfolding decode_utf8
decode_utf8-encode_all cs h =
    decode_loop-encode_all (length (encode_all cs)) cs 0 false h (omega arith) ∙ ground arith

-- A string of bytes that `DecodeUtf8` accepts is the encoded form of Unicode scalar values, in which
-- none is overlong, a surrogate or past the last plane; the results are their number and whether
-- one of them is a control character.
pub decode_utf8_sound :
    (s : Bytes) (r : ℕ × Bool)
    → IsBytes s
    → decode_utf8 s ≡ some r
    → (cs : List ℕ) × All IsScalar cs × (s ≡ encode_all cs) × (r ≡ (length cs, any_control cs))
unfolding decode_utf8
decode_utf8_sound s r h e =
    let (cs, hs, eq, er) = decode_loop_sound (length s) s 0 false r h e in
    (cs, hs, eq, er ∙ ground arith)
