-- ===== src/Validation/Validator/Laws.antt =====
-- What an accepted text is (src/common/validator.cc).
use linux_server.Base.{
  ℕ, ◌≤◌, ◌≡◌, ◌≢◌, Bool, true, false, List, [], ◌∷◌, none, some, arith, All, Bytes, IsBytes,
  length, ap, ◌∙◌, Option-cases, inl, inr,
}
use linux_server.Validation.Utf8.{decode_utf8}
use linux_server.Validation.Utf8.Encoding.{IsScalar, encode_all, any_control}
use linux_server.Validation.Utf8.Decoding.{decode_utf8_sound, decode_utf8-encode_all}
use linux_server.Validation.Validator.{nickname, nickname_max_length}

-- A name that may be shown: 1 to 64 Unicode scalar values, none a control character.
pub record IsNickname (s : Bytes) : Type 0 where
  pub scalars : List ℕ
  pub are_scalars : All IsScalar scalars
  pub encoded : s ≡ encode_all scalars
  pub some_text : s ≢ []
  pub short : length scalars ≤ nickname_max_length
  pub printable : any_control scalars ≡ false

nickname_sound :
    (s : Bytes) (n : ℕ) (control : Bool)
    → decode_utf8 s ≡ some (n, control)
    → (nickname s).valid ≡ true
    → (s ≢ []) × (n ≤ nickname_max_length) × (control ≡ false)
unfolding nickname
nickname_sound [] n control d h = absurd (ground arith)
nickname_sound (c ∷ cs) n control d h = (λ e. ground arith, ground arith, ground arith)

nickname_complete :
    (s : Bytes) (n : ℕ)
    → decode_utf8 s ≡ some (n, false)
    → s ≢ []
    → n ≤ nickname_max_length
    → (nickname s).valid ≡ true
unfolding nickname
nickname_complete s n d h short = ground arith

nickname_malformed : (s : Bytes) → decode_utf8 s ≡ none → (nickname s).valid ≡ true → ⊥
unfolding nickname
nickname_malformed s d h = ground arith

module _ (s : Bytes) (h : IsBytes s) where
  accepted : (nickname s).valid ≡ true → IsNickname s
  accepted e = elim (Option-cases (decode_utf8 s)) [
    | inl q ↦ absurd (nickname_malformed s q e)
    | inr (r, q) ↦
        let (cs, hs, eq, er) = decode_utf8_sound s r h q in
        let facts = nickname_sound s (length cs) (any_control cs) (q ∙ ap some er) e in
        record {
          scalars = cs;
          are_scalars = hs;
          encoded = eq;
          some_text = facts.0;
          short = facts.1;
          printable = facts.2;
        }
  ]

  decodes : (n : IsNickname s) → decode_utf8 s ≡ some (length n.scalars, false)
  decodes n =
      ap decode_utf8 n.encoded
      ∙ decode_utf8-encode_all n.scalars n.are_scalars
      ∙ ap (λ b. some (length n.scalars, b)) n.printable

  -- `Nickname` accepts the string of bytes exactly if it is the UTF-8 form of 1 to 64 Unicode
  -- scalar values of which none is a control character.
  pub nickname_iff :
      ((nickname s).valid ≡ true → IsNickname s) × (IsNickname s → (nickname s).valid ≡ true)
  nickname_iff =
      (accepted, λ n. nickname_complete s (length n.scalars) (decodes n) n.some_text n.short)
