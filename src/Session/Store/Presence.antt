-- ===== src/Session/Store/Presence.antt =====
-- What the end of a connection does to the presence of its user in `RedisSessionStore`
-- (src/server/redis_session_store.cc, `kClearScript`).
use linux_server.Base.{
  ℕ, Bool, true, false, not, ◌&&◌, ◌≡◌, ◌≢◌, ◌⊎◌, refl, sym, ap, ◌∙◌, Option, none, some, Bytes,
  codes, arith, is_empty, ℤ, pos, negsuc, ◌||◌, le_zero, to_string, parse_integer, erase, ◌==◌,
  nat_eq, list_eq, int_eq, beq_of_ne, Bool-cases, inl, inr, if◌then◌else◌,
}
use linux_server.Model.Records.{RedisConfig}
use linux_server.Session.Manager.{ConnectionSession}
use linux_server.Validation.Validator
use linux_server.Session.Store.{
  Hashes, hget, has, user_presence_key, connection_presence_key, owns_presence, equals,
  presence_parsed, del_if, clear_script, is_valid_session, store_clear_presence, store_get_presence,
  presence_of,
}
use linux_server.Session.Store.Laws.{hget-erase_other, connection-ne-user}

presence_parsed_state :
    (config : RedisConfig) (k server token : Bytes) (o : Option ℤ) (g h : Hashes)
    → (presence_parsed config true k server token o g).0
      ≡ (presence_parsed config true k server token o h).0
presence_parsed_state config k server token none g h = refl
presence_parsed_state config k server token (some (negsuc n)) g h = refl
presence_parsed_state config k server token (some (pos n)) g h =
    elim (Bool-cases (is_empty server || n == 0 || not (Validator.token token).valid)) [
      | inl e ↦ rw e refl
      | inr e ↦ rw e refl
    ]

presence_of_state :
    (config : RedisConfig) (k : Bytes) (a b c : Option Bytes) (g h : Hashes)
    → (presence_of config true k a b c g).0 ≡ (presence_of config true k a b c h).0
presence_of_state config k none b c g h = refl
presence_of_state config k (some a) none c g h = refl
presence_of_state config k (some a) (some b) none g h = refl
presence_of_state config k (some a) (some b) (some c) g h =
    presence_parsed_state config k a c (parse_integer b) g h

equals_other : (value : Bytes) (o : Option Bytes) → o ≢ some value → equals value o ≡ false
equals_other value none h = refl
equals_other value (some found) h = beq_of_ne found value (λ e. h (ap some e))

one_missing : (a b c : Bool) → (a ≡ false) ⊎ ((b ≡ false) ⊎ (c ≡ false)) → (a && b && c) ≡ false
one_missing a b c h = ground arith

-- The same fields give the same presence.
presence_of_fields :
    (config : RedisConfig) (k : Bytes) (a b c a' b' c' : Option Bytes) (g h : Hashes)
    → a ≡ a'
    → b ≡ b'
    → c ≡ c'
    → (presence_of config true k a b c g).0 ≡ (presence_of config true k a' b' c' h).0
presence_of_fields config k a b c a' b' c' g h p q r =
    presence_of_state config k a b c g h
    ∙ ap (λ x. (presence_of config true k x b c h).0) p
    ∙ ap (λ x. (presence_of config true k a' x c h).0) q
    ∙ ap (λ x. (presence_of config true k a' b' x h).0) r

module _ (config : RedisConfig) (c : ℕ) (s : ConnectionSession) (h : Hashes) where
  abbrev mine : Bytes
  mine = user_presence_key config s.user_id

  abbrev without : Hashes
  without = erase (connection_presence_key config config.server_id c) h

  kept_field :
      (u : ℤ) (field : Bytes)
      → hget (user_presence_key config u) field without ≡ hget (user_presence_key config u) field h
  kept_field u field =
      hget-erase_other (user_presence_key config u) _ field h
        (connection-ne-user config config.server_id c u)

  -- The presence of the user differs from that of the connection that ends.
  abbrev pub Newer : Type 0
  Newer =
      (hget mine (codes "server_id") h ≢ some config.server_id)
      ⊎ ((hget mine (codes "connection_id") h ≢ some (to_string (pos c)))
          ⊎ (hget mine (codes "token") h ≢ some s.token))

  not_has :
      (field value : Bytes) → hget mine field h ≢ some value → has mine field value without ≡ false
  unfolding has
  not_has field value other =
      equals_other value (hget mine field without)
        (λ e. other (sym (kept_field s.user_id field) ∙ e))

  not_owned :
      Newer → owns_presence mine config.server_id (to_string (pos c)) s.token without ≡ false
  unfolding owns_presence
  not_owned (inl other) =
      one_missing _ _ _ (inl (not_has (codes "server_id") config.server_id other))
  not_owned (inr (inl other)) =
      one_missing _ _ _ (inr (inl (not_has (codes "connection_id") (to_string (pos c)) other)))
  not_owned (inr (inr other)) =
      one_missing (has mine (codes "server_id") config.server_id without)
        (has mine (codes "connection_id") (to_string (pos c)) without) _
        (inr (inr (not_has (codes "token") s.token other)))

  clear_script_other : Newer → clear_script config c s h ≡ without
  unfolding clear_script del_if
  clear_script_other other = ap (λ b. if b then erase mine without else without) (not_owned other)

  get_presence_from :
      (g : Hashes)
      → ((field : Bytes) → hget mine field g ≡ hget mine field h)
      → (store_get_presence config true s.user_id g).0
        ≡ (store_get_presence config true s.user_id h).0
  unfolding store_get_presence
  get_presence_from g same = elim (Bool-cases (not (le_zero s.user_id) && true)) [
    | inl e ↦ rw e (
        presence_of_fields config mine _ _ _ _ _ _ g h (same (codes "server_id"))
          (same (codes "connection_id")) (same (codes "token")))
    | inr e ↦ rw e refl
  ]

  clear_presence_field :
      Newer
      → (field : Bytes)
      → hget mine field (store_clear_presence config true c s h).1 ≡ hget mine field h
  unfolding store_clear_presence
  clear_presence_field other field =
      elim (Bool-cases (not (c == 0) && is_valid_session s && true)) [
        | inl e ↦
            rw e (ap (hget mine field) (clear_script_other other) ∙ kept_field s.user_id field)
        | inr e ↦ rw e refl
      ]

  -- The end of a connection does not take a newer login off the air: where the presence of the user
  -- names another server, another connection or another token, GetPresence gives after
  -- ClearPresence what it gave before, while Redis is reached.
  pub store_get_presence-store_clear_presence :
      Newer
      → (store_get_presence config true s.user_id (store_clear_presence config true c s h).1).0
        ≡ (store_get_presence config true s.user_id h).0
  store_get_presence-store_clear_presence other =
      get_presence_from (store_clear_presence config true c s h).1 (clear_presence_field other)
