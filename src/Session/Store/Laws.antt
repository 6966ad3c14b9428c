-- ===== src/Session/Store/Laws.antt =====
-- What the hashes of `RedisSessionStore` (src/server/redis_session_store.cc) say of a user.
use linux_server.Base.{
  ℕ, true, false, ◌≡◌, ◌≢◌, ap, ◌∙◌, [], ◌∷◌, ◌++◌, none, some, Bytes, codes, arith, drop,
  append_cancel, ℤ, pos, int_ltb, to_string, parse_integer-to_string, InRange, lookup, insert,
  erase, lookup-insert, lookup-erase, ◌==◌, nat_eq, list_eq, int_eq, beq_refl, beq_of_ne,
  if◌then◌else◌,
}
use linux_server.Model.Records.{RedisConfig}
use linux_server.Session.Manager.{ConnectionSession}
use linux_server.Validation.Validator
use linux_server.Session.Store.{
  Hashes, hget, hset, token_key, user_presence_key, user_session_key, connection_presence_key,
  bind_script, bind_clears, is_valid_session, store_bind, store_get_token, token_of, or_no_fields,
}

hget-hset_other :
    (key other field field' value : Bytes) (h : Hashes)
    → (other == key) ≡ false
    → hget key field (hset other field' value h) ≡ hget key field h
unfolding hget hset
hget-hset_other key other field field' value h e =
    ap (λ o. lookup field (or_no_fields o))
      (lookup-insert other key _ h
        ∙ ap
            (λ b.
              if b
              then some (insert field' value (or_no_fields (lookup other h)))
              else lookup key h)
            e)

hget-hset_same :
    (key field field' value : Bytes) (h : Hashes)
    → hget key field (hset key field' value h)
      ≡ (if field' == field then some value else hget key field h)
unfolding hget hset
hget-hset_same key field field' value h =
    ap (λ o. lookup field (or_no_fields o))
      (lookup-insert key key _ h
        ∙ ap
            (λ b.
              if b then some (insert field' value (or_no_fields (lookup key h))) else lookup key h)
            (beq_refl key))
    ∙ lookup-insert field' field value (or_no_fields (lookup key h))

pub hget-erase_other :
    (key other field : Bytes) (h : Hashes)
    → (other == key) ≡ false
    → hget key field (erase other h) ≡ hget key field h
unfolding hget
hget-erase_other key other field h e =
    ap (λ o. lookup field (or_no_fields o))
      (lookup-erase other key h ∙ ap (λ b. if b then none else lookup key h) e)

-- The byte in front of the rest of a text.
abbrev byte : Bytes → ℕ
byte [] = 0
byte (c ∷ cs) = c

module _ (config : RedisConfig) where
  families_differ :
      (at : ℕ) (a b x y : Bytes)
      → byte (drop at (a ++ x)) ≢ byte (drop at (b ++ y))
      → (config.key_prefix ++ (a ++ x) == config.key_prefix ++ (b ++ y)) ≡ false
  families_differ at a b x y differ =
      beq_of_ne _ _
        (λ e. differ (ap (λ l. byte (drop at l)) (append_cancel config.key_prefix _ _ e)))

  pub connection-ne-user :
      (server : Bytes) (c : ℕ) (u : ℤ)
      → (connection_presence_key config server c == user_presence_key config u) ≡ false
  unfolding connection_presence_key user_presence_key
  connection-ne-user server c u =
      families_differ 10 (codes ":presence:conn:") (codes ":presence:user:") _ _ (λ e. ground arith)

  connection-ne-token :
      (server : Bytes) (c : ℕ) (t : Bytes)
      → (connection_presence_key config server c == token_key config t) ≡ false
  unfolding connection_presence_key token_key
  connection-ne-token server c t =
      families_differ 1 (codes ":presence:conn:") (codes ":session:token:") _ _ (λ e. ground arith)

  user-ne-token : (u : ℤ) (t : Bytes) → (user_presence_key config u == token_key config t) ≡ false
  unfolding user_presence_key token_key
  user-ne-token u t =
      families_differ 1 (codes ":presence:user:") (codes ":session:token:") _ _ (λ e. ground arith)

  session-ne-token : (u : ℤ) (t : Bytes) → (user_session_key config u == token_key config t) ≡ false
  unfolding user_session_key token_key
  session-ne-token u t =
      families_differ 9 (codes ":session:user:") (codes ":session:token:") _ _ (λ e. ground arith)

module _ (config : RedisConfig) (c : ℕ) (s : ConnectionSession) (issued : ℤ) (h : Hashes) where
  abbrev t : Bytes
  t = token_key config s.token

  abbrev bound : Hashes
  bound = bind_script config c s issued h

  abbrev cleared : Hashes
  cleared =
      bind_clears (user_presence_key config s.user_id)
        (connection_presence_key config config.server_id c) (user_session_key config s.user_id)
        config.key_prefix config.server_id (to_string (pos c)) s.token h

  -- Only the first three writes of the script are to the hash of the token.
  bound_field :
      (field : Bytes)
      → hget t field bound
        ≡ hget t field (
            hset t (codes "issued_at") (to_string issued) (
              hset t
                (codes "username")
                s.username
                (hset t (codes "user_id") (to_string s.user_id) cleared)))
  unfolding bind_script
  bound_field field =
      let c-t = connection-ne-token config config.server_id c s.token in
      let u-t = user-ne-token config s.user_id s.token in
      hget-hset_other t _ field _ _ _ (session-ne-token config s.user_id s.token)
      ∙ hget-hset_other t _ field _ _ _ c-t
      ∙ hget-hset_other t _ field _ _ _ c-t
      ∙ hget-hset_other t _ field _ _ _ u-t
      ∙ hget-hset_other t _ field _ _ _ u-t
      ∙ hget-hset_other t _ field _ _ _ u-t

  bound_issued : hget t (codes "issued_at") bound ≡ some (to_string issued)
  bound_issued = bound_field (codes "issued_at") ∙ hget-hset_same t _ _ _ _

  bound_name : hget t (codes "username") bound ≡ some s.username
  bound_name = bound_field (codes "username") ∙ hget-hset_same t _ _ _ _ ∙ hget-hset_same t _ _ _ _

  bound_user : hget t (codes "user_id") bound ≡ some (to_string s.user_id)
  bound_user =
      bound_field (codes "user_id")
      ∙ hget-hset_same t _ _ _ _
      ∙ hget-hset_same t _ _ _ _
      ∙ hget-hset_same t _ _ _ _

  token_of_written :
      (k : Bytes) (g : Hashes)
      → is_valid_session s ≡ true
      → int_ltb issued (pos 0) ≡ false
      → InRange s.user_id
      → InRange issued
      → (token_of config true k
          (some (to_string s.user_id))
          (some s.username)
          (some (to_string issued))
          g).0
        ≡ some (record { user_id = s.user_id; username = s.username; issued_at = issued })
  unfolding is_valid_session
  token_of_written k g valid known user_fits issued_fits =
      rw (parse_integer-to_string s.user_id user_fits, parse_integer-to_string issued issued_fits)
        (ground arith)

  token_valid : is_valid_session s ≡ true → (Validator.token s.token).valid ≡ true
  unfolding is_valid_session
  token_valid valid = ground arith

  -- A token that was bound is resumed as its session: GetToken after Bind gives the user, the name
  -- and the time of the session, whatever Redis held before, while Redis is reached.
  pub store_get_token-store_bind :
      (c == 0) ≡ false
      → is_valid_session s ≡ true
      → int_ltb issued (pos 0) ≡ false
      → InRange s.user_id
      → InRange issued
      → (store_get_token config true s.token (store_bind config true c s issued h).1).0
        ≡ some (record { user_id = s.user_id; username = s.username; issued_at = issued })
  unfolding store_get_token store_bind
  store_get_token-store_bind some_conn valid known user_fits issued_fits =
      rw (some_conn, valid, known, token_valid valid, bound_issued, bound_name, bound_user)
        (token_of_written t bound valid known user_fits issued_fits)
