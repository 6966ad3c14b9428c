-- ===== src/Cache/Dedup.antt =====
-- `MessageDedupCache` (src/cache/message_dedup_cache.cc).
use linux_server.Base.{
  ℕ, ◌<◌, Bool, true, false, not, ◌&&◌, ◌||◌, ◌≡◌, ◌≢◌, refl, sym, ap, ◌∙◌, [], ◌∷◌, ◌++◌, Option,
  none, some, Bytes, codes, arith, is_empty, ℤ, pos, to_string, nat_to_string,
  nat_to_string-injective, nat_to_string-IsDecimal, decimal_split, append_cancel, ◌==◌, nat_eq,
  list_eq, beq_iff, Bool-cases, inl, inr, if◌then◌else◌,
}
use linux_server.Model.Records.{RedisConfig}
use linux_server.Stream.Redis.{RedisClient, RedisCommandResult, is_string, string_value}
use linux_server.Service.Interfaces.{MessageDedupCache}
use linux_server.Cache.Store.{Gets, IsStore}

unfoldable pub dedup_key : RedisConfig → ℤ → Bytes → Bytes
dedup_key config from_user_id client_msg_id =
    config.key_prefix ++ (codes ":dedup:msg:" ++ (to_string from_user_id ++ b':' ∷ client_msg_id))

-- A reply that holds a text which is not empty.
unfoldable pub cached_id : RedisCommandResult → Option Bytes
cached_id r =
    if not r.success || not (is_string r.answer) || is_empty (string_value r.answer)
    then none
    else some (string_value r.answer)

module _ {W : Type 0} where
  unfoldable pub dedup_lookup :
      Option (RedisClient W) → RedisConfig → ℤ → Bytes → W → Option Bytes × W
  dedup_lookup none config from client_msg_id w = (none, w)
  dedup_lookup (some redis) config from client_msg_id w =
      let (r, w1) = redis.command (codes "GET" ∷ dedup_key config from client_msg_id ∷ []) w in
      (cached_id r, w1)

  unfoldable pub dedup_save : Option (RedisClient W) → RedisConfig → ℤ → Bytes → Bytes → W → W
  dedup_save none config from client_msg_id message_id w = w
  dedup_save (some redis) config from client_msg_id message_id w =
      if is_empty message_id
      then w
      else (redis.command
          (codes "SETEX"
            ∷ dedup_key config from client_msg_id
            ∷ to_string (pos config.message_dedup_ttl_seconds)
            ∷ message_id
            ∷ [])
          w).1

  unfoldable pub dedup_remove : Option (RedisClient W) → RedisConfig → ℤ → Bytes → W → W
  dedup_remove none config from client_msg_id w = w
  dedup_remove (some redis) config from client_msg_id w =
      (redis.command (codes "DEL" ∷ dedup_key config from client_msg_id ∷ []) w).1

  -- The class as an implementation of what the chat service asks for.
  unfoldable pub dedup_cache : Option (RedisClient W) → RedisConfig → MessageDedupCache W
  dedup_cache redis config = record {
    lookup = dedup_lookup redis config;
    save = dedup_save redis config;
    remove = dedup_remove redis config;
  }

-- What the chat service may rely on, for users with ids that are not negative: an id that was saved
-- is found until it is removed or expires, and nothing else is touched; expiry is outside.
pub record IsDedupCache {W : Type 0} (cache : MessageDedupCache W) : Type 0 where
  pub lookup-save :
      (u v : ℕ) (c d id : Bytes) (w : W)
      → id ≢ []
      → (cache.lookup (pos v) d (cache.save (pos u) c id w)).0
        ≡ (if u == v && c == d then some id else (cache.lookup (pos v) d w).0)
  pub lookup-remove :
      (u v : ℕ) (c d : Bytes) (w : W)
      → (cache.lookup (pos v) d (cache.remove (pos u) c w)).0
        ≡ (if u == v && c == d then none else (cache.lookup (pos v) d w).0)

dedup_key-injective :
    (config : RedisConfig) (u v : ℕ) (c d : Bytes)
    → dedup_key config (pos u) c ≡ dedup_key config (pos v) d
    → (u ≡ v) × (c ≡ d)
unfolding dedup_key to_string
dedup_key-injective config u v c d e =
    let texts = append_cancel (codes ":dedup:msg:") _ _ (append_cancel config.key_prefix _ _ e) in
    let (users, ids) =
      decimal_split b':' (nat_to_string u) (nat_to_string v) c d refl (nat_to_string-IsDecimal u)
        (nat_to_string-IsDecimal v) texts in
    (nat_to_string-injective u v users, ids)

-- Keys are equal exactly if users and ids are.
dedup_key_test :
    (config : RedisConfig) (u v : ℕ) (c d : Bytes)
    → (dedup_key config (pos u) c == dedup_key config (pos v) d) ≡ (u == v && c == d)
dedup_key_test config u v c d = elim (Bool-cases (u == v && c == d)) [
  | inl e ↦
      let users = (beq_iff u v).0 (ground arith) in
      let ids = (beq_iff c d).0 (ground arith) in
      (beq_iff (dedup_key config (pos u) c) (dedup_key config (pos v) d)).1
        (ap (λ x. dedup_key config (pos x) c) users ∙ ap (dedup_key config (pos v)) ids)
      ∙ sym e
  | inr e ↦ elim (Bool-cases (dedup_key config (pos u) c == dedup_key config (pos v) d)) [
    | inl f ↦
        let (users, ids) =
          dedup_key-injective config u v c d
            ((beq_iff (dedup_key config (pos u) c) (dedup_key config (pos v) d)).0 f) in
        absurd (ground (arith, (beq_iff u v).1 users, (beq_iff c d).1 ids))
    | inr f ↦ f ∙ sym e
  ]
]

-- The text that is read, unless it is empty.
abbrev nonempty : Option Bytes → Option Bytes
nonempty none = none
nonempty (some value) = if is_empty value then none else some value

cached_id-Gets : (o : Option Bytes) (r : RedisCommandResult) → Gets o r → cached_id r ≡ nonempty o
unfolding cached_id
cached_id-Gets none r h = rw h refl
cached_id-Gets (some value) r h = rw (h.0, h.1, h.2) refl

not_empty : (s : Bytes) → s ≢ [] → is_empty s ≡ false
not_empty [] h = absurd (h refl)
not_empty (c ∷ cs) h = refl

nonempty_saved :
    (b : Bool) (id : Bytes) (o : Option Bytes)
    → is_empty id ≡ false
    → nonempty (if b then some id else o) ≡ (if b then some id else nonempty o)
nonempty_saved true id o h = rw h refl
nonempty_saved false id o h = refl

nonempty_removed :
    (b : Bool) (o : Option Bytes)
    → nonempty (if b then none else o) ≡ (if b then none else nonempty o)
nonempty_removed true o = refl
nonempty_removed false o = refl

module _ {W : Type 0} (redis : RedisClient W) (config : RedisConfig) (store : IsStore redis)
    (expires : 0 < config.message_dedup_ttl_seconds) where
  dedup_lookup_reads :
      (v : ℕ) (d : Bytes) (w : W)
      → (dedup_lookup (some redis) config (pos v) d w).0
        ≡ nonempty (store.read w (dedup_key config (pos v) d))
  unfolding dedup_lookup
  dedup_lookup_reads v d w = cached_id-Gets _ _ (store.get_reply w (dedup_key config (pos v) d))

  dedup_save_writes :
      (u v : ℕ) (c d id : Bytes) (w : W)
      → is_empty id ≡ false
      → store.read (dedup_save (some redis) config (pos u) c id w) (dedup_key config (pos v) d)
        ≡ (if u == v && c == d then some id else store.read w (dedup_key config (pos v) d))
  unfolding dedup_save
  dedup_save_writes u v c d id w h = rw h (
      store.set_writes w (dedup_key config (pos u) c) config.message_dedup_ttl_seconds id
        (dedup_key config (pos v) d) expires
      ∙ ap (λ b. if b then some id else store.read w (dedup_key config (pos v) d))
          (dedup_key_test config u v c d))

  dedup_remove_erases :
      (u v : ℕ) (c d : Bytes) (w : W)
      → store.read (dedup_remove (some redis) config (pos u) c w) (dedup_key config (pos v) d)
        ≡ (if u == v && c == d then none else store.read w (dedup_key config (pos v) d))
  unfolding dedup_remove
  dedup_remove_erases u v c d w =
      store.del_removes w (dedup_key config (pos u) c) (dedup_key config (pos v) d)
      ∙ ap (λ b. if b then none else store.read w (dedup_key config (pos v) d))
          (dedup_key_test config u v c d)

  -- Over a Redis whose GET, SETEX and DEL work, and with a lifetime of at least a second,
  -- MessageDedupCache keeps each pair of a user and a client id on its own as long as no key
  -- expires: a saved id is found for its pair until it is removed, and for no other.
  pub dedup_cache-IsDedupCache : IsDedupCache (dedup_cache (some redis) config)
  unfolding dedup_cache
  dedup_cache-IsDedupCache = record {
    lookup-save = λ u v c d id w some_id.
        dedup_lookup_reads v d (dedup_save (some redis) config (pos u) c id w)
        ∙ ap nonempty (dedup_save_writes u v c d id w (not_empty id some_id))
        ∙ nonempty_saved (u == v && c == d) id (store.read w (dedup_key config (pos v) d))
            (not_empty id some_id)
        ∙ ap (λ o. if u == v && c == d then some id else o) (sym (dedup_lookup_reads v d w));
    lookup-remove = λ u v c d w.
        dedup_lookup_reads v d (dedup_remove (some redis) config (pos u) c w)
        ∙ ap nonempty (dedup_remove_erases u v c d w)
        ∙ nonempty_removed (u == v && c == d) (store.read w (dedup_key config (pos v) d))
        ∙ ap (λ o. if u == v && c == d then none else o) (sym (dedup_lookup_reads v d w));
  }
