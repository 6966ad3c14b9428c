-- ===== src/Cache/Store.antt =====
-- What the caches (src/cache) rely on Redis for: GET, SETEX with a positive number
-- of seconds, and DEL, on texts that do not expire in between.
-- Each law is the documented behaviour of one command; Redis itself is a parameter.
use linux_server.Base.{
  ℕ, ◌<◌, true, false, ◌≡◌, [], ◌∷◌, Option, none, some, Bytes, codes, ◌==◌, list_eq, nat_eq, pos,
  to_string, if◌then◌else◌,
}
use linux_server.Stream.Redis.{RedisClient, RedisCommandResult, is_string, string_value}

-- The reply to GET: nothing was found, or the text as a string.
abbrev pub Gets : Option Bytes → RedisCommandResult → Type 0
Gets none r = r.success ≡ false
Gets (some value) r =
    (r.success ≡ true) × (is_string r.answer ≡ true) × (string_value r.answer ≡ value)

pub record IsStore {W : Type 0} (redis : RedisClient W) : Type 0 where
  pub read : W → Bytes → Option Bytes
  pub get_reply : (w : W) (k : Bytes) → Gets (read w k) (redis.command (codes "GET" ∷ k ∷ []) w).0
  pub get_keeps :
      (w : W) (k j : Bytes) → read (redis.command (codes "GET" ∷ k ∷ []) w).1 j ≡ read w j
  pub set_writes :
      (w : W) (k : Bytes) (seconds : ℕ) (value j : Bytes)
      → 0 < seconds
      → read (redis.command (codes "SETEX" ∷ k ∷ to_string (pos seconds) ∷ value ∷ []) w).1 j
        ≡ (if k == j then some value else read w j)
  pub del_removes :
      (w : W) (k j : Bytes)
      → read (redis.command (codes "DEL" ∷ k ∷ []) w).1 j ≡ (if k == j then none else read w j)
