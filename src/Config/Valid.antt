-- ===== src/Config/Valid.antt =====
-- What valid settings are, and the facts that single tests stand for (src/config/config_loader.cc, src/config/redis_config.cc).
use linux_server.Base.{
  suc, zero, ℕ, ◌*◌, ◌/◌, ◌%◌, ◌^◌, ◌≤◌, ◌<◌, ◌≡◌, ◌≢◌, ◌↔◌, refl, Bool, true, false, not, ◌&&◌,
  ◌||◌, none, List, [], ◌∷◌, Bytes, ℤ, pos, negsuc, All, arith, ◌⊎◌, inl, inr, codes, nat_beq, ltb,
  leb, int_ltb, is_empty, beq_iff, ◌==◌, list_eq, nat_eq,
}
use linux_server.Model.Records.{RedisConfig}
use linux_server.Model.Settings.{ServerConfig}
use linux_server.Config.Json.{max_size}
use linux_server.Config.Validating.{ends_with_colon, contains_colon, first_error}

abbrev pub Passed : {E : Type 0} → Bool × E → Type 0
Passed t = t.0 ≡ false

pub first_error-none : {E : Type 0} (l : List (Bool × E)) → first_error l ≡ none → All Passed l
first_error-none [] h = tt
first_error-none ((true, error) ∷ rest) h = absurd (cc h)
first_error-none ((false, error) ∷ rest) h = (refl, first_error-none rest h)

pub none-first_error : {E : Type 0} (l : List (Bool × E)) → All Passed l → first_error l ≡ none
none-first_error [] h = refl
none-first_error ((true, error) ∷ rest) h = absurd (cc h.0)
none-first_error ((false, error) ∷ rest) h = none-first_error rest h.1

-- The test at a place has failed, if all have.
abbrev pub nth_test : {E : Type 0} → ℕ → List (Bool × E) → Bool
nth_test n [] = false
nth_test zero (t ∷ rest) = t.0
nth_test (suc n) (t ∷ rest) = nth_test n rest

pub test_at : {E : Type 0} (n : ℕ) (l : List (Bool × E)) → All Passed l → nth_test n l ≡ false
test_at n [] h = refl
test_at zero (t ∷ rest) h = h.0
test_at (suc n) (t ∷ rest) h = test_at n rest h.1

-- Facts side by side.
infixr 2 ◌⋀◌
abbrev pub ◌⋀◌ : {A B : Type 0} → A → B → A × B
a ⋀ b = (a, b)

-- What the settings of Redis have to be.
pub record IsRedisConfig (c : RedisConfig) : Type 0 where
  pub port : 0 < c.port
  pub pool_size : 0 < c.pool_size
  pub database : (n : ℕ) × (c.database ≡ pos n)
  pub connect_timeout_ms : 0 < c.connect_timeout_ms
  pub command_timeout_ms : 0 < c.command_timeout_ms
  pub key_prefix : c.key_prefix ≢ []
  pub key_prefix_end : ends_with_colon c.key_prefix ≡ false
  pub server_id : c.server_id ≢ []
  pub server_id_colon : contains_colon c.server_id ≡ false
  pub session_ttl_seconds : 0 < c.session_ttl_seconds
  pub presence_ttl_seconds : 0 < c.presence_ttl_seconds
  pub user_cache_ttl_seconds : 0 < c.user_cache_ttl_seconds
  pub user_not_found_ttl_seconds : 0 < c.user_not_found_ttl_seconds
  pub message_dedup_ttl_seconds : 0 < c.message_dedup_ttl_seconds
  pub login_rate_limit : 0 < c.login_rate_limit
  pub login_rate_window_seconds : 0 < c.login_rate_window_seconds
  pub register_rate_limit : 0 < c.register_rate_limit
  pub register_rate_window_seconds : 0 < c.register_rate_window_seconds
  pub send_rate_limit : 0 < c.send_rate_limit
  pub send_rate_window_seconds : 0 < c.send_rate_window_seconds

-- The settings of the server: what each field has to be for the server to start.
pub record IsServerConfig (is_ipv4 is_ipv6 : Bytes → Bool) (c : ServerConfig) : Type 0 where
  pub listen_ip : (is_ipv4 c.server.listen_ip ≡ true) ⊎ (is_ipv6 c.server.listen_ip ≡ true)
  pub listen_port : 0 < c.server.listen_port
  pub mysql_host : c.mysql.host ≢ []
  pub mysql_username : c.mysql.username ≢ []
  pub mysql_database : c.mysql.database ≢ []
  pub mysql_port : 0 < c.mysql.port
  pub connect_timeout_seconds : 0 < c.mysql.connect_timeout_seconds
  pub read_timeout_seconds : 0 < c.mysql.read_timeout_seconds
  pub write_timeout_seconds : 0 < c.mysql.write_timeout_seconds
  pub max_connections : 0 < c.mysql_pool.max_connections
  pub min_connections : c.mysql_pool.min_connections ≤ c.mysql_pool.max_connections
  pub borrow_timeout_ms : 0 < c.mysql_pool.borrow_timeout_ms
  pub redis : IsRedisConfig c.redis
  pub redis_host : c.redis.enabled ≡ true → c.redis.host ≢ []
  pub level :
      (c.log.level ≡ codes "debug")
      ⊎ ((c.log.level ≡ codes "info")
          ⊎ ((c.log.level ≡ codes "warn") ⊎ (c.log.level ≡ codes "error")))
  pub max_size_mb : 0 < c.log.max_size_mb
  pub max_files : 0 < c.log.max_files
  pub bytes_fit : c.log.max_size_mb ≤ max_size / (1024 * 1024)
  pub output : c.log.console ≡ false → c.log.file_path ≢ []
  pub remote_push_ms : 0 < c.timeout.remote_push_ms
  pub idle_timeout_ms : 0 < c.connection.idle_timeout_ms
  pub heartbeat_ms : 0 < c.heartbeat.timeout_ms
  pub presence : c.heartbeat.timeout_ms < c.redis.presence_ttl_seconds * 1000 % 2 ^ 64

-- Each test, as the fact that it stands for when it fails.
pub positive : (n : ℕ) → (nat_beq n 0 ≡ false) ↔ (0 < n)
positive n = ground arith

pub at_least_one : (n : ℕ) → (ltb n 1 ≡ false) ↔ (0 < n)
at_least_one n = ground arith

pub at_most : (m n : ℕ) → (ltb n m ≡ false) ↔ (m ≤ n)
at_most m n = ground arith

pub below : (m n : ℕ) → (leb m n ≡ false) ↔ (n < m)
below m n = ground arith

pub not_empty : (s : Bytes) → (is_empty s ≡ false) ↔ (s ≢ [])
not_empty [] = (λ h. absurd (cc h), λ h. absurd (h refl))
not_empty (c ∷ rest) = (λ h e. cc e, λ h. refl)

pub natural : (z : ℤ) → (int_ltb z (pos 0) ≡ false) ↔ ((n : ℕ) × (z ≡ pos n))
natural (pos n) = (λ h. (n, refl), λ h. ground arith)
natural (negsuc n) = (λ h. absurd (cc h), λ h. absurd (cc h.1))

pub neither : (a b : Bool) → ((a || b) ≡ false) ↔ ((a ≡ false) × (b ≡ false))
neither true b = (λ h. absurd (cc h), λ h. absurd (cc h.0))
neither false b = (λ h. (refl, h), λ h. h.1)

pub implies : (a b : Bool) → ((a && b) ≡ false) ↔ (a ≡ true → b ≡ false)
implies true b = (λ h e. h, λ h. h refl)
implies false b = (λ h e. absurd (cc e), λ h. refl)

pub one_of : (a b : Bool) → ((not a && not b) ≡ false) ↔ ((a ≡ true) ⊎ (b ≡ true))
one_of true b = (λ h. inl refl, λ h. refl)
one_of false true = (λ h. inr refl, λ h. refl)
one_of false false = (λ h. absurd (cc h), λ h. absurd (elim h [ inl e ↦ cc e | inr e ↦ cc e ]))

pub unless : (a b : Bool) → ((not a && b) ≡ false) ↔ (a ≡ false → b ≡ false)
unless true b = (λ h e. absurd (cc e), λ h. refl)
unless false b = (λ h e. h, λ h. h refl)

pub either : (a b : Bool) → ((a || b) ≡ true) ↔ ((a ≡ true) ⊎ (b ≡ true))
either true b = (λ h. inl refl, λ h. refl)
either false true = (λ h. inr refl, λ h. refl)
either false false = (λ h. inr h, λ h. elim h [ inl e ↦ e | inr e ↦ e ])

pub negated : (a : Bool) → (not a ≡ false) ↔ (a ≡ true)
negated true = (λ h. refl, λ h. refl)
negated false = (λ h. absurd (cc h), λ h. absurd (cc h))

-- A test for equality, or another test.
pub equal_or :
    (s t : Bytes) (b : Bool) {B : Type 0} → (b ≡ true) ↔ B → ((s == t || b) ≡ true) ↔ ((s ≡ t) ⊎ B)
equal_or s t b h = (
  λ e. elim ((either (s == t) b).0 e) [ inl f ↦ inl ((beq_iff s t).0 f) | inr f ↦ inr (h.0 f) ],
  λ e. (either (s == t) b).1 (elim e [ inl f ↦ inl ((beq_iff s t).1 f) | inr f ↦ inr (h.1 f) ]),
)
