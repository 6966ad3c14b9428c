-- ===== src/Cache/RateLimiter.antt =====
-- `RedisRateLimiter` (src/cache/redis_rate_limiter.cc). The clock's seconds, which are not negative,
-- are an argument.
use linux_server.Base.{
  ℕ, zero, suc, ◌+◌, ◌-◌, ◌/◌, ◌%◌, ◌^◌, Bool, true, false, not, ◌&&◌, ◌||◌, ◌≡◌, refl, List, [],
  ◌∷◌, ◌++◌, ◌<◌, ◌∙◌, ap, All, length, ◌==◌, int_eq, Bytes, codes, arith, is_empty, ℤ, pos, negsuc,
  int_ltb, to_string, nat_beq, Bool-cases, inl, inr, if◌then◌else◌, ltb, Option, none, some,
}
use linux_server.Model.Records.{RedisConfig}
use linux_server.Stream.Redis.{
  RedisClient, RedisCommandResult, reply, array_reply, integer_reply, no_reply, also, is_array,
  is_integer, integer_value, elements,
}
use linux_server.Service.Interfaces.{RateLimitResult}

abbrev pub rate_limit_script : Bytes
rate_limit_script =
    codes
      "\nlocal count = redis.call('INCR', KEYS[1])\nif count == 1 then\n  redis.call('EXPIRE', KEYS[1], ARGV[1])\nend\nlocal ttl = redis.call('TTL', KEYS[1])\nreturn {count, ttl}\n"

abbrev pub always : RateLimitResult
always = record { allowed = true; retry_after_seconds = 0 }

-- static_cast<uint32_t>(ttl > 0 ? ttl : window_seconds)
unfoldable pub retry_after : ℤ → ℕ → ℕ
retry_after (pos zero) window = window
retry_after (pos (suc n)) window = suc n % 2 ^ 32
retry_after (negsuc n) window = window

unfoldable pub limit_result : ℤ → ℤ → ℕ → ℕ → RateLimitResult
limit_result count ttl limit window =
    let within = not (int_ltb (pos limit) count) in
    record { allowed = within; retry_after_seconds = if within then 0 else retry_after ttl window }

-- The two numbers that the script returns; a call is allowed where they are missing.
unfoldable pub read_limit : RedisCommandResult → ℕ → ℕ → RateLimitResult
read_limit r limit window = elim (elements r.answer) [
  | also count (also ttl no_reply) ↦
      if r.success && is_array r.answer && is_integer count && is_integer ttl
      then limit_result (integer_value count) (integer_value ttl) limit window
      else always
  | _ ↦ always
]

unfoldable pub rate_limit_key : RedisConfig → Bytes → Bytes → ℕ → Bytes
rate_limit_key config type identity bucket =
    config.key_prefix
    ++ (codes ":ratelimit:"
        ++ (type ++ (codes ":" ++ (identity ++ (codes ":" ++ to_string (pos bucket))))))

abbrev pub eval_command : Bytes → ℕ → List Bytes
eval_command key window =
    codes "EVAL" ∷ rate_limit_script ∷ codes "1" ∷ key ∷ to_string (pos window) ∷ []

module _ {W : Type 0} where
  unfoldable pub allow :
      Option (RedisClient W) → RedisConfig → ℕ → Bytes → Bytes → ℕ → ℕ → W → RateLimitResult × W
  allow none config now type identity limit window w = (always, w)
  allow (some redis) config now type identity limit window w =
      if is_empty type || is_empty identity || nat_beq limit 0 || nat_beq window 0
      then (always, w)
      else (let (r, w1) =
            redis.command (eval_command (rate_limit_key config type identity (now / window)) window)
              w in
          (read_limit r limit window, w1))

module _ {W : Type 0} (redis : RedisClient W) where
  -- INCR on the key, on its own a command like those that a client sends.
  abbrev pub incr : Bytes → W → RedisCommandResult × W
  incr key = redis.command (codes "INCR" ∷ key ∷ [])

  abbrev pub expire : Bytes → ℕ → W → W
  expire key window w = (redis.command (codes "EXPIRE" ∷ key ∷ to_string (pos window) ∷ []) w).1

  abbrev pub time_to_live : Bytes → W → RedisCommandResult × W
  time_to_live key = redis.command (codes "TTL" ∷ key ∷ [])

  -- `kRateLimitScript`: what its lines do with the key and the window that EVAL gives them.
  unfoldable pub run_rate_limit_script : Bytes → ℕ → W → (ℤ × ℤ) × W
  run_rate_limit_script key window w =
      let (counted, w1) = incr key w in
      let count = integer_value counted.answer in
      let w2 = if count == pos 1 then expire key window w1 else w1 in
      let (left, w3) = time_to_live key w2 in ((count, integer_value left.answer), w3)

-- What the documentation of Redis says of the commands of the script, on a key that does not expire
-- in between: INCR counts and replies with the new count, EXPIRE with a positive number of seconds
-- and TTL keep the count, and EVAL runs a script and replies with the integers that it returns.
pub record IsCounter {W : Type 0} (redis : RedisClient W) : Type 0 where
  pub count : W → Bytes → ℕ
  pub incr_reply :
      (w : W) (key : Bytes) → integer_value (incr redis key w).0.answer ≡ pos (suc (count w key))
  pub incr_counts : (w : W) (key : Bytes) → count (incr redis key w).1 key ≡ suc (count w key)
  pub expire_keeps :
      (w : W) (key : Bytes) (window : ℕ)
      → 0 < window
      → count (expire redis key window w) key ≡ count w key
  pub ttl_keeps : (w : W) (key : Bytes) → count (time_to_live redis key w).1 key ≡ count w key
  pub eval_replies :
      (w : W) (key : Bytes) (window : ℕ)
      → let r = (redis.command (eval_command key window) w).0 in
        let ran = run_rate_limit_script redis key window w in
        (r.success ≡ true)
        × (r.answer
            ≡ reply array_reply [] (pos 0) (
                also
                  (reply integer_reply [] ran.0.0 no_reply)
                  (also (reply integer_reply [] ran.0.1 no_reply) no_reply)))
  pub eval_runs :
      (w : W) (key : Bytes) (window : ℕ)
      → (redis.command (eval_command key window) w).1 ≡ (run_rate_limit_script redis key window w).1

abbrev pub smaller : ℕ → ℕ → ℕ
smaller a b = if ltb b a then b else a

abbrev one_if : Bool → ℕ
one_if true = 1
one_if false = 0

-- How many of the calls at so many times, one after the other, are allowed.
abbrev pub allowed_in_row : {W : Type 0} → (ℕ → W → RateLimitResult × W) → List ℕ → W → ℕ
allowed_in_row call [] w = 0
allowed_in_row call (now ∷ later) w =
    let (r, w1) = call now w in one_if r.allowed + allowed_in_row call later w1

read_limit_counts :
    (r : RedisCommandResult) (c : ℕ) (ttl : ℤ) (limit window : ℕ)
    → r.success ≡ true
    → r.answer
      ≡ reply array_reply [] (pos 0) (
          also
            (reply integer_reply [] (pos c) no_reply)
            (also (reply integer_reply [] ttl no_reply) no_reply))
    → (read_limit r limit window).allowed ≡ not (ltb limit c)
unfolding read_limit limit_result
read_limit_counts r c ttl limit window success answer = rw (success, answer) refl

one_more :
    (n c limit : ℕ)
    → one_if (not (ltb limit (suc c))) + smaller n (limit - suc c) ≡ smaller (suc n) (limit - c)
one_more n c limit = elim (Bool-cases (ltb limit (suc c))) [
  | inl e ↦ rw e (ground arith)
  | inr e ↦ rw e (ground arith)
]

module _ {W : Type 0} (redis : RedisClient W) (counter : IsCounter redis) (key : Bytes) (window : ℕ)
    (some_window : 0 < window) where
  -- The script counts one call.
  script_counts :
      (w : W)
      → ((run_rate_limit_script redis key window w).0.0 ≡ pos (suc (counter.count w key)))
        × (counter.count (run_rate_limit_script redis key window w).1 key
            ≡ suc (counter.count w key))
  unfolding run_rate_limit_script
  script_counts w = (
    counter.incr_reply w key,
    counter.ttl_keeps _ key
        ∙ kept (integer_value (incr redis key w).0.answer == pos 1)
        ∙ counter.incr_counts w key,
  )
    where
      kept :
          (b : Bool)
          → counter.count
              (if b then expire redis key window (incr redis key w).1 else (incr redis key w).1)
              key
            ≡ counter.count (incr redis key w).1 key
      kept true = counter.expire_keeps _ key window some_window
      kept false = refl

module _ {W : Type 0} (redis : RedisClient W) (config : RedisConfig) (counter : IsCounter redis)
    (type identity : Bytes) (limit window : ℕ) (bucket : ℕ) where
  abbrev key : Bytes
  key = rate_limit_key config type identity bucket

  abbrev asks : ℕ → W → RateLimitResult × W
  asks now = allow (some redis) config now type identity limit window

  module _ (some_type : is_empty type ≡ false) (some_identity : is_empty identity ≡ false)
      (some_limit : nat_beq limit 0 ≡ false) (some_window : nat_beq window 0 ≡ false) where
    allow_counts :
        (now : ℕ) (w : W)
        → now / window ≡ bucket
        → ((asks now w).0.allowed ≡ not (ltb limit (suc (counter.count w key))))
          × (counter.count (asks now w).1 key ≡ suc (counter.count w key))
    unfolding allow
    allow_counts now w same =
        let facts = counter.eval_replies w key window in
        let counted = script_counts redis counter key window (ground arith) w in
        rw (some_type, some_identity, some_limit, some_window, same)
          (
            read_limit_counts _ (suc (counter.count w key)) _ limit window facts.0 (
                facts.1
                ∙ ap
                    (λ n. reply array_reply [] (pos 0) (
                      also (reply integer_reply [] n no_reply) (
                        also
                          (reply integer_reply [] (run_rate_limit_script redis key window w).0.1
                            no_reply)
                          no_reply)))
                    counted.0),
            ap (λ v. counter.count v key) (counter.eval_runs w key window) ∙ counted.1,
          )

    -- Of the calls at any times of one window, one after the other, for a key that was counted c
    -- times before, exactly as many are allowed as the limit leaves: the smaller of their number and
    -- limit - c, where Redis answers, no key expires before the last call, and the limit and the
    -- window are not 0.
    pub allowed_in_row-allow :
        (times : List ℕ) (w : W)
        → All (λ now. now / window ≡ bucket) times
        → allowed_in_row asks times w ≡ smaller (length times) (limit - counter.count w key)
    allowed_in_row-allow [] w within = ground arith
    allowed_in_row-allow (now ∷ later) w within =
        let facts = allow_counts now w within.0 in
        let rest = allowed_in_row-allow later (asks now w).1 within.1 in
        rw (facts.0, rest, facts.1) (one_more (length later) (counter.count w key) limit)
