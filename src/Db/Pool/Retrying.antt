-- ===== src/Db/Pool/Retrying.antt =====
-- The loop of `createConnection` (src/db/db_pool.cc).
use linux_server.Base.{
  ℕ, zero, suc, ◌+◌, ◌-◌, ◌*◌, ◌^◌, ◌≤◌, ◌<◌, ◌≡◌, refl, subst, none, some, arith, ltb→lt, sym,
}
use linux_server.Model.Settings.{DbPoolConfig}
use linux_server.Db.Pool.{CreateConnectionResult}
use linux_server.Db.Pool.Connecting.{
  Attempt, no_object, failed, connected, create_connection, create_loop, attempted, max_attempts,
  no_result, not_opened, opened,
}

abbrev pub IsFailed : Attempt → Type 0
IsFailed no_object = ⊥
IsFailed (failed code message) = Unit
IsFailed connected = ⊥

-- The attempt k, counted from a given one and one of so many, is the first to connect.
pub record Connects (answer : ℕ → Attempt) (rounds attempt k : ℕ) : Type 0 where
  pub within : k < rounds
  pub connects : answer (attempt + k) ≡ connected
  pub fails : (j : ℕ) → j < k → IsFailed (answer (attempt + j))

module _ (config : DbPoolConfig) (fresh : ℕ) (answer : ℕ → Attempt) where
  attempted-slept :
      (further : CreateConnectionResult → CreateConnectionResult × ℕ) (rounds attempt : ℕ)
      (a : Attempt)
      → suc rounds + attempt ≡ max_attempts config
      → ((res : CreateConnectionResult)
          → (further res).1 ≤ (rounds - 1) * config.connect_retry_delay_ms)
      → (attempted config fresh further attempt a).1 ≤ rounds * config.connect_retry_delay_ms
  attempted-slept further rounds attempt no_object e h = omega arith
  attempted-slept further rounds attempt connected e h = omega arith
  attempted-slept further zero attempt (failed code message) e h =
      ground (arith, ltb→lt attempt (max_attempts config - 1), h (not_opened code message))
  attempted-slept further (suc rounds) attempt (failed code message) e h =
      ground (arith, h (not_opened code message))

  create_loop-slept :
      (rounds attempt : ℕ) (res : CreateConnectionResult)
      → rounds + attempt ≡ max_attempts config
      → (create_loop config fresh answer rounds attempt res).1
        ≤ (rounds - 1) * config.connect_retry_delay_ms
  unfolding create_loop
  create_loop-slept zero attempt res e = omega arith
  create_loop-slept (suc rounds) attempt res e =
      let less : suc rounds - 1 ≡ rounds = omega arith in
      rw less (
        attempted-slept (create_loop config fresh answer rounds (attempt + 1)) rounds attempt
          (answer attempt) e (λ r. create_loop-slept rounds (attempt + 1) r (omega arith)))

  shift :
      (P : Attempt → Type 0) (attempt k : ℕ)
      → P (answer (attempt + 1 + k))
      → P (answer (attempt + suc k))
  shift P attempt k h =
      let e : attempt + 1 + k ≡ attempt + suc k = omega arith in subst (λ n. P (answer n)) e h

  at_start : (P : Attempt → Type 0) (attempt : ℕ) → P (answer attempt) → P (answer (attempt + 0))
  at_start P attempt h =
      let e : attempt ≡ attempt + 0 = omega arith in subst (λ n. P (answer n)) e h

  fails_first :
      (attempt k : ℕ)
      → IsFailed (answer attempt)
      → ((j : ℕ) → j < k → IsFailed (answer (attempt + 1 + j)))
      → (j : ℕ) → j < suc k
      → IsFailed (answer (attempt + j))
  fails_first attempt k h f zero l = at_start IsFailed attempt h
  fails_first attempt k h f (suc j) l = shift IsFailed attempt j (f j (omega arith))

  attempted-connection :
      (further : CreateConnectionResult → CreateConnectionResult × ℕ) (rounds attempt : ℕ)
      (a : Attempt)
      → answer attempt ≡ a
      → ((res : CreateConnectionResult)
          → res.connection ≡ none
          → (further res).0.connection ≡ some fresh
          → (k : ℕ) × Connects answer rounds (attempt + 1) k)
      → (attempted config fresh further attempt a).0.connection ≡ some fresh
      → (k : ℕ) × Connects answer (suc rounds) attempt k
  attempted-connection further rounds attempt no_object e ih h = absurd (cc h)
  attempted-connection further rounds attempt connected e ih h = (
    0,
    record {
      within = omega arith;
      connects = at_start (λ b. b ≡ connected) attempt e;
      fails = λ j l. absurd (omega arith);
    },
  )
  attempted-connection further rounds attempt (failed code message) e ih h =
      let (k, v) = ih (not_opened code message) refl h in
      (
        suc k,
        record {
          within = omega (arith, v.within);
          connects = shift (λ b. b ≡ connected) attempt k v.connects;
          fails = fails_first attempt k (subst IsFailed (sym e) tt) v.fails;
        },
      )

  create_loop-connection :
      (rounds attempt : ℕ) (res : CreateConnectionResult)
      → res.connection ≡ none
      → (create_loop config fresh answer rounds attempt res).0.connection ≡ some fresh
      → (k : ℕ) × Connects answer rounds attempt k
  unfolding create_loop
  create_loop-connection zero attempt res e h = absurd (cc (e, h))
  create_loop-connection (suc rounds) attempt res e h =
      attempted-connection (create_loop config fresh answer rounds (attempt + 1)) rounds attempt
        (answer attempt) refl (create_loop-connection rounds (attempt + 1)) h

  attempted-opened :
      (further : CreateConnectionResult → CreateConnectionResult × ℕ) (attempt k : ℕ) (a : Attempt)
      → answer attempt ≡ a
      → answer (attempt + k) ≡ connected
      → ((j : ℕ) → j < k → IsFailed (answer (attempt + j)))
      → ((res : CreateConnectionResult) (m : ℕ) → k ≡ suc m → (further res).0 ≡ opened fresh)
      → (attempted config fresh further attempt a).0 ≡ opened fresh
  attempted-opened further attempt k connected e at_k before ih = refl
  attempted-opened further attempt zero no_object e at_k before ih =
      absurd (cc (at_k, at_start (λ b. b ≡ no_object) attempt e))
  attempted-opened further attempt zero (failed code message) e at_k before ih =
      absurd (cc (at_k, at_start (λ b. b ≡ failed code message) attempt e))
  attempted-opened further attempt (suc m) no_object e at_k before ih =
      absurd (subst IsFailed (at_start (λ b. b ≡ no_object) attempt e) (before 0 (omega arith)))
  attempted-opened further attempt (suc m) (failed code message) e at_k before ih =
      ih (not_opened code message) m refl

  later :
      (rounds attempt k m : ℕ)
      → k ≡ suc m
      → Connects answer (suc rounds) attempt k
      → Connects answer rounds (attempt + 1) m
  later rounds attempt k m e v =
      let q : attempt + k ≡ attempt + 1 + m = omega arith in
      record {
        within = omega (arith, v.within);
        connects = subst (λ n. answer n ≡ connected) q v.connects;
        fails = λ j l.
            let p : attempt + suc j ≡ attempt + 1 + j = omega arith in
            subst (λ n. IsFailed (answer n)) p (v.fails (suc j) (omega arith));
      }

  create_loop-opened :
      (rounds attempt k : ℕ) (res : CreateConnectionResult)
      → Connects answer rounds attempt k
      → (create_loop config fresh answer rounds attempt res).0 ≡ opened fresh
  unfolding create_loop
  create_loop-opened zero attempt k res v = absurd (omega (arith, v.within))
  create_loop-opened (suc rounds) attempt k res v =
      attempted-opened (create_loop config fresh answer rounds (attempt + 1)) attempt k
        (answer attempt) refl v.connects v.fails
        (λ r m e. create_loop-opened rounds (attempt + 1) m r (later rounds attempt k m e v))

-- `createConnection` ends with a new connection exactly if one of its attempts is the first to
-- connect, all before it having failed with an object: the attempts are one and the repetitions
-- that the configuration allows, whose number plus one fits into 32 bits. In any case it has slept
-- at most one delay for each repetition.
pub create_connection_lem :
    (config : DbPoolConfig) (fresh : ℕ) (answer : ℕ → Attempt)
    → config.connect_retry_count + 1 < 2 ^ 32
    → (((create_connection config fresh answer).0.connection ≡ some fresh)
        → (k : ℕ) × Connects answer (suc config.connect_retry_count) 0 k)
      × ((k : ℕ)
          → Connects answer (suc config.connect_retry_count) 0 k
          → (create_connection config fresh answer).0 ≡ opened fresh)
      × ((create_connection config fresh answer).1
          ≤ config.connect_retry_count * config.connect_retry_delay_ms)
unfolding create_connection
create_connection_lem config fresh answer small =
    let attempts : suc config.connect_retry_count ≡ max_attempts config = omega arith in
    let less : max_attempts config - 1 ≡ config.connect_retry_count = omega arith in
    (
      λ h.
          subst (λ n. (k : ℕ) × Connects answer n 0 k) (sym attempts)
            (create_loop-connection config fresh answer (max_attempts config) 0 no_result refl h),
      λ k v.
          create_loop-opened config fresh answer (max_attempts config) 0 k no_result
            (subst (λ n. Connects answer n 0 k) attempts v),
      subst
          (λ n.
            (create_loop config fresh answer (max_attempts config) 0 no_result).1
            ≤ n * config.connect_retry_delay_ms)
          less
          (create_loop-slept config fresh answer (max_attempts config) 0 no_result (omega arith)),
    )
