-- ===== src/Db/Pool/Counting.antt =====
-- How many connections there are (src/db/db_pool.cc): `total_connections_` is kept by all threads
-- together, and each takes a slot before it connects, outside of the lock.
use linux_server.Base.{
  ℕ, suc, ◌+◌, ◌-◌, ◌%◌, ◌^◌, ◌≤◌, ◌<◌, ◌≡◌, refl, ap, Bool, true, not, ◌&&◌, ◌||◌, List, [], ◌∷◌,
  Option, none, some, arith, ltb→lt, length, length-append, is_empty, ltb, Bool-cases, inl, inr,
}
use linux_server.Db.Pool.{
  DbPool, Stats, IdleConnection, CreateConnectionResult, BorrowCall, entering, checking, connecting,
  waiting, holding, refused, returned, increment, decrement,
}
use linux_server.Db.Pool.Borrowing.{
  is_expired, accept_connection, ready, end_wait, count_invalidated, change_stats, release_slot,
  take_idle, enter, check_idle, finish_connecting, wake, return_connection, stop,
}

-- The slots that a call takes, on top of n others.
abbrev pub with_slots : BorrowCall → ℕ → ℕ
with_slots (checking idle unhealthy) n = suc n
with_slots (connecting unhealthy) n = suc n
with_slots (holding conn create_time reusable) n = suc n
with_slots (entering unhealthy) n = n
with_slots (waiting unhealthy) n = n
with_slots (refused error code message) n = n
with_slots returned n = n

decrement-suc : (k : ℕ) → k < 2 ^ 64 → decrement (suc k) ≡ k
unfolding decrement
decrement-suc k h = omega arith

pub increment-lt : (k : ℕ) → suc k < 2 ^ 64 → increment k ≡ suc k
unfolding increment
increment-lt k h = omega arith

pub all_idle : (n k : ℕ) → n + k < 2 ^ 64 → (n + k + (2 ^ 64 - n % 2 ^ 64)) % 2 ^ 64 ≡ k
all_idle n k h = omega arith

module _ (limit : ℕ) where
  -- The pool p with its limit, while the calls take k slots.
  pub record Accounts (k : ℕ) (p : DbPool) : Type 0 where
    pub limit_is : p.pool_config.max_connections ≡ limit
    pub small : limit < 2 ^ 64
    pub counted : p.total_connections ≡ length p.idle_connections + k
    pub bounded : p.total_connections ≤ limit
    pub drained : p.stopping ≡ true → p.idle_connections ≡ []

  -- A call that becomes another one, with the pool.
  abbrev pub Kept : ℕ → DbPool × BorrowCall → Type 0
  Kept k r = Accounts (with_slots r.1 k) r.0

  change_stats-Accounts :
      {k : ℕ} (p : DbPool) (f : Stats → Stats) → Accounts k p → Accounts k (change_stats f p)
  unfolding change_stats
  change_stats-Accounts p f v = record {
    limit_is = v.limit_is;
    small = v.small;
    counted = v.counted;
    bounded = v.bounded;
    drained = v.drained;
  }

  count_invalidated-Accounts :
      {k : ℕ} (healthy : Bool) (p : DbPool)
      → Accounts k p
      → Accounts k (count_invalidated healthy p)
  unfolding count_invalidated
  count_invalidated-Accounts healthy p v = elim (Bool-cases (not p.stopping && not healthy)) [
    | inl h ↦ simp h (change_stats-Accounts p _ v)
    | inr h ↦ simp h v
  ]

  module _ (k : ℕ) where
    release_slot-Accounts : (p : DbPool) → Accounts (suc k) p → Accounts k (release_slot p)
    unfolding release_slot
    release_slot-Accounts p v =
        let e : decrement p.total_connections ≡ length p.idle_connections + k =
          ground
            (arith, v.counted, v.bounded, v.small, decrement-suc (length p.idle_connections + k)) in
        record {
          limit_is = v.limit_is;
          small = v.small;
          counted = e;
          bounded = omega (arith, e, v.counted, v.bounded);
          drained = v.drained;
        }

    take_idle-Kept :
        (unhealthy : Bool) (p : DbPool) (idle : List IdleConnection)
        → p.idle_connections ≡ idle
        → Accounts k p
        → Kept k (take_idle unhealthy p idle)
    unfolding take_idle
    take_idle-Kept unhealthy p (idle ∷ rest) e v = record {
      limit_is = v.limit_is;
      small = v.small;
      counted = ground (arith, v.counted, ap length e);
      bounded = v.bounded;
      drained = λ h. ground (arith, v.drained h);
    }
    take_idle-Kept unhealthy p [] e v =
        elim (Bool-cases (ltb p.total_connections p.pool_config.max_connections)) [
          | inl h ↦
              let below : p.total_connections < p.pool_config.max_connections = ltb→lt _ _ h in
              let next = increment-lt p.total_connections (omega (arith, v.small, v.limit_is)) in
              rw h record {
                limit_is = v.limit_is;
                small = v.small;
                counted = omega (arith, v.counted, next);
                bounded = omega (arith, next, v.limit_is);
                drained = v.drained;
              }
          | inr h ↦ rw h (change_stats-Accounts p _ v)
        ]

    pub enter-Kept : (unhealthy : Bool) (p : DbPool) → Accounts k p → Kept k (enter unhealthy p)
    unfolding enter
    enter-Kept unhealthy p v = elim (Bool-cases p.initialized) [
      | inr h ↦ simp h v
      | inl h ↦ elim (Bool-cases p.stopping) [
        | inl g ↦ simp (h, g) v
        | inr g ↦ simp (h, g) (take_idle-Kept unhealthy p _ refl v)
      ]
    ]

    pub check_idle-Kept :
        (idle : IdleConnection) (unhealthy : Bool) (now : ℕ) (healthy : Bool) (p : DbPool)
        → Accounts (suc k) p
        → Kept k (check_idle idle unhealthy now healthy p)
    unfolding check_idle
    check_idle-Kept idle unhealthy now healthy p v = elim (Bool-cases (is_expired p idle now)) [
      | inl h ↦
          simp h (enter-Kept unhealthy _ (release_slot-Accounts _ (change_stats-Accounts p _ v)))
      | inr h ↦ elim (Bool-cases p.stopping) [
        | inl g ↦ simp (h, g) (release_slot-Accounts p v)
        | inr g ↦ elim (Bool-cases healthy) [
          | inl e ↦ simp (h, g, e) v
          | inr e ↦ simp (h, g, e) (release_slot-Accounts _ (change_stats-Accounts p _ v))
        ]
      ]
    ]

    accept_connection-Kept :
        (unhealthy : Bool) (res : CreateConnectionResult) (now : ℕ) (conn : Option ℕ) (p : DbPool)
        → Accounts (suc k) p
        → Kept k (accept_connection unhealthy res now conn p)
    accept_connection-Kept unhealthy res now (some conn) p v = change_stats-Accounts p _ v
    accept_connection-Kept unhealthy res now none p v = release_slot-Accounts p v

    pub finish_connecting-Kept :
        (unhealthy : Bool) (res : CreateConnectionResult) (now : ℕ) (p : DbPool)
        → Accounts (suc k) p
        → Kept k (finish_connecting unhealthy res now p)
    unfolding finish_connecting
    finish_connecting-Kept unhealthy res now p v = elim (Bool-cases p.stopping) [
      | inl h ↦ simp h (release_slot-Accounts p v)
      | inr h ↦ simp h (accept_connection-Kept unhealthy res now res.connection p v)
    ]

    end_wait-Kept :
        (unhealthy success : Bool) (p : DbPool)
        → Accounts k p
        → Kept k (end_wait unhealthy success p)
    unfolding end_wait
    end_wait-Kept unhealthy success p v = elim (Bool-cases p.stopping) [
      | inl h ↦ simp h v
      | inr h ↦ elim (Bool-cases (not success && is_empty p.idle_connections)) [
        | inl e ↦ simp (h, e) (change_stats-Accounts p _ v)
        | inr e ↦ simp (h, e) (enter-Kept unhealthy p v)
      ]
    ]

    pub wake-Kept :
        (unhealthy timed_out : Bool) (p : DbPool)
        → Accounts k p
        → Kept k (wake unhealthy timed_out p)
    unfolding wake
    wake-Kept unhealthy timed_out p v = elim (Bool-cases (ready p || timed_out)) [
      | inl h ↦ simp h (end_wait-Kept unhealthy _ _ (change_stats-Accounts p _ v))
      | inr h ↦ simp h v
    ]

    pub return_connection-Accounts :
        (conn create_time : ℕ) (reusable ping : Bool) (now : ℕ) (p : DbPool)
        → Accounts (suc k) p
        → Accounts k (return_connection conn create_time reusable ping now p)
    unfolding return_connection
    return_connection-Accounts conn create_time reusable ping now p v =
        elim (Bool-cases (p.stopping || not (reusable && ping))) [
          | inl h ↦ simp h (release_slot-Accounts _ (count_invalidated-Accounts _ p v))
          | inr h ↦ simp h record {
            limit_is = v.limit_is;
            small = v.small;
            counted = omega (
              arith,
              v.counted,
              length-append p.idle_connections
                  (record { conn = conn; create_time = create_time; last_return_time = now } ∷ []),
            );
            bounded = v.bounded;
            drained = λ g. absurd (ground (arith, h, g));
          }
        ]

    pub stop-Accounts : (p : DbPool) → Accounts k p → Accounts k (stop p)
    unfolding stop
    stop-Accounts p v = elim (Bool-cases p.stopping) [
      | inl h ↦ simp h v
      | inr h ↦
          let e =
            all_idle (length p.idle_connections) k (omega (arith, v.counted, v.bounded, v.small)) in
          simp h record {
            limit_is = v.limit_is;
            small = v.small;
            counted = ground (arith, v.counted, e);
            bounded = ground (arith, v.counted, e, v.bounded);
            drained = λ g. refl;
          }
    ]
