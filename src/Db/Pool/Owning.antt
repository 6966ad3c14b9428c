-- ===== src/Db/Pool/Owning.antt =====
-- Who has a connection (src/db/db_pool.cc): the `unique_ptr` of a connection is moved from the pool
-- to a call and back.
use linux_server.Base.{
  ℕ, ◌+◌, ◌≤◌, ◌≡◌, refl, Bool, not, ◌&&◌, ◌||◌, List, [], ◌∷◌, ◌++◌, Bool-cases, inl, inr, arith,
  nat_beq, ltb, if◌then◌else◌, is_empty,
}
use linux_server.Db.Pool.{
  DbPool, IdleConnection, BorrowCall, entering, checking, connecting, waiting, holding, refused,
  returned,
}
use linux_server.Db.Pool.Borrowing.{
  ready, end_wait, count_invalidated, change_stats, is_expired, release_slot, take_idle, enter,
  check_idle, wake, return_connection, stop,
}

count_invalidated-idle_connections :
    (healthy : Bool) (p : DbPool)
    → (count_invalidated healthy p).idle_connections ≡ p.idle_connections
unfolding count_invalidated change_stats
count_invalidated-idle_connections healthy p = elim (Bool-cases (not p.stopping && not healthy)) [
  | inl e ↦ simp e refl
  | inr e ↦ simp e refl
]

-- Whether it is the connection, as a number.
abbrev pub is : ℕ → ℕ → ℕ
is conn x = if nat_beq conn x then 1 else 0

module _ (x : ℕ) where
  -- How often a call has the connection x, on top of n.
  abbrev pub has_with : BorrowCall → ℕ → ℕ
  has_with (checking idle unhealthy) n = is idle.conn x + n
  has_with (holding conn create_time reusable) n = is conn x + n
  has_with (entering unhealthy) n = n
  has_with (connecting unhealthy) n = n
  has_with (waiting unhealthy) n = n
  has_with (refused error code message) n = n
  has_with returned n = n

  abbrev pub has : BorrowCall → ℕ
  has c = has_with c 0

  -- How often the idle connections are x.
  abbrev pub idle_has : List IdleConnection → ℕ
  idle_has [] = 0
  idle_has (idle ∷ rest) = is idle.conn x + idle_has rest

  pub idle_has-append :
      (l : List IdleConnection) (idle : IdleConnection)
      → idle_has (l ++ (idle ∷ [])) ≡ idle_has l + is idle.conn x
  idle_has-append [] idle = omega arith
  idle_has-append (b ∷ rest) idle = omega (arith, idle_has-append rest idle)

  -- A call and the pool have x at most n times.
  abbrev pub Within : ℕ → DbPool × BorrowCall → Type 0
  Within n r = has_with r.1 (idle_has r.0.idle_connections) ≤ n

  module _ (n : ℕ) where
    pub take_idle-Within :
        (unhealthy : Bool) (p : DbPool) (l : List IdleConnection)
        → p.idle_connections ≡ l
        → idle_has l ≤ n
        → Within n (take_idle unhealthy p l)
    unfolding take_idle change_stats
    take_idle-Within unhealthy p (idle ∷ rest) e h = h
    take_idle-Within unhealthy p [] e h =
        elim (Bool-cases (ltb p.total_connections p.pool_config.max_connections)) [
          | inl g ↦ simp (g, e) h
          | inr g ↦ simp (g, e) h
        ]

    pub enter-Within :
        (unhealthy : Bool) (p : DbPool)
        → idle_has p.idle_connections ≤ n
        → Within n (enter unhealthy p)
    unfolding enter
    enter-Within unhealthy p h = elim (Bool-cases p.initialized) [
      | inr e ↦ simp e h
      | inl e ↦ elim (Bool-cases p.stopping) [
        | inl g ↦ simp (e, g) h
        | inr g ↦ simp (e, g) (take_idle-Within unhealthy p _ refl h)
      ]
    ]

    pub check_idle-Within :
        (idle : IdleConnection) (unhealthy : Bool) (now : ℕ) (healthy : Bool) (p : DbPool)
        → is idle.conn x + idle_has p.idle_connections ≤ n
        → Within n (check_idle idle unhealthy now healthy p)
    unfolding check_idle change_stats release_slot
    check_idle-Within idle unhealthy now healthy p h =
        let less : idle_has p.idle_connections ≤ n = omega arith in
        elim (Bool-cases (is_expired p idle now)) [
          | inl e ↦ simp e (enter-Within unhealthy _ less)
          | inr e ↦ elim (Bool-cases p.stopping) [
            | inl g ↦ simp (e, g) less
            | inr g ↦ elim (Bool-cases healthy) [
              | inl k ↦ simp (e, g, k) h
              | inr k ↦ simp (e, g, k) less
            ]
          ]
        ]

    pub end_wait-Within :
        (unhealthy success : Bool) (p : DbPool)
        → idle_has p.idle_connections ≤ n
        → Within n (end_wait unhealthy success p)
    unfolding end_wait change_stats
    end_wait-Within unhealthy success p h = elim (Bool-cases p.stopping) [
      | inl e ↦ simp e h
      | inr e ↦ elim (Bool-cases (not success && is_empty p.idle_connections)) [
        | inl g ↦ simp (e, g) h
        | inr g ↦ simp (e, g) (enter-Within unhealthy p h)
      ]
    ]

    pub wake-Within :
        (unhealthy timed_out : Bool) (p : DbPool)
        → idle_has p.idle_connections ≤ n
        → Within n (wake unhealthy timed_out p)
    unfolding wake change_stats
    wake-Within unhealthy timed_out p h = elim (Bool-cases (ready p || timed_out)) [
      | inl e ↦ simp e (end_wait-Within unhealthy _ _ h)
      | inr e ↦ simp e h
    ]

    pub return_connection-Within :
        (conn create_time : ℕ) (reusable ping : Bool) (now : ℕ) (p : DbPool)
        → is conn x + idle_has p.idle_connections ≤ n
        → idle_has (return_connection conn create_time reusable ping now p).idle_connections ≤ n
    unfolding return_connection release_slot
    return_connection-Within conn create_time reusable ping now p h =
        elim (Bool-cases (p.stopping || not (reusable && ping))) [
          | inl e ↦
              simp e (rw (count_invalidated-idle_connections (reusable && ping) p) (omega arith))
          | inr e ↦ simp e (omega (arith, idle_has-append p.idle_connections _))
        ]

    pub stop-Within :
        (p : DbPool) → idle_has p.idle_connections ≤ n → idle_has (stop p).idle_connections ≤ n
    unfolding stop
    stop-Within p h = elim (Bool-cases p.stopping) [
      | inl e ↦ simp e h
      | inr e ↦ simp e (omega arith)
    ]
