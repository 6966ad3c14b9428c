-- ===== src/Db/Pool/Owners.antt =====
-- Each connection has one owner over any history of the pool (src/db/db_pool.cc).
use linux_server.Base.{
  ◌⊎◌, ℕ, zero, suc, ◌+◌, ◌≤◌, ◌≡◌, refl, ap, subst, sym, append-nil, append_assoc, Bool, false,
  List, [], ◌∷◌, ◌++◌, Option, none, some, Option-cases, Bool-cases, inl, inr, arith, nat_beq_iff,
}
use mathlib.Core.Sum.{inr-injective}
use linux_server.Model.Settings.{DbConfig, DbPoolConfig}
use linux_server.Db.Pool.{
  DbPool, IdleConnection, BorrowCall, CreateConnectionResult, entering, checking, connecting,
  waiting, holding, refused, returned, db_pool,
}
use linux_server.Db.Pool.Connecting.{Attempt, create_connection, create_loop, attempted, not_opened}
use linux_server.Db.Pool.Borrowing.{
  accept_connection, change_stats, release_slot, finish_connecting,
}
use linux_server.Db.Pool.Running.{
  Run, Event, called, runs, marks_bad, releases, stops, Answer, proceed, mark_bad, release,
  get_elem?, move, step, run, started, init, idle_at, init_with, config_error, adopt,
  create_initial,
}
use linux_server.Db.Pool.Calls.{sum, sum-append, sum-set}
use linux_server.Db.Pool.Owning.{
  is, has_with, has, idle_has, idle_has-append, Within, enter-Within, check_idle-Within,
  wake-Within, return_connection-Within, stop-Within,
}

-- What `createConnection` opens is the new object.
module _ (config : DbPoolConfig) (fresh : ℕ) (answer : ℕ → Attempt) where
  abbrev IsFresh : CreateConnectionResult → Type 0
  IsFresh res = (res.connection ≡ none) ⊎ (res.connection ≡ some fresh)

  attempted-IsFresh :
      (further : CreateConnectionResult → CreateConnectionResult × ℕ) (attempt : ℕ) (a : Attempt)
      → ((res : CreateConnectionResult) → IsFresh res → IsFresh (further res).0)
      → IsFresh (attempted config fresh further attempt a).0
  attempted-IsFresh further attempt Attempt.no_object ih = inl refl
  attempted-IsFresh further attempt Attempt.connected ih = inr refl
  attempted-IsFresh further attempt (Attempt.failed code message) ih =
      ih (not_opened code message) (inl refl)

  create_loop-IsFresh :
      (rounds attempt : ℕ) (res : CreateConnectionResult)
      → IsFresh res
      → IsFresh (create_loop config fresh answer rounds attempt res).0
  unfolding create_loop
  create_loop-IsFresh zero attempt res h = h
  create_loop-IsFresh (suc rounds) attempt res h =
      attempted-IsFresh (create_loop config fresh answer rounds (attempt + 1)) attempt
        (answer attempt) (create_loop-IsFresh rounds (attempt + 1))

  create_connection-IsFresh : IsFresh (create_connection config fresh answer).0
  unfolding create_connection
  create_connection-IsFresh = create_loop-IsFresh _ 0 _ (inl refl)

opened_fresh :
    (conn fresh : ℕ) (o : Option ℕ) → o ≡ some conn → (o ≡ none) ⊎ (o ≡ some fresh) → conn ≡ fresh
opened_fresh conn fresh o e (inl h) = absurd (cc (e, h))
opened_fresh conn fresh o e (inr h) = cc (e, h)

-- The adopted connections come behind those of the pool.
adopt-idle_connections :
    (l : List IdleConnection) (p : DbPool) → (adopt l p).idle_connections ≡ p.idle_connections ++ l
unfolding adopt
adopt-idle_connections [] p = sym (append-nil p.idle_connections)
adopt-idle_connections (idle ∷ rest) p =
    rw (adopt-idle_connections rest _) (append_assoc p.idle_connections (idle ∷ []) rest)

move-next_connection :
    (f : BorrowCall → DbPool → DbPool × BorrowCall) (i : ℕ) (r : Run)
    → (move f i r).next_connection ≡ r.next_connection
unfolding move
move-next_connection f i r = elim (Option-cases (get_elem? r.calls i)) [
  | inl e ↦ rw (e, move) refl
  | inr (c, e) ↦ rw (e, move) refl
]

module _ (x : ℕ) where
  abbrev Moves : ℕ → (BorrowCall → DbPool → DbPool × BorrowCall) → Type 0
  Moves e f =
      (n : ℕ) (c : BorrowCall) (p : DbPool)
      → has_with x c (idle_has x p.idle_connections) ≤ n
      → Within x (n + e) (f c p)

  accept_connection-Within :
      (n fresh : ℕ) (unhealthy : Bool) (res : CreateConnectionResult) (now : ℕ) (conn : Option ℕ)
      (p : DbPool)
      → (conn ≡ none) ⊎ (conn ≡ some fresh)
      → idle_has x p.idle_connections ≤ n
      → Within x (n + is fresh x) (accept_connection unhealthy res now conn p)
  unfolding change_stats release_slot
  accept_connection-Within n fresh unhealthy res now none p opened h = omega arith
  accept_connection-Within n fresh unhealthy res now (some conn) p (inl e) h = absurd (cc e)
  accept_connection-Within n fresh unhealthy res now (some conn) p (inr e) h =
      let q : conn ≡ fresh = cc e in omega (arith, ap (λ c. is c x) q)

  finish_connecting-Within :
      (n fresh : ℕ) (unhealthy : Bool) (res : CreateConnectionResult) (now : ℕ) (p : DbPool)
      → (res.connection ≡ none) ⊎ (res.connection ≡ some fresh)
      → idle_has x p.idle_connections ≤ n
      → Within x (n + is fresh x) (finish_connecting unhealthy res now p)
  unfolding finish_connecting release_slot
  finish_connecting-Within n fresh unhealthy res now p opened h = elim (Bool-cases p.stopping) [
    | inl e ↦ simp e (omega arith)
    | inr e ↦ simp e (accept_connection-Within n fresh unhealthy res now res.connection p opened h)
  ]

  proceed-Moves : (a : Answer) (fresh : ℕ) → Moves (is fresh x) (proceed a fresh)
  unfolding proceed
  proceed-Moves a fresh n (entering unhealthy) p h = enter-Within x _ unhealthy p (omega arith)
  proceed-Moves a fresh n (checking idle unhealthy) p h =
      check_idle-Within x _ idle unhealthy a.now a.healthy p (omega arith)
  proceed-Moves a fresh n (connecting unhealthy) p h =
      finish_connecting-Within n fresh unhealthy _ a.now p
        (create_connection-IsFresh p.pool_config fresh a.attempts) h
  proceed-Moves a fresh n (waiting unhealthy) p h =
      wake-Within x _ unhealthy a.wait_over p (omega arith)
  proceed-Moves a fresh n (holding conn create_time reusable) p h = omega arith
  proceed-Moves a fresh n (refused error code message) p h = omega arith
  proceed-Moves a fresh n returned p h = omega arith

  mark_bad-Moves : Moves 0 mark_bad
  unfolding mark_bad
  mark_bad-Moves n (entering unhealthy) p h = omega arith
  mark_bad-Moves n (checking idle unhealthy) p h = omega arith
  mark_bad-Moves n (connecting unhealthy) p h = omega arith
  mark_bad-Moves n (waiting unhealthy) p h = omega arith
  mark_bad-Moves n (holding conn create_time reusable) p h = omega arith
  mark_bad-Moves n (refused error code message) p h = omega arith
  mark_bad-Moves n returned p h = omega arith

  release-Moves : (a : Answer) → Moves 0 (release a)
  unfolding release
  release-Moves a n (entering unhealthy) p h = omega arith
  release-Moves a n (checking idle unhealthy) p h = omega arith
  release-Moves a n (connecting unhealthy) p h = omega arith
  release-Moves a n (waiting unhealthy) p h = omega arith
  release-Moves a n (holding conn create_time reusable) p h =
      return_connection-Within x _ conn create_time reusable a.healthy a.now p (omega arith)
  release-Moves a n (refused error code message) p h = omega arith
  release-Moves a n returned p h = omega arith

  has_with-has : (c : BorrowCall) (n : ℕ) → has_with x c n ≡ has x c + n
  has_with-has (entering unhealthy) n = omega arith
  has_with-has (checking idle unhealthy) n = omega arith
  has_with-has (connecting unhealthy) n = omega arith
  has_with-has (waiting unhealthy) n = omega arith
  has_with-has (holding conn create_time reusable) n = omega arith
  has_with-has (refused error code message) n = omega arith
  has_with-has returned n = omega arith

  -- How many have x in all.
  abbrev pub owners : Run → ℕ
  owners r = sum (has x) r.calls + idle_has x r.pool.idle_connections

  move-owners :
      (e : ℕ) (f : BorrowCall → DbPool → DbPool × BorrowCall)
      → Moves e f
      → (i : ℕ) (r : Run) → owners (move f i r) ≤ owners r + e
  unfolding move
  move-owners e f moves i r = elim (Option-cases (get_elem? r.calls i)) [
    | inl none_there ↦ rw (none_there, move) (omega arith)
    | inr (c, there) ↦
        let idle = idle_has x r.pool.idle_connections in
        let moved = moves (has x c + idle) c r.pool (omega (arith, has_with-has c idle)) in
        rw (there, move)
          (omega (
            arith,
            moved,
            has_with-has (f c r.pool).1 (idle_has x (f c r.pool).0.idle_connections),
            sum-set (has x) r.calls i c (f c r.pool).1 there,
          ))
  ]

  -- One has x, or none if it is still to come.
  abbrev Owned : Run → Type 0
  Owned r = (owners r ≤ 1) × (r.next_connection ≤ x → owners r ≡ 0)

  fewer-Owned :
      (r r' : Run)
      → owners r' ≤ owners r
      → r'.next_connection ≡ r.next_connection
      → Owned r
      → Owned r'
  fewer-Owned r r' less same v = (omega arith, λ h. ground (arith, v.1))

  next-Owned :
      (n m fresh : ℕ)
      → (n ≤ 1) × (fresh ≤ x → n ≡ 0)
      → m ≤ n + is fresh x
      → (m ≤ 1) × (suc fresh ≤ x → m ≡ 0)
  next-Owned n m fresh v h =
      (ground (arith, v.1, nat_beq_iff fresh x), λ g. ground (arith, v.1, nat_beq_iff fresh x))

  move-Owned :
      (f : BorrowCall → DbPool → DbPool × BorrowCall)
      → Moves 0 f
      → (i : ℕ) (r : Run) → Owned r
      → Owned (move f i r)
  move-Owned f moves i r v =
      fewer-Owned r (move f i r) (omega (arith, move-owners 0 f moves i r))
        (move-next_connection f i r) v

  step-Owned : (r : Run) (event : Event) → Owned r → Owned (step r event)
  unfolding step
  step-Owned r called v =
      fewer-Owned r (step r called) (omega (arith, sum-append (has x) r.calls (entering false)))
        refl v
  step-Owned r (runs i a) v =
      next-Owned _ _ r.next_connection v (move-owners _ _ (proceed-Moves a r.next_connection) i r)
  step-Owned r (marks_bad i) v = move-Owned mark_bad mark_bad-Moves i r v
  step-Owned r (releases i a) v = move-Owned (release a) (release-Moves a) i r v
  step-Owned r stops v =
      fewer-Owned r (step r stops)
        (omega (arith, stop-Within x (idle_has x r.pool.idle_connections) r.pool (omega arith)))
        refl v

  run-Owned : (r : Run) (events : List Event) → Owned r → Owned (run r events)
  unfolding run
  run-Owned r [] v = v
  run-Owned r (event ∷ events) v = run-Owned (step r event) events (step-Owned r event v)

  -- The connections of `init` are numbered from 0.
  abbrev Numbered : ℕ → List IdleConnection → Type 0
  Numbered i l = (idle_has x l ≤ 1) × (i ≤ x → idle_has x l ≡ 0)

  module _ (pool_config : DbPoolConfig) (answers : ℕ → ℕ → Attempt) (now : ℕ → ℕ) where
    create_initial-Numbered :
        (n i : ℕ) (temp l : List IdleConnection)
        → Numbered i temp
        → create_initial pool_config answers now n i temp ≡ inr l
        → Numbered (i + n) l
    unfolding create_initial
    create_initial-Numbered zero i temp l v e =
        let q : temp ≡ l = inr-injective temp l e in
        subst (Numbered (i + 0)) q (v.0, λ h. v.1 (omega arith))
    create_initial-Numbered (suc n) i temp l v e =
        elim (Option-cases (create_connection pool_config i (answers i)).0.connection) [
          | inl none_opened ↦ absurd (cc (rw (none_opened, create_initial) at e))
          | inr (conn, opened) ↦
              let fresh : conn ≡ i =
                opened_fresh conn i _ opened
                  (create_connection-IsFresh pool_config i (answers i)) in
              let idle = idle_at pool_config answers now conn i in
              let before : Numbered (suc i) (temp ++ (idle ∷ [])) =
                next-Owned (idle_has x temp) (idle_has x (temp ++ (idle ∷ []))) i v
                  (omega (arith, idle_has-append x temp idle, ap (λ c. is c x) fresh)) in
              let after =
                create_initial-Numbered n (suc i) (temp ++ (idle ∷ [])) l before
                  (rw (opened, create_initial) at e) in
              (after.0, λ h. after.1 (omega arith))
        ]

  module _ (config : DbConfig) (pool_config : DbPoolConfig) (answers : ℕ → ℕ → Attempt)
      (now : ℕ → ℕ) where
    init_with-Numbered :
        (res : CreateConnectionResult ⊎ List IdleConnection)
        → ((l : List IdleConnection) → res ≡ inr l → Numbered pool_config.min_connections l)
        → Numbered pool_config.min_connections
            (init_with answers now res (db_pool config pool_config)).1.idle_connections
    unfolding db_pool
    init_with-Numbered (inl failed) h = (omega arith, λ g. refl)
    init_with-Numbered (inr l) h =
        rw (adopt-idle_connections l (db_pool config pool_config)) (h l refl)

    numbered :
        (l : List IdleConnection)
        → create_initial pool_config answers now pool_config.min_connections 0 [] ≡ inr l
        → Numbered pool_config.min_connections l
    numbered l h =
        let v =
          create_initial-Numbered pool_config answers now pool_config.min_connections 0 [] l
            (omega arith, λ g. refl) h in
        (v.0, λ g. v.1 (omega arith))

    init-Numbered :
        Numbered pool_config.min_connections
          (init answers now (db_pool config pool_config)).1.idle_connections
    unfolding init db_pool
    init-Numbered = elim (Option-cases (config_error config pool_config)) [
      | inr (message, e) ↦ rw (e, init) (omega arith, λ g. refl)
      | inl e ↦
          rw (e, init)
            (init_with-Numbered
              (create_initial pool_config answers now pool_config.min_connections 0 []) numbered)
    ]

    started-Owned : Owned (started config pool_config answers now)
    unfolding started
    started-Owned = let v = init-Numbered in (omega (arith, v.0), λ h. omega (arith, v.1 h))

    -- Over any history of a pool, each connection is with one owner at most, the pool or one call of
    -- `borrow`: two callers never use one connection, and none that a caller has is lent out.
    pub run-owners :
        (events : List Event) → owners (run (started config pool_config answers now) events) ≤ 1
    run-owners events = (run-Owned _ events started-Owned).0
