-- ===== src/Db/Pool/Totals.antt =====
-- The count of connections over any history of the pool (src/db/db_pool.cc).
use linux_server.Base.{
  ℕ, zero, suc, ◌+◌, ◌-◌, ◌^◌, ◌≤◌, ◌<◌, ◌≡◌, refl, ap, subst, true, false, List, [], ◌∷◌, ◌++◌,
  none, Option-cases, inl, inr, ◌⊎◌, arith, length, length-append,
}
use mathlib.Core.Sum.{inr-injective}
use linux_server.Model.Settings.{DbConfig, DbPoolConfig}
use linux_server.Db.Pool.{
  DbPool, IdleConnection, BorrowCall, CreateConnectionResult, entering, checking, connecting,
  waiting, holding, refused, returned, db_pool,
}
use linux_server.Db.Pool.Connecting.{Attempt, create_connection}
use linux_server.Db.Pool.Running.{
  Run, Event, called, runs, marks_bad, releases, stops, Answer, proceed, mark_bad, release,
  get_elem?, set, move, step, run, started, init, init_with, idle_at, adopt, create_initial,
  config_error,
}
use linux_server.Db.Pool.Calls.{sum, sum-append, sum-set, w-le-sum}
use linux_server.Db.Pool.Counting.{
  increment-lt, Accounts, Kept, with_slots, enter-Kept, check_idle-Kept, finish_connecting-Kept,
  wake-Kept, return_connection-Accounts, stop-Accounts,
}

-- The slots that a call takes.
abbrev pub slots : BorrowCall → ℕ
slots c = with_slots c 0

with_slots-slots : (c : BorrowCall) (n : ℕ) → with_slots c n ≡ slots c + n
with_slots-slots (entering unhealthy) n = omega arith
with_slots-slots (checking idle unhealthy) n = omega arith
with_slots-slots (connecting unhealthy) n = omega arith
with_slots-slots (waiting unhealthy) n = omega arith
with_slots-slots (holding conn create_time reusable) n = omega arith
with_slots-slots (refused error code message) n = omega arith
with_slots-slots returned n = omega arith

module _ (limit : ℕ) where
  -- A piece of a call that keeps the accounts, whatever the other calls hold.
  abbrev Keeps : (BorrowCall → DbPool → DbPool × BorrowCall) → Type 0
  Keeps f =
      (k : ℕ) (c : BorrowCall) (p : DbPool)
      → Accounts limit (with_slots c k) p
      → Kept limit k (f c p)

  proceed-Keeps : (a : Answer) (fresh : ℕ) → Keeps (proceed a fresh)
  unfolding proceed
  proceed-Keeps a fresh k (entering unhealthy) p v = enter-Kept limit k unhealthy p v
  proceed-Keeps a fresh k (checking idle unhealthy) p v =
      check_idle-Kept limit k idle unhealthy a.now a.healthy p v
  proceed-Keeps a fresh k (connecting unhealthy) p v =
      finish_connecting-Kept limit k unhealthy _ a.now p v
  proceed-Keeps a fresh k (waiting unhealthy) p v = wake-Kept limit k unhealthy a.wait_over p v
  proceed-Keeps a fresh k (holding conn create_time reusable) p v = v
  proceed-Keeps a fresh k (refused error code message) p v = v
  proceed-Keeps a fresh k returned p v = v

  mark_bad-Keeps : Keeps mark_bad
  unfolding mark_bad
  mark_bad-Keeps k (entering unhealthy) p v = v
  mark_bad-Keeps k (checking idle unhealthy) p v = v
  mark_bad-Keeps k (connecting unhealthy) p v = v
  mark_bad-Keeps k (waiting unhealthy) p v = v
  mark_bad-Keeps k (holding conn create_time reusable) p v = v
  mark_bad-Keeps k (refused error code message) p v = v
  mark_bad-Keeps k returned p v = v

  release-Keeps : (a : Answer) → Keeps (release a)
  unfolding release
  release-Keeps a k (entering unhealthy) p v = v
  release-Keeps a k (checking idle unhealthy) p v = v
  release-Keeps a k (connecting unhealthy) p v = v
  release-Keeps a k (waiting unhealthy) p v = v
  release-Keeps a k (holding conn create_time reusable) p v =
      return_connection-Accounts limit k conn create_time reusable a.healthy a.now p v
  release-Keeps a k (refused error code message) p v = v
  release-Keeps a k returned p v = v

  abbrev Accounted : Run → Type 0
  Accounted r = Accounts limit (sum slots r.calls) r.pool

  move-Accounted :
      (f : BorrowCall → DbPool → DbPool × BorrowCall)
      → Keeps f
      → (i : ℕ) (r : Run) → Accounted r
      → Accounted (move f i r)
  unfolding move
  move-Accounted f keeps i r v = elim (Option-cases (get_elem? r.calls i)) [
    | inl e ↦ rw (e, move) v
    | inr (c, e) ↦
        let k = sum slots r.calls - slots c in
        let before : sum slots r.calls ≡ with_slots c k =
          omega (arith, with_slots-slots c k, w-le-sum slots r.calls i c e) in
        let d = (f c r.pool).1 in
        let after : with_slots d k ≡ sum slots (set r.calls i d) = omega (
          arith,
          with_slots-slots d k,
          w-le-sum slots r.calls i c e,
          sum-set slots r.calls i c d e,
        ) in
        let kept = keeps k c r.pool (subst (λ n. Accounts limit n r.pool) before v) in
        rw (e, move) (subst (λ n. Accounts limit n (f c r.pool).0) after kept)
  ]

  step-Accounted : (r : Run) (event : Event) → Accounted r → Accounted (step r event)
  unfolding step
  step-Accounted r called v =
      subst (λ n. Accounts limit n r.pool)
        (omega (arith, sum-append slots r.calls (entering false))) v
  step-Accounted r (runs i a) v =
      move-Accounted (proceed a r.next_connection) (proceed-Keeps a r.next_connection) i r v
  step-Accounted r (marks_bad i) v = move-Accounted mark_bad mark_bad-Keeps i r v
  step-Accounted r (releases i a) v = move-Accounted (release a) (release-Keeps a) i r v
  step-Accounted r stops v = stop-Accounts limit _ r.pool v

  run-Accounted : (r : Run) (events : List Event) → Accounted r → Accounted (run r events)
  unfolding run
  run-Accounted r [] v = v
  run-Accounted r (event ∷ events) v =
      run-Accounted (step r event) events (step-Accounted r event v)

  adopt-Accounts :
      (l : List IdleConnection) (p : DbPool)
      → p.stopping ≡ false
      → p.total_connections + length l ≤ limit
      → Accounts limit 0 p
      → Accounts limit 0 (adopt l p)
  unfolding adopt
  adopt-Accounts [] p going room v = v
  adopt-Accounts (idle ∷ rest) p going room v =
      let next = increment-lt p.total_connections (omega (arith, v.small)) in
      adopt-Accounts rest _ going (omega (arith, next)) record {
        limit_is = v.limit_is;
        small = v.small;
        counted = omega (arith, v.counted, next, length-append p.idle_connections (idle ∷ []));
        bounded = omega (arith, next);
        drained = λ h. absurd (cc);
      }

create_initial-length :
    (pool_config : DbPoolConfig) (answers : ℕ → ℕ → Attempt) (now : ℕ → ℕ) (n i : ℕ)
    (temp l : List IdleConnection)
    → create_initial pool_config answers now n i temp ≡ inr l
    → length l ≡ length temp + n
unfolding create_initial
create_initial-length pool_config answers now zero i temp l e =
    let q : temp ≡ l = inr-injective temp l e in omega (arith, ap length q)
create_initial-length pool_config answers now (suc n) i temp l e =
    elim (Option-cases (create_connection pool_config i (answers i)).0.connection) [
      | inl none_opened ↦ absurd (cc (rw (none_opened, create_initial) at e))
      | inr (conn, opened) ↦
          let ih =
            create_initial-length pool_config answers now n (suc i)
              (temp ++ (idle_at pool_config answers now conn i ∷ [])) l
              (rw (opened, create_initial) at e) in
          omega (arith, ih, length-append temp (idle_at pool_config answers now conn i ∷ []))
    ]

config_error-none :
    (config : DbConfig) (pool_config : DbPoolConfig)
    → config_error config pool_config ≡ none
    → pool_config.min_connections ≤ pool_config.max_connections
unfolding config_error
config_error-none config pool_config e = ground arith

module _ (config : DbConfig) (pool_config : DbPoolConfig) (answers : ℕ → ℕ → Attempt) (now : ℕ → ℕ)
    (small : pool_config.max_connections < 2 ^ 64) where
  db_pool-Accounts : Accounts pool_config.max_connections 0 (db_pool config pool_config)
  unfolding db_pool
  db_pool-Accounts = record {
    limit_is = refl;
    small = small;
    counted = omega arith;
    bounded = omega arith;
    drained = λ h. refl;
  }

  init_with-Accounts :
      (res : CreateConnectionResult ⊎ List IdleConnection)
      → ((l : List IdleConnection) → res ≡ inr l → length l ≤ pool_config.max_connections)
      → Accounts pool_config.max_connections 0
          (init_with answers now res (db_pool config pool_config)).1
  unfolding db_pool
  init_with-Accounts (inl failed) room = db_pool-Accounts
  init_with-Accounts (inr l) room =
      let v =
        adopt-Accounts pool_config.max_connections l (db_pool config pool_config) refl
          (omega (arith, room l refl)) db_pool-Accounts in
      record {
        limit_is = v.limit_is;
        small = v.small;
        counted = v.counted;
        bounded = v.bounded;
        drained = v.drained;
      }

  init-Accounts :
      Accounts pool_config.max_connections 0 (init answers now (db_pool config pool_config)).1
  unfolding init db_pool
  init-Accounts = elim (Option-cases (config_error config pool_config)) [
    | inr (message, e) ↦ rw (e, init) db_pool-Accounts
    | inl e ↦
        rw (e, init)
          (init_with-Accounts _ (λ l h. omega (
            arith,
            config_error-none config pool_config e,
            create_initial-length pool_config answers now pool_config.min_connections 0 [] l h,
          )))
  ]

  -- After any history of a pool whose configured limit is a `size_t`, the number of connections that the pool
  -- counts is that of the idle ones and of the calls that look at one, open one or hold one; it is
  -- within the limit, whatever the threads do side by side; and once the pool is stopped, it is
  -- that of the calls alone, as no idle connection is left or comes back.
  pub run-total :
      (events : List Event)
      → ((run (started config pool_config answers now) events).pool.total_connections
          ≡ length (run (started config pool_config answers now) events).pool.idle_connections
            + sum slots (run (started config pool_config answers now) events).calls)
        × ((run (started config pool_config answers now) events).pool.total_connections
            ≤ pool_config.max_connections)
        × ((run (started config pool_config answers now) events).pool.stopping ≡ true
            → (run (started config pool_config answers now) events).pool.total_connections
              ≡ sum slots (run (started config pool_config answers now) events).calls)
  unfolding started
  run-total events =
      let v =
        run-Accounted pool_config.max_connections (started config pool_config answers now) events
          init-Accounts in
      (v.counted, v.bounded, λ h. omega (arith, v.counted, ap length (v.drained h)))
