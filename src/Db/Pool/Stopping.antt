-- ===== src/Db/Pool/Stopping.antt =====
-- What `stop` does to the calls of `borrow` that are under way
-- (src/db/db_pool.cc).
use linux_server.Base.{
  ℕ, zero, suc, ◌≡◌, refl, Bool, true, ◌||◌, List, [], ◌∷◌, some, Bool-cases, inl, inr,
}
use linux_server.Db.Pool.{
  DbPool, IdleConnection, BorrowCall, entering, checking, connecting, waiting, holding, refused,
  returned, stop_refusal, CreateConnectionResult,
}
use linux_server.Db.Pool.Borrowing.{
  ready, end_wait, change_stats, is_expired, release_slot, enter, check_idle, finish_connecting,
  wake,
}
use linux_server.Db.Pool.Running.{Answer, proceed, Run, get_elem?, set, move, step, runs}

-- The call is inside `borrow`.
abbrev pub Borrowing : BorrowCall → Type 0
Borrowing (entering unhealthy) = Unit
Borrowing (checking idle unhealthy) = Unit
Borrowing (connecting unhealthy) = Unit
Borrowing (waiting unhealthy) = Unit
Borrowing (holding conn create_time reusable) = ⊥
Borrowing (refused error code message) = ⊥
Borrowing returned = ⊥

module _ (p : DbPool) (started : p.initialized ≡ true) (stopped : p.stopping ≡ true) where
  enter-stop : (unhealthy : Bool) → (enter unhealthy p).1 ≡ stop_refusal
  unfolding enter
  enter-stop unhealthy = simp (started, stopped) refl

  end_wait-stop : (unhealthy success : Bool) → (end_wait unhealthy success p).1 ≡ stop_refusal
  unfolding end_wait
  end_wait-stop unhealthy success = simp stopped refl

  finish_connecting-stop :
      (unhealthy : Bool) (res : CreateConnectionResult) (now : ℕ)
      → (finish_connecting unhealthy res now p).1 ≡ stop_refusal
  unfolding finish_connecting
  finish_connecting-stop unhealthy res now = simp stopped refl

module _ (p : DbPool) (started : p.initialized ≡ true) (stopped : p.stopping ≡ true) where
  check_idle-stop :
      (idle : IdleConnection) (unhealthy : Bool) (now : ℕ) (healthy : Bool)
      → (check_idle idle unhealthy now healthy p).1 ≡ stop_refusal
  unfolding check_idle change_stats release_slot
  check_idle-stop idle unhealthy now healthy = elim (Bool-cases (is_expired p idle now)) [
    | inl e ↦ simp e (enter-stop _ started stopped unhealthy)
    | inr e ↦ simp (e, stopped) refl
  ]

  wake-stop : (unhealthy timed_out : Bool) → (wake unhealthy timed_out p).1 ≡ stop_refusal
  unfolding wake change_stats
  wake-stop unhealthy timed_out =
      let over : (ready p || timed_out) ≡ true = simp stopped refl in
      simp over (end_wait-stop _ started stopped unhealthy (ready p))

  proceed-stop :
      (a : Answer) (fresh : ℕ) (c : BorrowCall)
      → Borrowing c
      → (proceed a fresh c p).1 ≡ stop_refusal
  unfolding proceed
  proceed-stop a fresh (entering unhealthy) b = enter-stop p started stopped unhealthy
  proceed-stop a fresh (checking idle unhealthy) b = check_idle-stop idle unhealthy a.now a.healthy
  proceed-stop a fresh (connecting unhealthy) b =
      finish_connecting-stop p started stopped unhealthy _ a.now
  proceed-stop a fresh (waiting unhealthy) b = wake-stop unhealthy a.wait_over
  proceed-stop a fresh (holding conn create_time reusable) b = elim b [ ]
  proceed-stop a fresh (refused error code message) b = elim b [ ]
  proceed-stop a fresh returned b = elim b [ ]

set_get :
    (l : List BorrowCall) (i : ℕ) (c d : BorrowCall)
    → get_elem? l i ≡ some c
    → get_elem? (set l i d) i ≡ some d
unfolding get_elem? set
set_get [] i c d e = absurd (cc e)
set_get (b ∷ rest) zero c d e = refl
set_get (b ∷ rest) (suc i) c d e = set_get rest i c d e

-- In a pool that was started and is stopped, the next step of a thread that is inside `borrow` ends
-- its call, wherever it stands and whatever the clock, the ping, the wait and the attempts to
-- connect answer: it is refused since the pool is stopping. So no thread waits on, and none gets a
-- connection.
pub step-stop_refusal :
    (r : Run) (i : ℕ) (a : Answer) (c : BorrowCall)
    → r.pool.initialized ≡ true
    → r.pool.stopping ≡ true
    → get_elem? r.calls i ≡ some c
    → Borrowing c
    → get_elem? (step r (runs i a)).calls i ≡ some stop_refusal
unfolding step move
step-stop_refusal r i a c started stopped e b =
    let ended = proceed-stop r.pool started stopped a r.next_connection c b in
    rw (e, move) (rw ended (set_get r.calls i c stop_refusal e))
