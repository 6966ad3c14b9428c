-- ===== src/Session/Manager/Refinement.antt =====
-- `SessionManager` (src/server/session_manager.cc) against its contract: a function from
-- connections to sessions.
use linux_server.Base.{
  ℕ, ℤ, Bool, true, false, not, ◌||◌, ◌&&◌, ◌≡◌, ◌≢◌, refl, List, [], ◌∷◌, ◌++◌, Option, none, some,
  arith, last?, lookup, lookup-insert, lookup-erase, ◌==◌, int_eq, nat_eq, int_beq_iff, nat_beq_iff,
  if◌then◌else◌, inl, inr, Bool-cases, Map, sym, ◌∙◌,
}
use linux_server.Session.Manager.{
  ConnectionSession, SessionManager, empty, contains, remove, or_empty, detach, attach, can_bind,
  bind_session, get_connection_ids, get_connection_id, get_session, clear_session, clear_found,
}

-- Who is bound where.
abbrev pub Sessions : Type 0
Sessions = ℕ → Option ConnectionSession

abbrev pub update : Sessions → ℕ → Option ConnectionSession → Sessions
update spec k v j = if k == j then v else spec j

abbrev pub is_of : Option ConnectionSession → ℤ → Bool
is_of none u = false
is_of (some s) u = s.user_id == u

abbrev pub distinct : List ℕ → Bool
distinct [] = true
distinct (x ∷ xs) = not (contains x xs) && distinct xs

abbrev ids : Map ℤ (List ℕ) → ℤ → List ℕ
ids users u = or_empty (lookup u users)

pub record Refines (m : SessionManager) (spec : Sessions) : Type 0 where
  pub sessions : (k : ℕ) → get_session m k ≡ spec k
  pub connections : (u : ℤ) (k : ℕ) → contains k (get_connection_ids m u) ≡ is_of (spec k) u
  pub unrepeated : (u : ℤ) → distinct (get_connection_ids m u) ≡ true
  pub occupied : (u : ℤ) → lookup u m.user_to_connections ≢ some []

contains-remove :
    (a b : ℕ) (xs : List ℕ) → contains b (remove a xs) ≡ (not (a == b) && contains b xs)
unfolding contains remove
contains-remove a b [] = ground arith
contains-remove a b (x ∷ xs) = ground (arith, contains-remove a b xs)

distinct-remove : (a : ℕ) (xs : List ℕ) → distinct xs ≡ true → distinct (remove a xs) ≡ true
unfolding remove
distinct-remove a [] h = refl
distinct-remove a (x ∷ xs) h = ground (arith, distinct-remove a xs, contains-remove a x xs)

contains-snoc : (a b : ℕ) (xs : List ℕ) → contains b (xs ++ a ∷ []) ≡ (contains b xs || a == b)
unfolding contains
contains-snoc a b [] = ground arith
contains-snoc a b (x ∷ xs) = ground (arith, contains-snoc a b xs)

distinct-snoc :
    (a : ℕ) (xs : List ℕ)
    → distinct xs ≡ true
    → contains a xs ≡ false
    → distinct (xs ++ a ∷ []) ≡ true
unfolding contains
distinct-snoc a [] h n = refl
distinct-snoc a (x ∷ xs) h n = ground (arith, distinct-snoc a xs, contains-snoc a x xs)

-- What `detach` and `attach` make of the list of each user.
ids-detach :
    (k : ℕ) (s : ConnectionSession) (users : Map ℤ (List ℕ)) (u : ℤ)
    → ids (detach k (some s) users) u
      ≡ (if s.user_id == u then remove k (ids users u) else ids users u)
unfolding detach
ids-detach k s users u = ground (
  arith,
  lookup-erase s.user_id u users,
  lookup-insert s.user_id u (remove k (ids users s.user_id)) users,
  int_beq_iff s.user_id u,
)

ids-attach :
    (k : ℕ) (v : ℤ) (users : Map ℤ (List ℕ)) (u : ℤ)
    → ids (attach k v users) u ≡ (
        if v == u
        then (if contains k (ids users u) then ids users u else ids users u ++ k ∷ [])
        else ids users u)
unfolding attach
ids-attach k v users u = ground (
  arith,
  lookup-insert v u (if contains k (ids users v) then ids users v else ids users v ++ k ∷ []) users,
  int_beq_iff v u,
)

detach-occupied :
    (k : ℕ) (s : ConnectionSession) (users : Map ℤ (List ℕ)) (u : ℤ)
    → lookup u users ≢ some []
    → lookup u (detach k (some s) users) ≢ some []
unfolding detach
detach-occupied k s users u h e = ground (
  arith,
  lookup-erase s.user_id u users,
  lookup-insert s.user_id u (remove k (ids users s.user_id)) users,
)

attach-occupied :
    (k : ℕ) (v : ℤ) (users : Map ℤ (List ℕ)) (u : ℤ)
    → lookup u users ≢ some []
    → lookup u (attach k v users) ≢ some []
unfolding attach contains
attach-occupied k v users u h e = ground (
  arith,
  lookup-insert v u (if contains k (ids users v) then ids users v else ids users v ++ k ∷ []) users,
)

-- The lists of a manager in which `k` is bound to nobody.
record Detached (k : ℕ) (spec : Sessions) (users : Map ℤ (List ℕ)) : Type 0 where
  others : (u : ℤ) (j : ℕ) → contains j (ids users u) ≡ (if k == j then false else is_of (spec j) u)
  unrepeated : (u : ℤ) → distinct (ids users u) ≡ true
  occupied : (u : ℤ) → lookup u users ≢ some []

module _ (m : SessionManager) (spec : Sessions) (r : Refines m spec) (k : ℕ) where
  detach-Detached :
      (o : Option ConnectionSession)
      → spec k ≡ o
      → Detached k spec (detach k o m.user_to_connections)
  unfolding get_connection_ids detach
  detach-Detached none e = record {
    others = λ u j. ground (arith, r.connections u j, nat_beq_iff k j);
    unrepeated = r.unrepeated;
    occupied = r.occupied;
  }
  detach-Detached (some s) e = record {
    others = λ u j. ground (
      arith,
      r.connections u j,
      nat_beq_iff k j,
      ids-detach k s m.user_to_connections u,
      contains-remove k j (ids m.user_to_connections u),
    );
    unrepeated = λ u. ground (
      arith,
      r.unrepeated u,
      ids-detach k s m.user_to_connections u,
      distinct-remove k (ids m.user_to_connections u),
    );
    occupied = λ u. detach-occupied k s m.user_to_connections u (r.occupied u);
  }

  -- A refused session changes nothing; any other replaces what the connection was bound to.
  pub bind_session-Refines :
      (s : ConnectionSession)
      → Refines (bind_session m k s).0 (if can_bind s then update spec k (some s) else spec)
  unfolding bind_session get_session get_connection_ids
  bind_session-Refines s = elim (Bool-cases (can_bind s)) [
    | inr e ↦ rw e r
    | inl e ↦ rw e (
        let d = detach-Detached (lookup k m.connection_to_session) (sym (r.sessions k)) in
        let users = detach k (lookup k m.connection_to_session) m.user_to_connections in
        record {
          sessions = λ j. ground (arith, lookup-insert k j s m.connection_to_session, r.sessions j);
          connections = λ u j. ground (
            arith,
            d.others u j,
            ids-attach k s.user_id users u,
            contains-snoc k j (ids users u),
            nat_beq_iff k j,
          );
          unrepeated = λ u. ground (
            arith,
            d.unrepeated u,
            ids-attach k s.user_id users u,
            distinct-snoc k (ids users u),
          );
          occupied = λ u. attach-occupied k s.user_id users u (d.occupied u);
        })
  ]

  clear_found-Refines :
      (o : Option ConnectionSession)
      → get_session m k ≡ o
      → Refines (clear_found m k o) (update spec k none)
  unfolding clear_found get_session get_connection_ids
  clear_found-Refines none e = record {
    sessions = λ j. ground (arith, r.sessions k, r.sessions j, nat_beq_iff k j);
    connections = λ u j. ground (arith, r.sessions k, r.connections u j, nat_beq_iff k j);
    unrepeated = r.unrepeated;
    occupied = r.occupied;
  }
  clear_found-Refines (some s) e =
      let d = detach-Detached (some s) (sym (r.sessions k) ∙ e) in
      let users = detach k (some s) m.user_to_connections in
      record {
        sessions = λ j. ground (arith, lookup-erase k j m.connection_to_session, r.sessions j);
        connections = λ u j. ground (arith, d.others u j, nat_beq_iff k j);
        unrepeated = d.unrepeated;
        occupied = d.occupied;
      }

  -- After it the connection is bound to nobody, and the others are as they were.
  pub clear_session-Refines : Refines (clear_session m k) (update spec k none)
  unfolding clear_session get_session
  clear_session-Refines = clear_found-Refines (lookup k m.connection_to_session) refl

-- The calls on a manager.
pub data Call : Type 0 where
  binds : ℕ → ConnectionSession → Call
  clears : ℕ → Call

unfoldable pub step : SessionManager → Call → SessionManager
step m (binds k s) = (bind_session m k s).0
step m (clears k) = clear_session m k

unfoldable pub run : SessionManager → List Call → SessionManager
run m [] = m
run m (call ∷ calls) = run (step m call) calls

-- The same calls on the contract.
abbrev pub spec_step : Sessions → Call → Sessions
spec_step spec (binds k s) = if can_bind s then update spec k (some s) else spec
spec_step spec (clears k) = update spec k none

abbrev pub spec_run : Sessions → List Call → Sessions
spec_run spec [] = spec
spec_run spec (call ∷ calls) = spec_run (spec_step spec call) calls

step-Refines :
    (m : SessionManager) (spec : Sessions) (call : Call)
    → Refines m spec
    → Refines (step m call) (spec_step spec call)
unfolding step
step-Refines m spec (binds k s) r = bind_session-Refines m spec r k s
step-Refines m spec (clears k) r = clear_session-Refines m spec r k

run_from :
    (m : SessionManager) (spec : Sessions) (calls : List Call)
    → Refines m spec
    → Refines (run m calls) (spec_run spec calls)
unfolding run
run_from m spec [] r = r
run_from m spec (call ∷ calls) r =
    run_from (step m call) (spec_step spec call) calls (step-Refines m spec call r)

-- After any history of bindings and clearings the two maps agree with the one function from
-- connections to sessions that the history makes: a connection has that session, it is in the list
-- of a user exactly when its session is of that user, no list names a connection twice and no
-- user has an empty list.
pub run-Refines : (calls : List Call) → Refines (run empty calls) (spec_run (λ k. none) calls)
unfolding get_session get_connection_ids
run-Refines calls =
    run_from empty (λ k. none) calls
      (record {
        sessions = λ k. unfold lookup in refl;
        connections = λ u k. unfold lookup contains in refl;
        unrepeated = λ u. unfold lookup in refl;
        occupied = λ u e. unfold lookup in cc;
      })

last-snoc : (xs : List ℕ) (x : ℕ) → last? (xs ++ x ∷ []) ≡ some x
last-snoc [] x = refl
last-snoc (a ∷ []) x = refl
last-snoc (a ∷ b ∷ xs) x = last-snoc (b ∷ xs) x

-- A connection that is newly bound to a user, with a session that can be bound, is the one that
-- the user is then reached by, whatever else the user has.
pub get_connection_id-bind_session :
    (m : SessionManager) (k : ℕ) (s : ConnectionSession) (spec : Sessions)
    → Refines m spec
    → can_bind s ≡ true
    → is_of (spec k) s.user_id ≡ false
    → get_connection_id (bind_session m k s).0 s.user_id ≡ some k
unfolding get_connection_id bind_session get_connection_ids
get_connection_id-bind_session m k s spec r valid fresh_for =
    let users = detach k (lookup k m.connection_to_session) m.user_to_connections in
    let d = detach-Detached m spec r k (lookup k m.connection_to_session) (sym (session_of r)) in
    ground (
      arith,
      ids-attach k s.user_id users s.user_id,
      int_beq_iff s.user_id s.user_id,
      nat_beq_iff k k,
      d.others s.user_id k,
      last-snoc (ids users s.user_id) k,
    )
  where
    session_of : Refines m spec → lookup k m.connection_to_session ≡ spec k
    session_of q = unfold get_session in q.sessions k
