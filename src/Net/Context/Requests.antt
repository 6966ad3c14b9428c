-- ===== src/Net/Context/Requests.antt =====
-- The request queue of a connection (src/ConnectionContext.cc, the methods under
-- `request_mutex_`): one request at a time, in the order of arrival, none while a delivery mark is
-- outstanding.
use linux_server.Base.{
  ℕ, ◌+◌, ◌≡◌, refl, Bool, true, false, List, [], ◌∷◌, ◌++◌, append_assoc, append-nil, Option, none,
  some, arith, Bytes, length, ◌⊎◌, pos, if◌then◌else◌, int_beq_iff, length-append,
}
use linux_server.Net.Context.{
  ConnectionContext, start_request_or_queue, finish_request_and_pop_next, pop_next_request_if_idle,
  increment_pending_delivery_marks, decrement_pending_delivery_marks, is_fenced,
  should_defer_timeout,
}

-- The calls that the server makes while a connection lives.
pub data Call : Type 0 where
  arrives : Bytes → Call
  finishes resumes fences unfences : Call

abbrev pub started_if : Bool → Bytes → Option Bytes
started_if true request = some request
started_if false request = none

-- The context after a call, and the request that the call hands to a worker.
unfoldable pub step : ConnectionContext → Call → ConnectionContext × Option Bytes
step c (arrives request) =
    let (c', now) = start_request_or_queue c request in (c', started_if now request)
step c finishes = finish_request_and_pop_next c
step c resumes = pop_next_request_if_idle c
step c fences = (increment_pending_delivery_marks c, none)
step c unfences = (decrement_pending_delivery_marks c, none)

abbrev pub to_list {ℓ} : {A : Type ℓ} → Option A → List A
to_list none = []
to_list (some a) = a ∷ []

unfoldable pub run : ConnectionContext → List Call → ConnectionContext × List Bytes
run c [] = (c, [])
run c (call ∷ calls) =
    let (c', now) = step c call in let (c'', later) = run c' calls in (c'', to_list now ++ later)

abbrev pub arrivals : List Call → List Bytes
arrivals [] = []
arrivals (arrives request ∷ calls) = request ∷ arrivals calls
arrivals (finishes ∷ calls) = arrivals calls
arrivals (resumes ∷ calls) = arrivals calls
arrivals (fences ∷ calls) = arrivals calls
arrivals (unfences ∷ calls) = arrivals calls

abbrev pub finish_count : List Call → ℕ
finish_count [] = 0
finish_count (arrives request ∷ calls) = finish_count calls
finish_count (finishes ∷ calls) = finish_count calls + 1
finish_count (resumes ∷ calls) = finish_count calls
finish_count (fences ∷ calls) = finish_count calls
finish_count (unfences ∷ calls) = finish_count calls

abbrev arrival : Call → List Bytes
arrival call = arrivals (call ∷ [])

-- One call starts the front of what waits, or nothing.
step-fifo :
    (c : ConnectionContext) (call : Call)
    → to_list (step c call).1 ++ (step c call).0.pending_requests
      ≡ c.pending_requests ++ arrival call
unfolding step start_request_or_queue finish_request_and_pop_next pop_next_request_if_idle
    increment_pending_delivery_marks decrement_pending_delivery_marks
step-fifo c (arrives request) = ground (arith, append-nil c.pending_requests)
step-fifo c finishes = ground (arith, append-nil c.pending_requests)
step-fifo c resumes = ground (arith, append-nil c.pending_requests)
step-fifo c fences = ground (arith, append-nil c.pending_requests)
step-fifo c unfences = ground (arith, append-nil c.pending_requests)

arrivals-cons :
    (call : Call) (calls : List Call) → arrivals (call ∷ calls) ≡ arrival call ++ arrivals calls
arrivals-cons (arrives request) calls = refl
arrivals-cons finishes calls = refl
arrivals-cons _ calls = refl

-- Over any history of calls, what was handed to workers followed by what still waits is what
-- waited at first followed by what arrived, in that order: no request is lost, doubled or
-- overtaken.
pub run-fifo :
    (c : ConnectionContext) (calls : List Call)
    → (run c calls).1 ++ (run c calls).0.pending_requests ≡ c.pending_requests ++ arrivals calls
unfolding run
run-fifo c [] = ground (arith, append-nil c.pending_requests)
run-fifo c (call ∷ calls) =
    let (c', now) = step c call in
    let (c'', later) = run c' calls in
    rw
      (
        append_assoc (to_list now) later c''.pending_requests,
        run-fifo c' calls,
        arrivals-cons call calls,
      )
      (ground (
        arith,
        step-fifo c call,
        append_assoc (to_list now) c'.pending_requests (arrivals calls),
        append_assoc c.pending_requests (arrival call) (arrivals calls),
      ))

-- A worker reports the end of a request only while one is in flight.
abbrev pub Allowed : ConnectionContext → Call → Type 0
Allowed c (arrives request) = Unit
Allowed c finishes = c.request_in_flight ≡ true
Allowed c resumes = Unit
Allowed c fences = Unit
Allowed c unfences = Unit

abbrev pub AllAllowed : ConnectionContext → List Call → Type 0
AllAllowed c [] = Unit
AllAllowed c (call ∷ calls) = Allowed c call × AllAllowed (step c call).0 calls

abbrev pub in_flight : ConnectionContext → ℕ
in_flight c = if c.request_in_flight then 1 else 0

step-in_flight :
    (c : ConnectionContext) (call : Call)
    → Allowed c call
    → in_flight c + length (to_list (step c call).1)
      ≡ in_flight (step c call).0 + finish_count (call ∷ [])
unfolding step start_request_or_queue finish_request_and_pop_next pop_next_request_if_idle
    increment_pending_delivery_marks decrement_pending_delivery_marks
step-in_flight c (arrives request) h = ground arith
step-in_flight c finishes h = ground arith
step-in_flight c resumes h = ground arith
step-in_flight c fences h = ground arith
step-in_flight c unfences h = ground arith

finish_count-cons :
    (call : Call) (calls : List Call)
    → finish_count (call ∷ calls) ≡ finish_count (call ∷ []) + finish_count calls
finish_count-cons (arrives request) calls = omega arith
finish_count-cons finishes calls = omega arith
finish_count-cons _ calls = omega arith

-- If every end of a request is reported while one is in flight, then at each point of a history
-- the requests started exceed those ended by one exactly when one is in flight, and by none
-- otherwise: requests of one connection never run side by side.
pub run-exclusive :
    (c : ConnectionContext) (calls : List Call)
    → AllAllowed c calls
    → in_flight c + length (run c calls).1 ≡ in_flight (run c calls).0 + finish_count calls
unfolding run
run-exclusive c [] h = refl
run-exclusive c (call ∷ calls) h =
    let (c', now) = step c call in
    let (c'', later) = run c' calls in
    omega (
      arith,
      step-in_flight c call h.0,
      run-exclusive c' calls h.1,
      length-append (to_list now) later,
      finish_count-cons call calls,
    )

-- No call hands out a request while a delivery mark is outstanding, whichever call it is.
pub step-fenced :
    (c : ConnectionContext) (call : Call) → is_fenced c ≡ true → (step c call).1 ≡ none
unfolding step start_request_or_queue finish_request_and_pop_next pop_next_request_if_idle
    increment_pending_delivery_marks decrement_pending_delivery_marks
step-fenced c (arrives request) h = ground (arith, int_beq_iff c.pending_delivery_marks (pos 0))
step-fenced c finishes h = ground arith
step-fenced c resumes h = ground arith
step-fenced c fences h = ground arith
step-fenced c unfences h = ground arith

-- Once no mark is outstanding, a report of the end and a resumption both leave a request in flight
-- or nothing waiting.
pub step-progress :
    (c : ConnectionContext)
    → is_fenced c ≡ false
    → (((step c finishes).0.request_in_flight ≡ true) ⊎ ((step c finishes).0.pending_requests ≡ []))
      × (((step c resumes).0.request_in_flight ≡ true) ⊎ ((step c resumes).0.pending_requests ≡ []))
unfolding step finish_request_and_pop_next pop_next_request_if_idle
step-progress c h = ground arith

-- The timeout scan may close a connection exactly when nothing is in flight, nothing waits, no
-- mark is outstanding and nothing is left to send.
pub should_defer_timeout_iff :
    (c : ConnectionContext)
    → ((should_defer_timeout c ≡ false)
        → (c.request_in_flight ≡ false)
          × (c.pending_requests ≡ [])
          × (is_fenced c ≡ false)
          × (c.pending_send ≡ []))
      × ((c.request_in_flight ≡ false)
            × (c.pending_requests ≡ [])
            × (is_fenced c ≡ false)
            × (c.pending_send ≡ [])
          → should_defer_timeout c ≡ false)
unfolding should_defer_timeout
should_defer_timeout_iff c = (λ h. ground arith, λ h. ground arith)
