-- ===== src/Net/Server/Balance.antt =====
-- What is under way for one connection, and how the methods of its context
-- (src/ConnectionContext.cc) keep the account: requests with a worker or on their way back, delivery
-- marks at work, and ends of marks that have not been handled.
use linux_server.Base.{
  ℕ, suc, ◌+◌, ◌<◌, ◌≤◌, ◌≡◌, ◌≢◌, sym, ◌∙◌, Bool, true, false, Option, none, some, Bytes, arith,
  pos, is_empty, int_beq_iff, if◌then◌else◌,
}
use linux_server.Net.Context.{
  ConnectionContext, new, TcpConnection, start_request_or_queue, finish_request_and_pop_next,
  pop_next_request_if_idle, clear_pending_requests, increment_pending_delivery_marks,
  decrement_pending_delivery_marks,
}
use linux_server.Net.Context.Requests.{in_flight}

pub record Balanced (running : Bool) (tokens marks resumes : ℕ) (c : ConnectionContext)
    : Type 0 where
  pub counted : running ≡ true → tokens ≡ in_flight c
  pub fenced : c.pending_delivery_marks ≡ pos marks
  pub wakes :
      c.request_in_flight ≡ false → is_empty c.pending_requests ≡ false → 0 < marks + resumes

-- A change of what the account does not read.
abbrev pub Same : ConnectionContext → ConnectionContext → Type 0
Same c d =
    (d.request_in_flight ≡ c.request_in_flight)
    × (d.pending_requests ≡ c.pending_requests)
    × (d.pending_delivery_marks ≡ c.pending_delivery_marks)
    × (d.connection.conn_fd ≡ c.connection.conn_fd)

-- One token more if a request is handed out.
abbrev pub after_step : Option Bytes → ℕ → ℕ
after_step none t = t
after_step (some request) t = suc t

module _ (running : Bool) (t m r : ℕ) where
  pub Same-Balanced :
      (c d : ConnectionContext) → Same c d → Balanced running t m r c → Balanced running t m r d
  Same-Balanced c d e b = record {
    counted = λ h. ground (arith, b.counted h);
    fenced = ground arith;
    wakes = λ h k. b.wakes (ground arith) (ground arith);
  }

  pub new-Balanced : (conn : TcpConnection) (id now : ℕ) → Balanced running 0 0 r (new conn id now)
  unfolding new
  new-Balanced conn id now = record {
    counted = λ h. omega arith;
    fenced = ground arith;
    wakes = λ h k. ground arith;
  }

  pub start-Balanced :
      (c : ConnectionContext) (request : Bytes)
      → Balanced running t m r c
      → Balanced running
          (if (start_request_or_queue c request).1 then suc t else t)
          m
          r
          (start_request_or_queue c request).0
  unfolding start_request_or_queue
  start-Balanced c request b = record {
    counted = λ h. ground (arith, b.counted h);
    fenced = ground (arith, b.fenced);
    wakes = λ h k. ground (arith, b.wakes, b.fenced, int_beq_iff c.pending_delivery_marks (pos 0));
  }

  pub finish-Balanced :
      (c : ConnectionContext) (r' : ℕ)
      → Balanced running (suc t) m r c
      → Balanced running
          (after_step (finish_request_and_pop_next c).1 t)
          m
          r'
          (finish_request_and_pop_next c).0
  unfolding finish_request_and_pop_next
  finish-Balanced c r' b = record {
    counted = λ h. ground (arith, b.counted h);
    fenced = ground (arith, b.fenced);
    wakes = λ h k. ground (arith, b.wakes, b.fenced);
  }

  pub resume-Balanced :
      (c : ConnectionContext) (r' : ℕ)
      → Balanced running t m r c
      → Balanced running
          (after_step (pop_next_request_if_idle c).1 t)
          m
          r'
          (pop_next_request_if_idle c).0
  unfolding pop_next_request_if_idle
  resume-Balanced c r' b = record {
    counted = λ h. ground (arith, b.counted h);
    fenced = ground (arith, b.fenced);
    wakes = λ h k. ground (arith, b.wakes, b.fenced);
  }

  pub clear-Balanced :
      (c : ConnectionContext)
      → Balanced running (suc t) m r c
      → Balanced running t m r (clear_pending_requests c)
  unfolding clear_pending_requests
  clear-Balanced c b = record {
    counted = λ h. ground (arith, b.counted h);
    fenced = b.fenced;
    wakes = λ h k. ground arith;
  }

  pub increment-Balanced :
      (c : ConnectionContext)
      → Balanced running t m r c
      → Balanced running t (suc m) r (increment_pending_delivery_marks c)
  unfolding increment_pending_delivery_marks
  increment-Balanced c b = record {
    counted = b.counted;
    fenced = ground (arith, b.fenced);
    wakes = λ h k. omega arith;
  }

  pub decrement-Balanced :
      (c : ConnectionContext)
      → Balanced running t (suc m) r c
      → Balanced running t m (suc r) (decrement_pending_delivery_marks c)
  unfolding decrement_pending_delivery_marks
  decrement-Balanced c b = record {
    counted = b.counted;
    fenced = ground (arith, b.fenced);
    wakes = λ h k. omega arith;
  }

pub weaken-Balanced :
    (running running' : Bool) (t t' m m' r r' : ℕ) (c : ConnectionContext)
    → running' ≡ running
    → t' ≡ t
    → m' ≡ m
    → r ≤ r'
    → Balanced running t m r c
    → Balanced running' t' m' r' c
weaken-Balanced running running' t t' m m' r r' c e f g h b = record {
  counted = λ k. ground (arith, b.counted (sym e ∙ k));
  fenced = ground (arith, b.fenced);
  wakes = λ k l. omega (arith, b.wakes k l);
}

-- The queue's methods leave the socket alone.
pub start-conn_fd :
    (c : ConnectionContext) (request : Bytes)
    → (start_request_or_queue c request).0.connection.conn_fd ≡ c.connection.conn_fd
unfolding start_request_or_queue
start-conn_fd c request = ground arith

pub finish-conn_fd :
    (c : ConnectionContext)
    → (finish_request_and_pop_next c).0.connection.conn_fd ≡ c.connection.conn_fd
unfolding finish_request_and_pop_next
finish-conn_fd c = ground arith

pub resume-conn_fd :
    (c : ConnectionContext)
    → (pop_next_request_if_idle c).0.connection.conn_fd ≡ c.connection.conn_fd
unfolding pop_next_request_if_idle
resume-conn_fd c = ground arith

pub true-ne-false : true ≢ false
true-ne-false e = cc e

-- While the server stops, tokens may be lost.
pub stopped-Balanced :
    (running running' : Bool) (t t' m m' r r' : ℕ) (c : ConnectionContext)
    → running' ≡ false
    → m' ≡ m
    → r ≤ r'
    → Balanced running t m r c
    → Balanced running' t' m' r' c
stopped-Balanced running running' t t' m m' r r' c e g h b = record {
  counted = λ k. absurd (true-ne-false (sym k ∙ e));
  fenced = ground (arith, b.fenced);
  wakes = λ k l. omega (arith, b.wakes k l);
}
