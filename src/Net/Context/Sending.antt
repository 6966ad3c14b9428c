-- ===== src/Net/Context/Sending.antt =====
-- The send buffer of a connection (src/ConnectionContext.cc, `appendPendingSend`,
-- `peekPendingSend`, `consumePendingSend`).
use linux_server.Base.{
  ℕ, ◌≡◌, List, [], ◌∷◌, ◌++◌, append_assoc, append-nil, arith, Bytes, take, drop, take-append-drop,
  drop_all, Option, some, none,
}
use linux_server.Net.Context.{
  ConnectionContext, append_pending_send, consume_pending_send, peek_pending_send,
}

-- `wrote n`: the socket took the first n bytes of what `peek_pending_send` showed.
pub data Event : Type 0 where
  queued : Bytes → Event
  wrote : ℕ → Event

abbrev shown : Option Bytes → Bytes
shown none = []
shown (some text) = text

-- The context, and the bytes that went out.
unfoldable pub step : ConnectionContext → Event → ConnectionContext × Bytes
step c (queued text) = (append_pending_send c text, [])
step c (wrote n) = (consume_pending_send c n, take n (shown (peek_pending_send c)))

unfoldable pub run : ConnectionContext → List Event → ConnectionContext × Bytes
run c [] = (c, [])
run c (event ∷ events) =
    let (c', out) = step c event in let (c'', later) = run c' events in (c'', out ++ later)

abbrev pub queued_bytes : List Event → Bytes
queued_bytes [] = []
queued_bytes (queued text ∷ events) = text ++ queued_bytes events
queued_bytes (wrote n ∷ events) = queued_bytes events

consume_lem :
    (c : ConnectionContext) (n : ℕ)
    → (consume_pending_send c n).pending_send ≡ drop n c.pending_send
unfolding consume_pending_send
consume_lem c n = ground (arith, drop_all n c.pending_send)

peek_lem : (c : ConnectionContext) → shown (peek_pending_send c) ≡ c.pending_send
unfolding peek_pending_send
peek_lem c = ground arith

-- Whatever is queued and however much the socket takes at each turn, the bytes that went out
-- followed by those that are left are the bytes that were there followed by those that were queued.
pub run-in_order :
    (c : ConnectionContext) (events : List Event)
    → (run c events).1 ++ (run c events).0.pending_send ≡ c.pending_send ++ queued_bytes events
unfolding run step append_pending_send
run-in_order c [] = ground (arith, append-nil c.pending_send)
run-in_order c (queued text ∷ events) =
    rw (run-in_order (append_pending_send c text) events)
      (append_assoc c.pending_send text (queued_bytes events))
run-in_order c (wrote n ∷ events) =
    let c' = consume_pending_send c n in
    ground (
      arith,
      run-in_order c' events,
      append_assoc (take n (shown (peek_pending_send c))) (run c' events).1
          (run c' events).0.pending_send,
      append_assoc (take n c.pending_send) (drop n c.pending_send) (queued_bytes events),
      peek_lem c,
      consume_lem c n,
      take-append-drop n c.pending_send,
    )
