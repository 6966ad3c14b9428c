-- ===== src/Stream/Push/Acking.antt =====
-- When `ProcessPushEntry` (src/stream/redis_push_stream.cc) takes an entry off the stream.
use linux_server.Base.{
  Bool, true, false, not, ◌≡◌, ◌≢◌, ◌⊎◌, ap, sym, ◌∙◌, arith, refl, List, [], ◌∷◌, ◌++◌, Option,
  none, some, Bytes, codes, ◌==◌, list_eq, nat_eq, Bool-cases, inl, inr, if◌then◌else◌,
}
use linux_server.Model.Records.{RemotePushEvent, RemoteDeliveryOutcome}
use linux_server.Stream.Redis.{is_missing}
use linux_server.Stream.Push.{
  RedisPushStream, push_stream_key, dead_letter_stream_key, delivery_dedup_key, dead_letter_command,
  acquire_command, release_command, ack_command, push_group, ack, move_to_dead_letter,
  finish_delivery, process_event, process_valid, process_decoded, process_push_entry,
}
use linux_server.Stream.Events.{decode_push_event}
use linux_server.Stream.Replies.{StreamEntry}

-- A Redis client that also keeps the commands it was given.
abbrev pub Logged : Type 0 → Type 0
Logged W = W × List (List Bytes)

abbrev lift : {W A : Type 0} → (W → A × W) → Logged W → A × Logged W
lift f (w, log) = let (a, w1) = f w in (a, (w1, log))

abbrev lift_callback :
    {W A B : Type 0} → Option (A → W → B × W) → Option (A → Logged W → B × Logged W)
lift_callback none = none
lift_callback (some f) = some (λ a. lift (f a))

abbrev pub logged : {W : Type 0} → RedisPushStream W → RedisPushStream (Logged W)
logged s = record {
  redis = record {
    command =
        λ args p. ((s.redis.command args p.0).0, ((s.redis.command args p.0).1, p.1 ++ args ∷ []));
  };
  config = s.config;
  delivery_callback = lift_callback s.delivery_callback;
  mark_delivered_callback = elim s.mark_delivered_callback [
    | none ↦ none
    | some mark ↦ some (λ u m. lift (mark u m))
  ];
}

abbrev is_ack : List Bytes → Bool
is_ack [] = false
is_ack (name ∷ rest) = name == codes "XACK"

-- The acknowledgements among the commands.
abbrev pub acks : List (List Bytes) → List (List Bytes)
acks [] = []
acks (args ∷ rest) = if is_ack args then args ∷ acks rest else acks rest

abbrev is_retry : RemoteDeliveryOutcome → Bool
is_retry RemoteDeliveryOutcome.retry = true
is_retry _ = false

true-ne-false : true ≢ false
true-ne-false e = cc e

no_retry : (o : RemoteDeliveryOutcome) → not (is_retry o) ≡ true → o ≢ RemoteDeliveryOutcome.retry
no_retry o h e = ground (arith, ap is_retry e)

retry_false :
    (o : RemoteDeliveryOutcome) → o ≢ RemoteDeliveryOutcome.retry → not (is_retry o) ≡ true
retry_false RemoteDeliveryOutcome.retry h = absurd (h refl)
retry_false RemoteDeliveryOutcome.delivered_to_client h = refl
retry_false RemoteDeliveryOutcome.invalid_target h = refl

module _ {W : Type 0} (s : RedisPushStream W) where
  abbrev event_settled :
      Option (RemotePushEvent → W → RemoteDeliveryOutcome × W) → RemotePushEvent → W → Bool
  event_settled none event w = false
  event_settled (some deliver) event w =
      let (acquired, w1) = s.redis.command (acquire_command s event.message_id) w in
      if acquired.success then not (is_retry (deliver event w1).0) else is_missing acquired.error

  abbrev decoded_settled : StreamEntry → Option RemotePushEvent → W → Bool
  decoded_settled entry none w =
      (s.redis.command
        (dead_letter_command s (push_stream_key s s.config.server_id) entry.stream_id
          (codes "invalid push event"))
        w).0.success
  decoded_settled entry (some event) w = event_settled s.delivery_callback event w

  abbrev settled : StreamEntry → W → Bool
  settled entry w = decoded_settled entry (decode_push_event entry.fields) w

  -- The acknowledgement of one entry: to this server's stream and the group of its consumers.
  abbrev pub ack_of : StreamEntry → List Bytes
  ack_of entry =
      codes "XACK" ∷ push_stream_key s s.config.server_id ∷ push_group ∷ entry.stream_id ∷ []

  finished :
      (entry : StreamEntry) (event : RemotePushEvent) (o : RemoteDeliveryOutcome) (w : W)
      → acks
          (finish_delivery
            (logged s)
            entry
            event
            o
            (w, acquire_command s event.message_id ∷ [])).1.1
        ≡ (if not (is_retry o) then ack_of entry ∷ [] else [])
  unfolding finish_delivery ack ack_command release_command acquire_command push_stream_key
  finished entry event RemoteDeliveryOutcome.retry w = refl
  finished entry event RemoteDeliveryOutcome.delivered_to_client w = refl
  finished entry event RemoteDeliveryOutcome.invalid_target w = refl

  valid_acked :
      (callback : Option (RemotePushEvent → W → RemoteDeliveryOutcome × W)) (entry : StreamEntry)
      (event : RemotePushEvent) (w : W)
      → acks (process_valid (logged s) (lift_callback callback) entry event (w, [])).1.1
        ≡ (if event_settled callback event w then ack_of entry ∷ [] else [])
  unfolding process_event ack ack_command acquire_command delivery_dedup_key push_stream_key
  valid_acked none entry event w = refl
  valid_acked (some deliver) entry event w =
      let (acquired, w1) = s.redis.command (acquire_command s event.message_id) w in
      elim (Bool-cases acquired.success) [
        | inl f ↦ rw f (finished entry event (deliver event w1).0 (deliver event w1).1)
        | inr f ↦ elim (Bool-cases (is_missing acquired.error)) [
          | inl g ↦ rw (f, g) refl
          | inr g ↦ rw (f, g) refl
        ]
      ]

  decoded_acked :
      (entry : StreamEntry) (decoded : Option RemotePushEvent) (w : W)
      → acks (process_decoded (logged s) entry decoded (w, [])).1.1
        ≡ (if decoded_settled entry decoded w then ack_of entry ∷ [] else [])
  unfolding ack move_to_dead_letter ack_command dead_letter_command push_stream_key
      dead_letter_stream_key
  decoded_acked entry none w =
      let command =
        dead_letter_command s (push_stream_key s s.config.server_id) entry.stream_id
          (codes "invalid push event") in
      elim (Bool-cases (s.redis.command command w).0.success) [
        | inl f ↦ rw f refl
        | inr f ↦ rw f refl
      ]
  decoded_acked entry (some event) w = valid_acked s.delivery_callback entry event w

  acks-settled :
      (entry : StreamEntry) (w : W)
      → acks (process_push_entry (logged s) entry (w, [])).1.1
        ≡ (if settled entry w then ack_of entry ∷ [] else [])
  unfolding process_push_entry
  acks-settled entry w = decoded_acked entry (decode_push_event entry.fields) w

  -- Nothing is left to do for an entry: it is no event and its dead letter is stored; or Redis has
  -- its message as delivered already; or the callback was asked, for a message that was not, and
  -- did not want another try.
  pub data Settled (entry : StreamEntry) (w : W) : Type 0 where
    dead_lettered :
        decode_push_event entry.fields ≡ none
        → (s.redis.command
            (dead_letter_command s
              (push_stream_key s s.config.server_id)
              entry.stream_id
              (codes "invalid push event"))
            w).0.success
          ≡ true
        → Settled entry w
    delivered_before :
        (event : RemotePushEvent) (deliver : RemotePushEvent → W → RemoteDeliveryOutcome × W)
        → decode_push_event entry.fields ≡ some event
        → s.delivery_callback ≡ some deliver
        → (s.redis.command (acquire_command s event.message_id) w).0.success ≡ false
        → is_missing (s.redis.command (acquire_command s event.message_id) w).0.error ≡ true
        → Settled entry w
    delivered :
        (event : RemotePushEvent) (deliver : RemotePushEvent → W → RemoteDeliveryOutcome × W)
        → decode_push_event entry.fields ≡ some event
        → s.delivery_callback ≡ some deliver
        → (s.redis.command (acquire_command s event.message_id) w).0.success ≡ true
        → (deliver event (s.redis.command (acquire_command s event.message_id) w).1).0
          ≢ RemoteDeliveryOutcome.retry
        → Settled entry w

  event_settled-Settled :
      (entry : StreamEntry) (event : RemotePushEvent)
      (callback : Option (RemotePushEvent → W → RemoteDeliveryOutcome × W)) (w : W)
      → decode_push_event entry.fields ≡ some event
      → s.delivery_callback ≡ callback
      → event_settled callback event w ≡ true
      → Settled entry w
  event_settled-Settled entry event none w e f h = absurd (cc h)
  event_settled-Settled entry event (some deliver) w e f h =
      elim (Bool-cases (s.redis.command (acquire_command s event.message_id) w).0.success) [
        | inl g ↦ delivered event deliver e f g (no_retry _ (ground arith))
        | inr g ↦ delivered_before event deliver e f g (ground arith)
      ]

  settled-Settled : (entry : StreamEntry) (w : W) → settled entry w ≡ true → Settled entry w
  settled-Settled entry w h = go (decode_push_event entry.fields) refl h
    where
      go :
          (o : Option RemotePushEvent)
          → decode_push_event entry.fields ≡ o
          → decoded_settled entry o w ≡ true
          → Settled entry w
      go none e h = dead_lettered e h
      go (some event) e h = event_settled-Settled entry event s.delivery_callback w e refl h

  Settled-settled : (entry : StreamEntry) (w : W) → Settled entry w → settled entry w ≡ true
  unfolding acquire_command delivery_dedup_key
  Settled-settled entry w (dead_lettered e h) = rw e h
  Settled-settled entry w (delivered_before event deliver e f g h) = rw (e, f, g) h
  Settled-settled entry w (delivered event deliver e f g h) = rw (e, f, g) (retry_false _ h)

  -- ProcessPushEntry acknowledges an entry at most once, with the XACK of this entry to this
  -- server's stream and group, and does so exactly if the entry is settled: one whose delivery has
  -- to be tried again, or whose dead letter was not stored, stays pending.
  pub acks-process_push_entry :
      (entry : StreamEntry) (w : W)
      → (Settled entry w
          × (acks (process_push_entry (logged s) entry (w, [])).1.1 ≡ ack_of entry ∷ []))
        ⊎ ((¬ Settled entry w) × (acks (process_push_entry (logged s) entry (w, [])).1.1 ≡ []))
  acks-process_push_entry entry w = elim (Bool-cases (settled entry w)) [
    | inl e ↦ inl (
      settled-Settled entry w e,
      acks-settled entry w ∙ ap (λ b. if b then ack_of entry ∷ [] else []) e,
    )
    | inr e ↦ inr (
      λ h. true-ne-false (sym (Settled-settled entry w h) ∙ e),
      acks-settled entry w ∙ ap (λ b. if b then ack_of entry ∷ [] else []) e,
    )
  ]
