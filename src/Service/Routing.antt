-- ===== src/Service/Routing.antt =====
-- Where `sendMessage` (src/service/chat_service.cc) sends a message.
use linux_server.Base.{
  ℕ, Bool, true, false, List, [], ◌∷◌, Option, none, some, Bytes, ℤ, ◌==◌, int_eq, nat_eq, list_eq,
  if◌then◌else◌, ◌≡◌, ◌≢◌, refl, ◌⊎◌, inl, inr, arith, list_beq_iff, Bool-cases,
}
use linux_server.Model.Records.{StoredUserPresence, RedisConfig}
use linux_server.Session.Manager.{SessionManager, contains, get_connection_ids}

-- Where a message goes: connections of this process, or one of another.
pub record Route : Type 0 where
  pub local_conns : List ℕ
  pub target : Option ℕ
  pub remote_server : Bytes
  pub remote_conn : ℕ

abbrev nowhere : Route
nowhere = record { local_conns = []; target = none; remote_server = []; remote_conn = 0 }

abbrev front : List ℕ → Option ℕ
front [] = none
front (c ∷ cs) = some c

unfoldable pub route : SessionManager → RedisConfig → Bool → Option StoredUserPresence → ℤ → Route
route sessions config false presence to = nowhere
route sessions config true none to =
    let local = get_connection_ids sessions to in
    record nowhere { local_conns = local; target = front local }
route sessions config true (some p) to =
    let local = get_connection_ids sessions to in
    if p.server_id == config.server_id
    then (if contains p.connection_id local
        then record nowhere { local_conns = local; target = some p.connection_id }
        else nowhere)
    else record nowhere { remote_server = p.server_id; remote_conn = p.connection_id }

-- result.to_conn_ids.empty() ? target_conn_id.value_or(0) : result.to_conn_ids.front()
unfoldable pub first_conn : List ℕ → Option ℕ → ℕ
first_conn (c ∷ cs) target = c
first_conn [] none = 0
first_conn [] (some c) = c

unfoldable pub other_conns : ℕ → List ℕ → List ℕ
other_conns from [] = []
other_conns from (c ∷ cs) = let rest = other_conns from cs in if c == from then rest else c ∷ rest

-- Where a message has to go, by what the store of presences says of the receiver: without a
-- presence, to all connections that the receiver has here, the first of them named; with a presence
-- of this server, to all of them with the one of the presence named, if the receiver has that one
-- here, and otherwise nowhere; with a presence of another server, to that server and connection
-- alone. Nothing is routed before the push is possible.
abbrev pub Sent : Option StoredUserPresence → SessionManager → RedisConfig → ℤ → Route → Type 0
Sent none sessions config to r =
    (r.local_conns ≡ get_connection_ids sessions to)
    × (((r.local_conns ≡ []) × (r.target ≡ none))
        ⊎ ((c : ℕ) × (others : List ℕ) × (r.local_conns ≡ c ∷ others) × (r.target ≡ some c)))
    × (r.remote_server ≡ [])
Sent (some p) sessions config to r =
    ((p.server_id ≡ config.server_id)
      × (contains p.connection_id (get_connection_ids sessions to) ≡ true)
      × (r.local_conns ≡ get_connection_ids sessions to)
      × (r.target ≡ some p.connection_id)
      × (r.remote_server ≡ []))
    ⊎ (((p.server_id ≡ config.server_id)
          × (contains p.connection_id (get_connection_ids sessions to) ≡ false)
          × (r.local_conns ≡ [])
          × (r.target ≡ none)
          × (r.remote_server ≡ []))
        ⊎ ((p.server_id ≢ config.server_id)
            × (r.local_conns ≡ [])
            × (r.target ≡ none)
            × (r.remote_server ≡ p.server_id)
            × (r.remote_conn ≡ p.connection_id)))

abbrev pub IsRoute :
    SessionManager → RedisConfig → Bool → Option StoredUserPresence → ℤ → Route → Type 0
IsRoute sessions config false presence to r =
    (r.local_conns ≡ []) × (r.target ≡ none) × (r.remote_server ≡ [])
IsRoute sessions config true presence to r = Sent presence sessions config to r

front_cases :
    (cs : List ℕ)
    → ((cs ≡ []) × (front cs ≡ none))
      ⊎ ((c : ℕ) × (others : List ℕ) × (cs ≡ c ∷ others) × (front cs ≡ some c))
front_cases [] = inl (refl, refl)
front_cases (c ∷ cs) = inr (c, cs, refl, refl)

module _ (sessions : SessionManager) (config : RedisConfig) (to : ℤ) where
  -- A message is routed as the presence of the receiver says: to the connections of this process
  -- without one, to those or nowhere with one of this server, and to the server of the presence
  -- with another one; nowhere as long as no push is possible.
  pub route-IsRoute :
      (can_push : Bool) (presence : Option StoredUserPresence)
      → IsRoute sessions config can_push presence to (route sessions config can_push presence to)
  unfolding route
  route-IsRoute false presence = (refl, refl, refl)
  route-IsRoute true none = (refl, front_cases (get_connection_ids sessions to), refl)
  route-IsRoute true (some p) = elim (Bool-cases (p.server_id == config.server_id)) [
    | inr e ↦ inr (
        inr (
          ground (arith, list_beq_iff p.server_id config.server_id),
          rw e refl,
          rw e refl,
          rw e refl,
          rw e refl,
        ))
    | inl e ↦ elim (Bool-cases (contains p.connection_id (get_connection_ids sessions to))) [
      | inl f ↦ inl (
        (list_beq_iff p.server_id config.server_id).0 e,
        f,
        rw (e, f) refl,
        rw (e, f) refl,
        rw (e, f) refl,
      )
      | inr f ↦ inr (
          inl (
            (list_beq_iff p.server_id config.server_id).0 e,
            f,
            rw (e, f) refl,
            rw (e, f) refl,
            rw (e, f) refl,
          ))
    ]
  ]

-- The sender's own connection is left out of the connections that are told of the message, and no
-- other is.
pub other_conns-contains :
    (from c : ℕ) (cs : List ℕ)
    → (contains from (other_conns from cs) ≡ false)
      × (c ≢ from → contains c (other_conns from cs) ≡ contains c cs)
unfolding other_conns contains
other_conns-contains from c [] = (refl, λ _. refl)
other_conns-contains from c (d ∷ ds) =
    (ground (arith, other_conns-contains from c ds), ground (arith, other_conns-contains from c ds))
