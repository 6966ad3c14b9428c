-- ===== src/Session/Store/Tests.antt =====
-- The session store (src/server/redis_session_store.cc) at concrete inputs.
use linux_server.Base.{
  ℕ, Option, Bytes, ap, inl, ◌≢◌, ◌≡◌, refl, true, [], ◌∷◌, none, some, codes, pos, arith, lookup,
  to_string, nat_to_string, decimal,
}
use linux_server.Session.Manager.{ConnectionSession}
use linux_server.Validation.Validator
use linux_server.Validation.Validator.{all_xdigits}
use linux_server.Service.Fixtures.{config}
use linux_server.Session.Store.{
  Hashes, hget, user_presence_key, is_valid_session, store_bind, store_clear_presence,
  store_get_token, store_get_presence,
}
use linux_server.Session.Store.Laws.{store_get_token-store_bind}
use linux_server.Session.Store.Presence.{store_get_presence-store_clear_presence}

abbrev ann : ConnectionSession
ann = record {
  authenticated = true;
  user_id = pos 7;
  username = codes "ann";
  token = codes "0123456789abcdef0123456789abcdef0123456789abcdef0123456789abcdef";
}

ann_is_valid : is_valid_session ann ≡ true
unfolding is_valid_session Validator.token all_xdigits
ann_is_valid = refl

store_get_token-store_bind_example :
    (store_get_token config true ann.token (store_bind config true 12 ann (pos 1700000000) []).1).0
    ≡ some (record { user_id = pos 7; username = codes "ann"; issued_at = pos 1700000000 })
store_get_token-store_bind_example =
    store_get_token-store_bind config 12 ann (pos 1700000000) [] refl ann_is_valid refl
      (ground arith) (ground arith)

-- The presence names connection 12 of another server, and connection 12 of this one ends.
abbrev newer : Hashes
newer =
    (
      codes "chat:presence:user:7",
      (codes "server_id", codes "s2")
          ∷ (codes "connection_id", codes "12")
          ∷ (codes "token", ann.token)
          ∷ [],
    )
    ∷ []

-- The second byte.
abbrev second : Option Bytes → ℕ
second none = 0
second (some []) = 0
second (some (c ∷ [])) = 0
second (some (c ∷ d ∷ ds)) = d

names_another :
    hget (user_presence_key config (pos 7)) (codes "server_id") newer ≢ some config.server_id
unfolding hget user_presence_key lookup to_string nat_to_string decimal
names_another e = ground (arith, ap second e)

store_get_presence-store_clear_presence_example :
    (store_get_presence config true (pos 7) (store_clear_presence config true 12 ann newer).1).0
    ≡ (store_get_presence config true (pos 7) newer).0
store_get_presence-store_clear_presence_example =
    store_get_presence-store_clear_presence config 12 ann newer (inl names_another)
