-- ===== src/Service/Fixtures.antt =====
-- A small world for the tests of the services: three users, of whom two are connected, and stores
-- that keep what they are given.
use linux_server.Base.{
  true, false, ◌&&◌, List, [], ◌∷◌, none, some, Bytes, codes, ℤ, pos, ◌==◌, int_eq, list_eq, nat_eq,
  if◌then◌else◌, length,
}
use linux_server.Model.Status.{status_ok, not_found}
use linux_server.Model.Records.{
  MessageRecord, UserRecord, FriendshipRecord, FriendshipStatus, GroupRecord, GroupMemberRecord,
  RedisConfig,
}
use linux_server.Session.Manager.{ConnectionSession, SessionManager}
use linux_server.Service.Interfaces.{
  UserRepository, MessageRepository, FriendRepository, GroupRepository, FindMessageResult,
  FindFriendshipResult, FindUserResult, PasswordHasher,
}

abbrev pub ann : ConnectionSession
ann = record { authenticated = true; user_id = pos 7; username = codes "ann"; token = codes "t" }

abbrev pub bob : ConnectionSession
bob = record { authenticated = true; user_id = pos 8; username = codes "bob"; token = codes "u" }

abbrev pub sessions : SessionManager
sessions = record {
  user_to_connections = (pos 7, 1 ∷ 4 ∷ []) ∷ (pos 8, 2 ∷ 3 ∷ []) ∷ [];
  connection_to_session = (1, ann) ∷ (2, bob) ∷ (3, bob) ∷ (4, ann) ∷ [];
}

abbrev pub config : RedisConfig
config = record {
  key_prefix = codes "chat";
  server_id = codes "s1";
  session_ttl_seconds = 86400;
  presence_ttl_seconds = 120;
  enabled = true;
  host = codes "127.0.0.1";
  port = 6379;
  password = [];
  database = pos 0;
  pool_size = 4;
  connect_timeout_ms = 500;
  command_timeout_ms = 500;
  user_cache_ttl_seconds = 300;
  user_not_found_ttl_seconds = 30;
  message_dedup_ttl_seconds = 86400;
  login_rate_limit = 10;
  login_rate_window_seconds = 60;
  register_rate_limit = 5;
  register_rate_window_seconds = 60;
  send_rate_limit = 20;
  send_rate_window_seconds = 1;
}

-- The messages and the number of friendships and members that were stored.
pub record World : Type 0 where
  pub messages : List MessageRecord
  pub friendships : List FriendshipRecord

abbrev pub nothing : World
nothing = record { messages = []; friendships = [] }

abbrev pub user_named : ℤ → Bytes → UserRecord
user_named id name = record {
  id = id;
  username = name;
  password_hash = codes "hash";
  nickname = name;
  status = pos 1;
  created_at = [];
  updated_at = [];
}

abbrev pub user_found : ℤ → Bytes → FindUserResult
user_found id name = record { status = status_ok; user = some (user_named id name) }

abbrev pub nobody_found : FindUserResult
nobody_found = record { status = not_found; user = none }

abbrev pub user_repository : UserRepository World
user_repository = record {
  find_by_username =
      λ name w. (if name == codes "ann" then user_found (pos 7) name else nobody_found, w);
  find_by_id = λ id w. (if id == pos 99 then nobody_found else user_found id (codes "someone"), w);
  create_user = λ name hash nickname w. (record { status = status_ok; user_id = pos 9 }, w);
  update_password_hash = λ id hash w. (status_ok, w);
}

abbrev with_client_id : ℤ → Bytes → List MessageRecord → FindMessageResult
with_client_id from client [] = record { status = not_found; message = none }
with_client_id from client (m ∷ ms) =
    if m.from_user_id == from && m.client_msg_id == client
    then record { status = status_ok; message = some m }
    else with_client_id from client ms

abbrev pub message_repository : MessageRepository World
message_repository = record {
  create_message = λ m w. (
    record { status = status_ok; message_id = m.id; message = some m; created = true },
    record w { messages = m ∷ w.messages },
  );
  find_message_by_client_msg_id = λ from client w. (with_client_id from client w.messages, w);
  list_offline_messages = λ user limit since w.
      (record { status = status_ok; messages = w.messages; has_more = false }, w);
  mark_delivered =
      λ user ids w. (record { status = status_ok; affected_rows = pos (length ids) }, w);
  mark_read = λ user ids w. (record { status = status_ok; affected_rows = pos (length ids) }, w);
}

abbrev pub friendship : ℤ → ℤ → FriendshipStatus → FriendshipRecord
friendship requester addressee status = record {
  id = pos 1;
  requester_id = requester;
  addressee_id = addressee;
  status = status;
  created_at = [];
  updated_at = [];
}

abbrev first_friendship : List FriendshipRecord → FindFriendshipResult
first_friendship [] = record { status = not_found; friendship = none }
first_friendship (f ∷ fs) = record { status = status_ok; friendship = some f }

abbrev pub friend_repository : FriendRepository World
friend_repository = record {
  find_friendship = λ a b w. (first_friendship w.friendships, w);
  create_friend_request = λ a b w. (
    record {
      status = status_ok;
      friendship = some (friendship a b FriendshipStatus.pending);
      created = true;
    },
    record w { friendships = friendship a b FriendshipStatus.pending ∷ w.friendships },
  );
  accept_friend_request = λ a b w. (
    record { status = status_ok; friendship = some (friendship a b FriendshipStatus.accepted) },
    w,
  );
  delete_friendship = λ a b w. (record { status = status_ok; affected_rows = pos 1 }, w);
  list_friendships = λ a w. (record { status = status_ok; friends = [] }, w);
}

abbrev pub member : ℤ → Bytes → GroupMemberRecord
member id role = record { group_id = codes "grp_1"; user_id = id; role = role; joined_at = [] }

abbrev pub group : GroupRecord
group = record {
  id = codes "grp_1";
  name = codes "friends";
  owner_id = pos 7;
  conversation_id = codes "gconv_grp_1";
  created_at = [];
  updated_at = [];
}

abbrev pub members : List GroupMemberRecord
members =
    member (pos 7) (codes "owner")
    ∷ member (pos 8) (codes "member")
    ∷ member (pos 5) (codes "member")
    ∷ []

abbrev pub group_repository : GroupRepository World
group_repository = record {
  create_group = λ g ms w. (record { status = status_ok; group = some g; created = true }, w);
  find_group = λ id w. (record { status = status_ok; group = some group }, w);
  add_member = λ m w. (record { status = status_ok; member = some m; created = true }, w);
  list_members = λ id w. (record { status = status_ok; members = members }, w);
}

abbrev pub password_hasher : PasswordHasher World
password_hasher = record {
  hash = λ password w. (some (codes "hash"), w);
  verify = λ password hash. password == codes "secret";
  needs_rehash = λ hash. false;
}
