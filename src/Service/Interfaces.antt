-- ===== src/Service/Interfaces.antt =====
-- What the services ask of the layers below: `IUserRepository` and the other abstract classes of
-- include/db, include/cache, include/server and include/stream. The state behind them is `W`.
use linux_server.Base.{ℕ, ℤ, Bool, List, Option, Bytes}
use linux_server.Model.Status.{RepositoryStatus}
use linux_server.Model.Records.{
  MessageRecord, FriendshipRecord, FriendshipListItem, GroupRecord, GroupMemberRecord, UserRecord,
  StoredSessionToken, StoredUserPresence, RemotePushEvent,
}
use linux_server.Session.Manager.{ConnectionSession}

pub record FindUserResult : Type 0 where
  pub status : RepositoryStatus
  pub user : Option UserRecord

pub record CreateUserResult : Type 0 where
  pub status : RepositoryStatus
  pub user_id : ℤ

pub record UserRepository (W : Type 0) : Type 0 where
  pub find_by_username : Bytes → W → FindUserResult × W
  pub find_by_id : ℤ → W → FindUserResult × W
  pub create_user : Bytes → Bytes → Bytes → W → CreateUserResult × W
  pub update_password_hash : ℤ → Bytes → W → RepositoryStatus × W

pub record CreateMessageResult : Type 0 where
  pub status : RepositoryStatus
  pub message_id : Bytes
  pub message : Option MessageRecord
  pub created : Bool

pub record FindMessageResult : Type 0 where
  pub status : RepositoryStatus
  pub message : Option MessageRecord

pub record ListOfflineMessagesResult : Type 0 where
  pub status : RepositoryStatus
  pub messages : List MessageRecord
  pub has_more : Bool

pub record MarkResult : Type 0 where
  pub status : RepositoryStatus
  pub affected_rows : ℤ

pub record MessageRepository (W : Type 0) : Type 0 where
  pub create_message : MessageRecord → W → CreateMessageResult × W
  pub find_message_by_client_msg_id : ℤ → Bytes → W → FindMessageResult × W
  pub list_offline_messages : ℤ → ℤ → Bytes → W → ListOfflineMessagesResult × W
  pub mark_delivered : ℤ → List Bytes → W → MarkResult × W
  pub mark_read : ℤ → List Bytes → W → MarkResult × W

pub record FindFriendshipResult : Type 0 where
  pub status : RepositoryStatus
  pub friendship : Option FriendshipRecord

pub record CreateFriendshipResult : Type 0 where
  pub status : RepositoryStatus
  pub friendship : Option FriendshipRecord
  pub created : Bool

pub record UpdateFriendshipResult : Type 0 where
  pub status : RepositoryStatus
  pub friendship : Option FriendshipRecord

pub record DeleteFriendshipResult : Type 0 where
  pub status : RepositoryStatus
  pub affected_rows : ℤ

pub record ListFriendshipsResult : Type 0 where
  pub status : RepositoryStatus
  pub friends : List FriendshipListItem

pub record FriendRepository (W : Type 0) : Type 0 where
  pub find_friendship : ℤ → ℤ → W → FindFriendshipResult × W
  pub create_friend_request : ℤ → ℤ → W → CreateFriendshipResult × W
  pub accept_friend_request : ℤ → ℤ → W → UpdateFriendshipResult × W
  pub delete_friendship : ℤ → ℤ → W → DeleteFriendshipResult × W
  pub list_friendships : ℤ → W → ListFriendshipsResult × W

pub record GroupRepositoryCreateResult : Type 0 where
  pub status : RepositoryStatus
  pub group : Option GroupRecord
  pub created : Bool

pub record GroupRepositoryFindResult : Type 0 where
  pub status : RepositoryStatus
  pub group : Option GroupRecord

pub record GroupRepositoryAddMemberResult : Type 0 where
  pub status : RepositoryStatus
  pub member : Option GroupMemberRecord
  pub created : Bool

pub record GroupRepositoryListMembersResult : Type 0 where
  pub status : RepositoryStatus
  pub members : List GroupMemberRecord

pub record GroupRepository (W : Type 0) : Type 0 where
  pub create_group : GroupRecord → List GroupMemberRecord → W → GroupRepositoryCreateResult × W
  pub find_group : Bytes → W → GroupRepositoryFindResult × W
  pub add_member : GroupMemberRecord → W → GroupRepositoryAddMemberResult × W
  pub list_members : Bytes → W → GroupRepositoryListMembersResult × W

pub record RateLimitResult : Type 0 where
  pub allowed : Bool
  pub retry_after_seconds : ℕ

pub record RateLimiter (W : Type 0) : Type 0 where
  pub allow : Bytes → Bytes → ℕ → ℕ → W → RateLimitResult × W

pub record MessageDedupCache (W : Type 0) : Type 0 where
  pub lookup : ℤ → Bytes → W → Option Bytes × W
  pub save : ℤ → Bytes → Bytes → W → W
  pub remove : ℤ → Bytes → W → W

pub record GlobalSessionStore (W : Type 0) : Type 0 where
  pub bind : ℕ → ConnectionSession → ℤ → W → Bool × W
  pub refresh : ℕ → ConnectionSession → W → Bool × W
  pub clear_presence : ℕ → ConnectionSession → W → Bool × W
  pub revoke_session : ℕ → ConnectionSession → W → Bool × W
  pub get_token : Bytes → W → Option StoredSessionToken × W
  pub get_presence : ℤ → W → Option StoredUserPresence × W

pub record RemotePushPublisher (W : Type 0) : Type 0 where
  pub publish : Bytes → RemotePushEvent → W → Bool × W

pub record PasswordHasher (W : Type 0) : Type 0 where
  pub hash : Bytes → W → Option Bytes × W
  pub verify : Bytes → Bytes → Bool
  pub needs_rehash : Bytes → Bool
