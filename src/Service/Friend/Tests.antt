-- ===== src/Service/Friend/Tests.antt =====
-- The friend service (src/service/friend_service.cc) in the small world.
use linux_server.Base.{◌≡◌, refl, [], ◌∷◌, none, some, true, false, codes, pos}
use linux_server.Model.Records.{FriendshipStatus}
use linux_server.Session.Manager.{get_session}
use linux_server.Service.Exec.{answered, ◌>>=◌}
use linux_server.Service.Common.{get_authenticated_session, require_session}
use linux_server.Service.Fixtures.{
  World, nothing, sessions, user_repository, friend_repository, friendship,
}
use linux_server.Service.Friend
use linux_server.Service.Friend.{FriendService, FriendshipActionResult, add_friend, accept_friend}
use linux_server.Service.Friend.Laws.{
  AddEffect, AcceptEffect, add_friend_sound, accept_friend_sound,
}

abbrev service : FriendService World
service = record { friend_repository = friend_repository; user_repository = user_repository }

abbrev asked : World
asked = record nothing { friendships = friendship (pos 7) (pos 8) FriendshipStatus.pending ∷ [] }

abbrev sent : FriendshipActionResult
sent = record {
  friendship = some (friendship (pos 7) (pos 8) FriendshipStatus.pending);
  friend_user_id = pos 8;
  deleted = false;
}

abbrev agreed : FriendshipActionResult
agreed = record {
  friendship = some (friendship (pos 7) (pos 8) FriendshipStatus.accepted);
  friend_user_id = pos 7;
  deleted = false;
}

ann_asks : add_friend service sessions 1 (pos 8) nothing ≡ (answered sent, asked)
unfolding add_friend ◌>>=◌ require_session get_authenticated_session get_session
    Friend.validate_user_exists Friend.require_no_friendship Friend.accept_created
    linux_server.Base.lookup
ann_asks = refl

add_friend_sound_example :
    AddEffect service sessions 1 (pos 8) nothing (add_friend service sessions 1 (pos 8) nothing)
add_friend_sound_example = add_friend_sound service sessions 1 (pos 8) nothing

bob_agrees : accept_friend service sessions 2 (pos 7) asked ≡ (answered agreed, asked)
unfolding accept_friend ◌>>=◌ require_session get_authenticated_session get_session
    Friend.validate_user_exists Friend.require_request Friend.accept_updated
    linux_server.Base.lookup
bob_agrees = refl

accept_friend_sound_example :
    AcceptEffect service sessions 2 (pos 7) asked (accept_friend service sessions 2 (pos 7) asked)
accept_friend_sound_example = accept_friend_sound service sessions 2 (pos 7) asked
