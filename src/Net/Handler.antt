-- ===== src/Net/Handler.antt =====
-- `IMessageHandler` (include/net/IMessageHandler.h): what the network layer knows of the business
-- logic. The state behind the handler is `H`.
use linux_server.Base.{ℕ, ℤ, Bool, List, Option, Bytes}
use linux_server.Session.Manager.{ConnectionSession}

pub data SessionAction : Type 0 where
  none bind unbind : SessionAction

pub record RequestContext : Type 0 where
  pub conn_id : ℕ
  pub peer_ip : Bytes

pub record OutboundMessage : Type 0 where
  pub target_conn_id : ℕ
  pub target_user_id : ℤ
  pub payload : Bytes
  pub message_id : Bytes

pub record HandleResult : Type 0 where
  pub response : Bytes
  pub pushes : List OutboundMessage
  pub session_action : SessionAction
  pub pending_session : ConnectionSession
  pub delivered_message_ids : List Bytes
  pub delivered_user_id : ℤ

-- `handle` runs on a worker and may throw, which is `none` of `Option`; the server catches and
-- ignores what `on_connection_closed` and `on_messages_delivered` throw.
pub record IMessageHandler (H : Type 0) : Type 0 where
  pub handle : Bytes → RequestContext → H → Option HandleResult × H
  pub on_connection_closed : ℕ → H → H
  pub apply_bind_session : ℕ → ConnectionSession → H → H
  pub apply_unbind_session : ℕ → H → H
  pub is_connection_bound_to_user : ℕ → ℤ → H → Bool
  pub on_messages_delivered : ℤ → List Bytes → H → H
