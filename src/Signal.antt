-- ===== src/Signal.antt =====
-- signal.go, message.go and listener.go: the signals that nodes send one another.
-- A node's id, a UUID and a node type are numbers.
use graphvent.Prelude.{ℕ, String, List, Option, none, some}

abbrev pub NodeId : Type 0
NodeId = ℕ

abbrev pub Uuid : Type 0
Uuid = ℕ

-- What a read field holds: a value, which is only passed on and which any number stands for, or
-- the error that takes its place.
pub data FieldValue : Type 0 where
  value : ℕ → FieldValue
  failure : String → FieldValue

-- A signal's first argument is the Id of its header, a response's second argument its ReqID.
pub data Signal : Type 0 where
  timeout : Uuid → Uuid → Signal
  success : Uuid → Uuid → Signal
  error : Uuid → Uuid → String → Signal
  acl_timeout : Uuid → Uuid → Signal
  status : Uuid → NodeId → List String → Signal
  link : Uuid → NodeId → String → Signal
  lock : Uuid → Signal
  unlock : Uuid → Signal
  read : Uuid → List String → Signal
  read_result : Uuid → Uuid → NodeId → ℕ → List (String × FieldValue) → Signal
  loaded : Uuid → Signal
  unloaded : Uuid → Signal

-- `Signal.ID`
unfoldable pub signal_id : Signal → Uuid
signal_id (timeout id req) = id
signal_id (success id req) = id
signal_id (error id req text) = id
signal_id (acl_timeout id req) = id
signal_id (status id source fields) = id
signal_id (link id node action) = id
signal_id (lock id) = id
signal_id (unlock id) = id
signal_id (read id fields) = id
signal_id (read_result id req node type fields) = id
signal_id (loaded id) = id
signal_id (unloaded id) = id

-- `ResponseID` of the signals that are a ResponseSignal, those with a ResponseHeader.
unfoldable pub response_id : Signal → Option Uuid
response_id (timeout id req) = some req
response_id (success id req) = some req
response_id (error id req text) = some req
response_id (acl_timeout id req) = some req
response_id (read_result id req node type fields) = some req
response_id _ = none

-- A message's `node` is the receiver where it is sent and the sender where it is received.
pub record Message : Type 0 where
  pub node : NodeId
  pub signal : Signal
