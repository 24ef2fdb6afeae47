-- ===== src/Processing.antt =====
-- node.go and context.go: Process of a node, QueueChanges and Send.
pub mod Sending
pub mod Names
pub mod Changes
mod Tests
use graphvent.Prelude.{
  ℕ, suc, ◌+◌, Bool, true, false, List, [], ◌∷◌, ◌++◌, Option, none, some, String, length, ◌==◌,
  if◌then◌else◌,
}
use graphvent.Prelude.Maps.{Map, lookup}
use graphvent.Signal.{NodeId, Uuid, Signal, Message, status}
use graphvent.Node.{Node, queue_signal}

-- How a call ends: as it should, with an error, or with a panic.
pub data Status : Type 0 where
  fine : Status
  failed : Status
  panicked : Status

module _ (null_id : NodeId) (get_node : NodeId → Bool) where
  -- `Send`: the messages that were put into the channels of their receivers, and how it ended;
  -- `get_node` says whether getNode returns the node, and the messages are from `self`.
  unfoldable pub send : NodeId → List Message → List (NodeId × Message) × Status
  send self [] = ([], fine)
  send self (message ∷ messages) =
      let rest = send self messages in
      if message.node == null_id
      then ([], panicked)
      else if get_node message.node
      then ((message.node, record { node = self; signal = message.signal }) ∷ rest.0, rest.1)
      else ([], failed)

-- The names of the fields that an extension's changed tags stand for.
unfoldable pub field_names : (String → Option String) → List String → List String
field_names tag_name [] = []
field_names tag_name (tag ∷ tags) =
    let rest = field_names tag_name tags in
    elim (tag_name tag) [ none ↦ rest | some name ↦ name ∷ rest ]

-- ReverseFields of a node type, by extension and tag.
abbrev pub ReverseFields : Type 0
ReverseFields = ℕ → Option (String → Option String)

-- `fields` of `QueueChanges`, in the order of a range over the changes.
unfoldable pub changed_fields : ReverseFields → List (ℕ × List String) → List String
unfolding field_names
changed_fields reverse_fields [] = []
changed_fields reverse_fields (change ∷ changes) =
    let rest = changed_fields reverse_fields changes in
    elim (reverse_fields change.0) [
      | none ↦ rest
      | some tag_name ↦ field_names tag_name change.1 ++ rest
    ]

-- `node.QueueSignal(time.Time{}, NewStatusSignal(node.ID, fields))`, if there are fields.
abbrev pub queue_status : ℕ → NodeId → Uuid → List String → Node → Node
queue_status now self id [] node = node
queue_status now self id (field ∷ fields) node =
    queue_signal now 0 (status id self (field ∷ fields)) node

-- `QueueChanges`; without the node's type in the context it is an error.
unfoldable pub queue_changes :
    ℕ → NodeId → Uuid → Option ReverseFields → List (ℕ × List String) → Node → Node × Status
unfolding changed_fields
queue_changes now self id none changes node = (node, failed)
queue_changes now self id (some reverse_fields) changes node =
    (queue_status now self id (changed_fields reverse_fields changes) node, fine)

-- What the extensions of a node have answered.
pub record Answers (Ext : Type 0) : Type 0 where
  pub extensions : List (ℕ × Ext)
  pub messages : List Message
  pub changes : List (ℕ × List String)

module _ {Ext : Type 0}
    (ext_process : Ext → NodeId → Signal → Option (Ext × List Message × List String)) where
  -- The answer of one extension before those of the others; empty changes are left out.
  abbrev pub answer :
      ℕ → Ext × List Message × List String → Option (Answers Ext) → Option (Answers Ext)
  answer ext_type r none = none
  answer ext_type r (some others) = some (record {
    extensions = (ext_type, r.0) ∷ others.extensions;
    messages = r.1 ++ others.messages;
    changes = elim r.2 [ [] ↦ others.changes | _ ∷ _ ↦ (ext_type, r.2) ∷ others.changes ];
  })

  -- The loop of `Process` over the extensions, of which `ext_process` is none if it panics.
  unfoldable pub process_extensions : NodeId → Signal → List (ℕ × Ext) → Option (Answers Ext)
  process_extensions source signal [] =
      some (record { extensions = []; messages = []; changes = [] })
  process_extensions source signal (e ∷ es) =
      let rest = process_extensions source signal es in
      elim (ext_process e.1 source signal) [ none ↦ none | some r ↦ answer e.0 r rest ]

  -- What `Process` leaves: the node's queue, its extensions, what was sent and how it ended.
  pub record Processed : Type 0 where
    pub node : Node
    pub extensions : List (ℕ × Ext)
    pub sent : List (NodeId × Message)
    pub result : Status

  -- The changes are queued if there are any and nothing has failed before.
  unfoldable pub after_send :
      ℕ
      → NodeId
      → Uuid
      → Option ReverseFields
      → List (ℕ × List String)
      → Node
      → Status
      → Node × Status
  unfolding queue_changes
  after_send now self id reverse_fields [] node fine = (node, fine)
  after_send now self id reverse_fields (change ∷ changes) node fine =
      queue_changes now self id reverse_fields (change ∷ changes) node
  after_send now self id reverse_fields changes node failed = (node, failed)
  after_send now self id reverse_fields changes node panicked = (node, panicked)

  -- What comes behind the loop over the extensions.
  unfoldable pub deliver :
      (NodeId → Bool)
      → NodeId
      → ℕ
      → NodeId
      → Uuid
      → Option ReverseFields
      → Node
      → Answers Ext
      → List (NodeId × Message) × Status
      → Processed
  unfolding after_send
  deliver get_node null_id now self id reverse_fields node a sent =
      let queued : Node × Status = after_send now self id reverse_fields a.changes node sent.1 in
      record { node = queued.0; extensions = a.extensions; sent = sent.0; result = queued.1 }

  unfoldable pub process_node :
      (NodeId → Bool)
      → NodeId
      → ℕ
      → NodeId
      → Uuid
      → Option ReverseFields
      → NodeId
      → Signal
      → List (ℕ × Ext)
      → Node
      → Option Processed
  unfolding send process_extensions deliver
  process_node get_node null_id now self id reverse_fields source signal exts node =
      elim (process_extensions source signal exts) [
        | none ↦ none
        | some a ↦ some (
            deliver get_node null_id now self id reverse_fields node a
              (send null_id get_node self a.messages))
      ]
