-- ===== src/Lib.antt =====
-- Graphvent keeps nodes that send one another signals. A node is a record with extensions; its
-- loop hands each signal to every extension, which answers with messages to other nodes and with
-- the tags of the fields that it changed. The parts modelled here are those that carry this logic.
--
-- MessageQueue.antt models message.go: the goroutine between a node's send and receive channels,
-- whose ring buffer doubles when it is full (MessageQueue, ProcessIncoming and the loop of
-- NewMessageQueue). A channel operation that goes ahead is an Event; a panic is `none`. Cursors
-- are plain numbers: the buffer would have to fill the memory before an int overflows.
-- MessageQueue/Inv.antt, Fifo.antt and Refine.antt hold the invariant, the specification and the
-- refinement.
--
-- Lockable.antt and the files below it model lockable.go. LockableExt is the record of the same
-- name; maps are association lists, a nil Requirements map is `none`, and the sets Locked and
-- Unlocked and the map Waiting are made by NewLockableExt or Load and never nil. Reply.antt,
-- Requests.antt and Responses.antt hold the handlers HandleLinkSignal, HandleLockSignal,
-- HandleUnlockSignal, HandleErrorSignal and HandleSuccessSignal, one function for each branch, and
-- Process.antt their dispatch. A range over a map takes its order as an argument, since Go leaves
-- it open. uuid.New() is the parameter new_uuid, of which IsInjective says that it never repeats.
-- A panic (a nil pointer, a write to the nil map) is `none`. Tracking.antt, Loops.antt,
-- Counting.antt and Phase.antt hold the invariant and the lemmas on the loops; the files below
-- Invariant are about each handler under it; Protocol.antt, Asking.antt and Removal.antt are about
-- what is sent, who may unlock, and what a removal leaves behind.
--
-- Signal.antt has the signals of signal.go and listener.go, as one data type. NodeIDs, UUIDs and
-- node types are numbers.
--
-- Serialize.antt and the files below it model serialize.go, with TypeInfo and the codecs of the
-- IDs from context.go. A reflect.Type is a GoType and a reflect.Value a Value, numbers by their
-- bit patterns and bytes as numbers; named types other than structs, interfaces and the two IDs
-- are not told apart from what they name. Context has the two registry maps, and as parameters
-- what Go and the registered types decide (the hash codes of the kinds, the interfaces that a type
-- implements, == on map keys, zero values, methods). Bytes.antt has the writes into a slice in
-- place, Encode.antt SerializedSize, TypeStack and SerializeValue, Decode.antt UnwrapStack,
-- DeserializeValue and Deserialize. A call returns, fails, or panics. Reading recurs on fuel: one
-- step for each level of a value or type, so the size of the value (Reading.antt) is enough.
-- serialize_flagged takes with a value whether it has an address, and serialize_value is it for
-- one that has. The number of a float32 is what its conversion to a float64 and back leaves, so
-- signaling NaNs, which that changes, are left out. A range over a map takes the order of the
-- list, and fields stand in the order in which they were set last. Memory is unbounded, so a slice
-- of any length that is not negative can be made. Termination.antt and Whole.antt below it say
-- that there is always enough for any bytes. Encoding.antt says what bytes a value stands for,
-- Encoding/ and Sizes.antt are about writing, Reading/ about reading, Contract.antt about both,
-- Defects.antt about values that do not come back, and Unaddressed.antt about ids that cannot be
-- written.
--
-- Node.antt and the files below it model the queue of delayed signals in node.go: QueueSignal,
-- DequeueSignal, SoonestSignal and the case of nodeLoop for the timeout. A time is a number, the
-- zero time 0; time.Now() is an argument. NextSignal is the queued signal that it points to, which
-- is right since it is set anew after every write to the queue. Removal.antt is about taking a
-- signal out, Soonest.antt about the choice of the next, Drain.antt about the timeouts one after
-- another.
--
-- Processing.antt and the files below it model Process and QueueChanges of node.go and Send of
-- context.go. An extension is a type with a Process function, the parameter ext_process; getNode
-- is the parameter get_node, which says whether it returns the node. Changes and extensions are
-- listed in the order of the range over their map.
--
-- Waiting.antt and the files below it model WaitForResponse and WaitForSignal of signal.go, over
-- the events that their select receives, and the channel of listener.go's ListenerExt;
-- Listener.antt has its Load and Unload, where a send that waits has no result (a negative buffer,
-- at which make panics, is left out). Commands.antt has the control channel of nodeLoop in
-- node.go, with what the loop gives to the extensions; the zero NodeID, to which an answer cannot
-- be sent, and whether Unload returns are parameters. A failure of Process, at which the loop
-- panics, is left out there.
--
-- Registry.antt and Registry/Types.antt model the registries of context.go: GQLType with
-- RegisterMap, RegisterScalar, RegisterEnum, RegisterObject, RegisterObjectNoGQL,
-- RegisterExtension, RegisterNodeInterface and RegisterNodeType. A graphql.Type is what it is made
-- from, names and tags are numbers, and Naming has the hashes. A call that fails may have changed
-- the registries. GoType.id is NodeID there. Reach.antt has the registrations as a relation, and
-- Serial.antt what holds after any of them, for serialization. Fitting.antt says which graphql
-- types stand for a Go type; Resolving.antt models GQLResolve, with ResolveNode as a parameter,
-- and what graphql can show of its results. Library.antt has the calls of NewContext up to the
-- schema, with the tagged fields of the structs that it registers, and Scalars.antt the
-- conversions that it gives to its scalars. Interfaces.antt has GQLInterfaces, with the comparison
-- of pointers to graphql types as a parameter.
--
-- Database.antt and the files below it model db.go. Badger is a parameter: what a store holds,
-- which entries a transaction takes, and the commit, with IsLawful for its documented behaviour.
-- The shared buffer is part of the state, and a transaction refers to slices of it until the
-- commit, as badger's does. Changing.antt has WriteNodeChanges and Loading.antt LoadNode. A Node
-- is a StoredNode: the registered fields of its struct, its queue, and each extension's fields by
-- index; the two ranges of WriteNodeInit over the extensions, which Go may give different orders,
-- both take that of the list. Reading takes fuel for the size of each value. Of the library's own
-- types a queue with a signal in it cannot be read back, because of its time, and the extensions
-- have fields that are not registered and not zero once they are in use (the sets of LockableExt,
-- the channel of ListenerExt, what GQLExt serves with), so what is said of nodes that come back
-- whole is of others. Staging.antt, Entries.antt, Writing.antt and Keys.antt are about what is
-- committed, Reloading.antt and Commit.antt about what is read back, Changes.antt and Defects.antt
-- about what goes wrong.
--
-- Nodes.antt models the nodes of a Context: NewNode, addNode and getNode of context.go, the start
-- of nodeLoop and ReadFields of node.go. Whether an extension loads is a parameter. A call that
-- waits on a channel forever is `blocked`. Making.antt and Blocking.antt are about NewNode.
-- Stopping.antt models Stop, with nodeLoop as Waiting/Commands.antt has it; whether Unload of a
-- node's extensions returns is a parameter there.
--
-- Gql.antt models the subscriptions, response channels and Process of gql.go's GQLExt: channels
-- are numbered, and a send to a full one drops the signal. Gql/Channels.antt is about the channel
-- of a request. Gql/Resolve.antt models gql_node.go: GetFields, GetResolveFields and ResolveNode,
-- with the cache of a ResolveContext as state; what comes back for a read is the parameter
-- respond, an error of Send or of the wait being none. Fresh.antt and Current.antt below it say
-- where fields come from. Gql/Socket.antt models a connection of GQLWSHandler behind its upgrade,
-- with its goroutines: the events, with what the client sends, which goroutine goes on and which
-- writes fail, are a list. A schema that is not built, at which subscribe panics, is left out.
--
-- Prelude.antt and the files below it hold what the parts share: Boolean tests, lists, slices and
-- Go maps over native numbers.
pub mod Prelude
pub mod Signal
pub mod MessageQueue
pub mod Lockable
pub mod Serialize
pub mod Node
pub mod Waiting
pub mod Processing
pub mod Registry
pub mod Database
pub mod Nodes
pub mod Gql
