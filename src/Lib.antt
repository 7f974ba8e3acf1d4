-- ===== src/Lib.antt =====
-- AtlasNet: a cluster of processes that divide a game world among them. Shards, proxies and
-- clients send each other packets; a packet is a header and a body that are put into bytes,
-- carried by a transport library, and made into an object again, on which the process then calls
-- whoever has subscribed to packets of that type.
--
-- The parts that are modelled, with the files of AtlasNet/lib/Native they translate:
--
-- Bytes is Global/Serialize. Bytes.Writer is `ByteWriter` and Bytes.Reader is `ByteReader` over
-- plain bytes, method by method under the source's names. A writer method takes its arguments and
-- a writer and returns a writer; a reader method takes a reader and returns an error of
-- Bytes.Result or the value with the new reader. Signed integers, floats and enumerators are the
-- bit patterns that are sent, below 2 ^ w for w bits; size_t has 64 bits, and sums of positions
-- wrap. Where C++ leaves a shift undefined the result is the error `undefined`, which the source
-- does not have. Bytes.Codec says what it means that a reader method takes back what a writer
-- method put down, and how such pairs chain; Bytes.Integers, Varint, Blobs and Sequence are about
-- such pairs. The loops of `var_u32` run on fuel: the writer's on 5, as a 32-bit number has five
-- groups of seven bits, the reader's on 6, since the test of the shift stops it, or the shift is
-- undefined, on the sixth byte.
--
-- Entity is Entity/Entity.hpp, Entity/Transform.hpp and Global/Types/AABB.hpp: the records and
-- their `Serialize` and `Deserialize`. The member `data` of `AtlasEntityMinimal` is the field
-- `transform`.
--
-- Network.Identity is Network/NetworkIdentity.hpp and .cpp: the identity of a process, its
-- factories and its way into bytes.
--
-- Packets is the packets of Entity/Packet and Network/Packet. EntityTransfer, ClientTransfer,
-- LocalEntityList and ClientIdAssign are the classes that ATLASNET_REGISTER_PACKET registers, each
-- with `SerializeData`, `DeserializeData` and `ValidateData`. A variant member is a data type of
-- its own, so that the tag in the packet and the alternative it holds can differ, as in the
-- source, where `std::get` on the wrong alternative throws. The loops of LocalEntityList count in an
-- int, which overflows at 2 ^ 31 elements; what the result is then is `undefined`, and the theorems
-- that read such a packet suppose fewer. `reserve` is left out: memory does not run out. GenericEntity
-- is the packet of EntityHandoff/Packet (AtlasNet/lib/Native-exc) that carries a handoff. Packets.Command is
-- Interlink/Packet/CommandPacket.hpp. Packets.Hash is `HashString`, and Packets.Packet is
-- `IPacket`, `TPacket` and `PacketRegistry`: a factory is named by its class, and a null pointer
-- is `none`.
--
-- Dispatch is Network/Packet/PacketManager.hpp. The state is the map from types to vectors of
-- entries and the counter of ids; the callbacks are a parameter of `dispatch`, functions on the
-- manager and a state of their own. An entry is reached as in the source by a raw pointer, here
-- its type and id, and reading a pointer whose entry has been freed is the outcome `dangling`.
-- Locks are not modelled: an operation of the manager is one step, and what comes between the
-- steps of a dispatch is what the callbacks do.
--
-- Ledger is Entity/EntityLedger.hpp and .cpp and Entity/TransferCoordinator.hpp. Ledger.Uuids is
-- the interface to Boost's UUIDs, the two comparisons with what is documented of them;
-- Ledger.State is `EntityLedger`, its flat_map as the sorted list of its entities; Ledger.Transfer
-- is `MarkEntitiesForTransfer` and one round of the ledger's thread. The claimed bound is a test
-- on positions, the ids of new transfers are arguments, and an assertion that fails is `none`. The
-- other files of Ledger are about runs of these.
--
-- Heuristic is Heuristic/GridHeuristic with Heuristic/IBounds.hpp, and the boxes of
-- Global/Types/AABB.hpp as bounds. Heuristic.Floats is the interface to floats and glm: a
-- comparison and the two functions glm::min and glm::max with their documented laws, which hold of
-- NaN too. The loop of `Deserialize` counts in an int, as in LocalEntityList, and the shapes of its theorem are fewer
-- than 2 ^ 31.
--
-- Interlink is Interlink/Interlink.hpp and .cpp with Network/Connection.hpp and .cpp. The state is
-- the table of connections in the order of insertion, of which an index finds the first with a
-- key, the packets that wait for a target, and the calls that have been made of the transport and
-- the services, in order. What the transport and the server registry answer are parameters. A call
-- returns, fails an assertion, throws or is undefined (Interlink.Run); a member that the source
-- has not initialised is `none`, and using it is undefined; but the index by handle compares it too,
-- which the source leaves undefined as well, and there the model takes it to be different from every
-- handle of the transport. Identities are compared as in the
-- source by `ToString`, which is Network.Names. Interlink.Steps lets the process and the transport
-- make calls in any order. The registry is asked six times at most, which is the bound of the
-- source.
--
-- Handoff is AtlasNet/lib/Native-exc/EntityHandoff/ServerHandoff. Handoff.Tracker is
-- `SH_EntityAuthorityTracker`, Handoff.Mailbox `SH_TransferMailbox` and Handoff.Planner
-- `SH_BorderHandoffPlanner`, method by method. An unordered_map is a list in the order in which it
-- hands its entries out (Handoff.Maps), and the theorems hold of every such list. Which place a new
-- entry gets is open in the source; the definitions put it at the end, and the theorems speak of what
-- a map holds and not of the place of a new entry. The calls of the
-- simulator, of the telemetry, of the transfer manifest and of the packet manager are recorded in
-- their order; what the heuristic manifest and the server registry answer are parameters. The
-- mailbox takes what the planner returns, and both act on the same tracker. Handoff.Election is
-- `SH_OwnershipElection` and Handoff.Leases `SH_HandoffConnectionLeaseCoordinator`, over
-- Handoff.Database, the interface to the database, in which no call falls between the calls of one
-- method. Handoff.Wire is `SH_HandoffPacketManager`, Handoff.Connections
-- `SH_HandoffConnectionManager` and Handoff.Runtime `SH_ServerAuthorityRuntime`, whose tick calls the
-- others in their order. The simulator of the entities is an interface there, which Handoff.Orbit and
-- Handoff.Orbiting fill with `DebugEntityOrbitSimulator` (EntityHandoff/DebugEntities), its float
-- operations and those on entity numbers as parameters. The other files of Handoff are about these.
--
-- Manifest is Heuristic/Database/HeuristicManifest.hpp and .cpp, method by method, with the types of
-- Heuristic/IHeuristic.hpp, `BoundLeaser::ClaimBound` of Heuristic/BoundLeaser.cpp and, in
-- Manifest.WatchDog, `SwitchHeuristic` and `ComputeHeuristic` of
-- AtlasNet/runtime/watchdog/src/WatchDog.cpp. The state is the JSON document of the table of bounds:
-- Manifest.Documents is the interface to RedisJSON with what is documented of its commands,
-- Manifest.Plain a document in memory that meets it, and the base64 coding of Boost a parameter. A Lua
-- script runs in one piece, and no call of another process falls between the calls of one method. What
-- `GridHeuristic::Compute` makes is an argument. An unordered_map of writers is gone through in the
-- order in which its keys were inserted, which is one of the orders that C++ allows.
--
-- Registry is Interlink/Database/HealthManifest.hpp and ServerRegistry.hpp and .cpp with
-- Client/ClientManifest.hpp and .cpp, and the watchdog's answer to a failed health check. The state is
-- the hash tables and sets of the database: Registry.Tables is the interface to them with what Redis
-- documents of the commands, and Registry.Kept keeps them in memory. Doubles, the texts of addresses
-- and the time are parameters. The other files of Registry are about these.
--
-- Events is Events/EventRegistry.hpp, Events/EventSystem.hpp and the events of Events/Events, with
-- Client/Client.hpp and the serialisation of Network/IPAddress.hpp, where an address is IPv4. The class
-- of an event is its kind (Events.Event); that the database hands a message to who has subscribed to
-- its channel is Redis, and what is published and subscribed to comes with the result.
--
-- The parts meet in these places: `SendMessage` hands the transport the bytes of
-- Packets.Packet.serialize, and `ReceiveMessages` of the other end gives them back; a message's
-- bytes go to Packets.Packet.create_from_bytes, which reads them by Bytes.Reader through Entity
-- and Network, and the packet's type selects whom Dispatch calls; and the ledger, which subscribes
-- there, answers a list request by a packet of Packets.LocalEntityList.
--
-- Not modelled: the start-up, the tick thread and the telemetry of `Interlink`, the
-- coordinator's thread (which does nothing yet), the other heuristics and the float arithmetic,
-- the threads of the event system, the linear simulator of the server handoff and the earlier
-- versions of it under AtlasNet/lib/Native-exc, and whatever mainly calls a database, a container engine, a transport
-- or a browser. The bit-wise methods of the writer and reader are defined, without theorems.
pub mod Prelude
pub mod Bytes
pub mod Entity
pub mod Network
pub mod Packets
pub mod Dispatch
pub mod Ledger
pub mod Handoff
pub mod Manifest
pub mod Registry
pub mod Events
pub mod Heuristic
pub mod Interlink
mod Examples
