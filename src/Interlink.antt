-- ===== src/Interlink.antt =====
-- AtlasNet/lib/Native/Interlink/Interlink.hpp and .cpp with Network/Connection.hpp and .cpp: the
-- connections of a process, the packets it sends over them and those that come in.
pub mod Run
pub mod Connection
pub mod Table
pub mod State
pub mod Queues
pub mod Send
pub mod Callbacks
pub mod Receive
pub mod Steps
pub mod Live
pub mod Mailbox
pub mod Finding
pub mod Flush
pub mod Crowded
pub mod Delivery
pub mod Establish
