-- ===== src/Client.antt =====
-- `dap::Client` (src/DebugAdapterProtocol/Client.cpp, Client.hpp): its state, the requests that it
-- sends and the messages that it receives.
pub mod State
pub mod Send
pub mod Api
pub mod Names
pub mod Dispatch
pub mod Transmit
pub mod Queues
pub mod Core
pub mod Buffer
pub mod Receive
pub mod Handshake
pub mod Sequence
pub mod Lost
pub mod Wire
