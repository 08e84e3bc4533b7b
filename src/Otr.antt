-- ===== src/Otr.antt =====
-- otr-extension: encrypted conversations, an extension of the client that is built on libotr.
pub mod Case
pub mod Libotr
pub mod Files
pub mod Policy
pub mod Session
pub mod Texts
pub mod Callbacks
pub mod Methods
pub mod Events
pub mod CommandLine
pub mod CommandTable
pub mod Commands
pub mod Interface
pub mod Wishes
pub mod Observed
pub mod Timers
pub mod Outgoing
pub mod Sending
pub mod Receiving
pub mod Dispatch
pub mod Trust
