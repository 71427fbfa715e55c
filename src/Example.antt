-- ===== src/Example.antt =====
-- A circular buffer as a list, and one connection of the server followed event by event.
pub mod Ring
pub mod Trace
mod Accept
mod Admit
mod Demo
mod Dispatch
pub mod Client
mod Graph
mod Lifetime
mod Main
mod Numbers
mod Ping
mod Signals
mod Threads
mod Wire
mod Witness
