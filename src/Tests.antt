-- ===== src/Tests.antt =====
-- Concrete JSON values, clocks and cryptography, on which the theorems are applied.
mod Json
mod Host
mod Crypto
mod Core
mod DraftTasks
mod LegacyTasks
mod Sessions
mod Client
mod RequestState
mod Subscriptions
mod Headers
mod Neutral
mod Platform
mod Server
mod Dispatcher
mod Interaction
