-- ===== src/Core.antt =====
-- What every layer shares: text, settings, signals, the account identity and the reasons given.
pub mod Text
pub mod Message
pub mod Settings
pub mod Signal
pub mod Account
