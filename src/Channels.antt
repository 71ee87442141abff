-- ===== src/Channels.antt =====
-- src/channels: the operator's channel over Telegram.
pub mod Telegram
pub mod World
pub mod Vote
pub mod Loop
