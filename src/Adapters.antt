-- ===== src/Adapters.antt =====
-- adapters/: the channels' own code.
pub mod WhatsappLatch
pub mod TelegramCursors
