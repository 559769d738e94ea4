-- ===== src/Confirmation.antt =====
-- tool/sentry_upload_confirmation.py: what the server must hold of the local symbol inventory, and
-- the bounded confirmation that it does.
pub mod Requirements
pub mod Rounds
pub mod Request
