-- ===== src/Upload.antt =====
-- tool/upload_sentry_symbols.py: what is checked of the debug companions before they are uploaded.
pub mod Error
pub mod Check
pub mod Companions
pub mod Cli
