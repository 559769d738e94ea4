-- ===== src/Macho.antt =====
-- tool/sentry_macho.py: the offline inventory of Mach-O images, universal files and static archives.
pub mod Error
pub mod Image
pub mod Universal
pub mod Archive
