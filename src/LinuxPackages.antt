-- ===== src/LinuxPackages.antt =====
-- tool/verify_linux_packages.py: the final packages for Linux hold the modules of the bundle.
pub mod Error
pub mod Cpio
pub mod Members
pub mod Appimage
pub mod Audit
