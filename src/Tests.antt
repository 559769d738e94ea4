-- ===== src/Tests.antt =====
-- Runs at concrete inputs, and each theorem of the development applied at one.
mod Samples
mod Release
mod Readers
mod Symbols
mod Requests
mod Retries
mod Processes
mod Packages
mod Archives
mod Debug
mod Uploads
mod Prefetches
mod Manifests
mod Commands
mod Diagnostics
mod Responses
mod Contexts
mod Builds
