-- ===== src/LinuxPackages/Error.antt =====
-- The messages of `PackageError` of tool/verify_linux_packages.py.
pub data PackageError : Type 0 where
  unsafe_package_path unsafe_cpio_size truncated_cpio unsupported_cpio : PackageError
  invalid_cpio_header unsafe_cpio_name invalid_cpio_name package_reader_failed : PackageError
  missing_bundle_runners invalid_packaged_launcher unexpected_packaged_native_module : PackageError
  duplicate_or_linked_native_module packaged_native_bytes_changed : PackageError
  packaged_runner_not_executable missing_packaged_launcher missing_packaged_native_module :
      PackageError
  ambiguous_linux_package rpm_version_mismatch deb_version_mismatch unsafe_tar_size : PackageError
  invalid_appimage_container appimage_architecture_mismatch : PackageError
  invalid_appimage_boundary invalid_appimage_squashfs : PackageError
  -- Other exceptions: a name or link that is not UTF-8, a missing key, a read outside a buffer,
  -- and, in the model alone, a loop that outlives its rounds.
  not_utf8 key_error index_error overflow_error no_rounds : PackageError

-- A `PackageError`, and none of the others.
abbrev pub IsPackageError : PackageError → Type 0
IsPackageError not_utf8 = ⊥
IsPackageError key_error = ⊥
IsPackageError index_error = ⊥
IsPackageError overflow_error = ⊥
IsPackageError no_rounds = ⊥
IsPackageError _ = Unit
