-- ===== src/Macho/Error.antt =====
-- The messages of `MachoError` of tool/sentry_macho.py.
pub data MachoError : Type 0 where
  bad_universal_header bad_universal_slice overlapping_slices duplicate_cpu : MachoError
  bad_archive_header bad_member_table bad_member_header bad_member_metadata : MachoError
  bad_member_bounds bad_bsd_name bad_gnu_name bad_object_member not_relocatable : MachoError
  member_cpu_mismatch bad_archive_padding no_object_members mixed_slices : MachoError
  unsupported_magic bad_slice_bounds unsupported_image bad_command_table : MachoError
  truncated_command bad_command_bounds bad_uuid_command bad_symbol_command : MachoError
  bad_symbol_bounds truncated_segment bad_segment_bounds bad_section_bounds : MachoError
  conflicting_identifiers truncated_header unsupported_header slice_cpu_mismatch : MachoError
  duplicate_architecture : MachoError
