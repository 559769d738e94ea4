-- ===== src/Elf/Error.antt =====
-- The messages of `ElfError` of tool/sentry_elf.py.
pub data ElfError : Type 0 where
  bad_header unsupported_header truncated_header unsupported_architecture : ElfError
  bad_table bad_table_bounds bad_name_table bad_name bad_name_end : ElfError
  truncated_section duplicate_code_section bad_note_bounds bad_identifier : ElfError
  conflicting_identifiers : ElfError
