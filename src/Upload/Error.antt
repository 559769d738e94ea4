-- ===== src/Upload/Error.antt =====
-- The messages of `SymbolError` of tool/upload_sentry_symbols.py.
pub data SymbolError : Type 0 where
  missing_debug_artifact invalid_symbol_metadata unusable_debug_information
        unexpected_symbol_format :
      SymbolError
  cli_failed invalid_label not_relative escaped_build_root missing_artifact : SymbolError
  invalid_manifest unexpected_manifest no_companions no_required invalid_record : SymbolError
  duplicate_architecture wrong_binary_name no_separate_companion invalid_elf : SymbolError
  build_id_mismatch architecture_mismatch executable_companion no_line_information : SymbolError
  debug_id_mismatch no_debug_feature no_unwind_feature no_runtime_copies : SymbolError
  invalid_required duplicate_required missing_companion missing_mandatory : SymbolError
  invalid_limitation required_is_limitation inventory_failed key_error : SymbolError
