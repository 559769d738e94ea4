-- ===== src/Tests/Diagnostics.antt =====
-- `ErrorContext` of tool/resolve_macos_packages.py on a few lines.
use xfl_clash.Prelude.{
  ◌≡◌, refl, false, List, [], ◌∷◌, Text, codes, contains, starts_with, All, drop,
}
use xfl_clash.ErrorContext.{Patterns, first_context, add_all, report, sensitive, continuation}
use xfl_clash.ErrorContext.Hidden.{sanitized, IsMarker, sanitized-IsMarker}
use xfl_clash.ErrorContext.Window.{IsWindow, add_all-IsWindow}

abbrev patterns : Patterns
patterns = record {
  is_sensitive = λ s. contains s (codes "token=");
  is_authorization = λ s. contains s (codes "bearer");
  is_start = λ s. starts_with s (codes "error:");
  without_escapes = λ s. s;
  hide_urls = λ s. s;
  hide_identities = λ s. s;
  hide_paths = λ s. s;
}

abbrev lines : List Text
lines = codes "fetching" ∷ codes "token=" ∷ codes "abc" ∷ codes "error: x" ∷ []

report_run :
    report (add_all patterns first_context lines)
    ≡ (codes "fetching" ∷ sensitive ∷ continuation ∷ codes "error: x" ∷ [], false)
unfolding add_all xfl_clash.ErrorContext.safe_error_context contains starts_with
report_run = refl

add_all-IsWindow_example :
    IsWindow (sanitized patterns false lines) (add_all patterns first_context lines)
add_all-IsWindow_example = add_all-IsWindow patterns lines

sanitized-IsMarker_example :
    All IsMarker
      (drop 1 (sanitized patterns false (codes "fetching" ∷ codes "token=" ∷ codes "abc" ∷ [])))
unfolding contains starts_with
sanitized-IsMarker_example =
    sanitized-IsMarker patterns false (codes "fetching" ∷ []) (codes "token=") (codes "abc" ∷ [])
      refl (refl, tt)
