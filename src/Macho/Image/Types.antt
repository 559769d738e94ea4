-- ===== src/Macho/Image/Types.antt =====
-- The dictionaries that `_thin` of tool/sentry_macho.py builds, and the state of its walk over
-- the load commands.
use xfl_clash.Prelude.{ℕ, Bool, false, List, [], Text}
use xfl_clash.Prelude.Int.{ℤ}
use xfl_clash.Binary.{Endian}

pub record Segment : Type 0 where
  pub name : Text
  pub vmaddr : ℕ
  pub vmsize : ℕ
  pub fileoff : ℕ
  pub filesize : ℕ

pub record Section : Type 0 where
  pub name : Text
  pub segment : Text
  pub offset : ℕ
  pub size : ℕ
  pub addr : ℕ
  pub align : ℕ
  pub flags : ℕ
  pub has_contents : Bool

pub record Image : Type 0 where
  pub architecture : Text
  pub uuid : Text
  pub filetype : ℕ
  pub has_debug_info : Bool
  pub has_debug_line : Bool
  pub has_executable_text : Bool
  pub has_oso_symbols : Bool
  pub cpu_type : ℤ
  pub cpu_subtype : ℤ
  pub endian : Endian
  pub offset : ℕ
  pub size : ℕ
  pub segments : List Segment
  pub sections : List Section

pub record Scan : Type 0 where
  pub cursor : ℕ
  pub identifiers : List Text
  pub debug_sections : List Text
  pub executable : Bool
  pub oso_symbols : Bool
  pub segments : List Segment
  pub sections : List Section

abbrev pub no_commands : ℕ → Scan
no_commands cursor = record {
  cursor = cursor;
  identifiers = [];
  debug_sections = [];
  executable = false;
  oso_symbols = false;
  segments = [];
  sections = [];
}
