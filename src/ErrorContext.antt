-- ===== src/ErrorContext.antt =====
-- `safe_error_context` and `ErrorContext` of tool/resolve_macos_packages.py: the lines of a failed
-- tool's output that are kept, without credentials. The regular expressions are parameters.
pub mod Window
pub mod Hidden
use xfl_clash.Prelude.{
  ℕ, ◌+◌, Bool, true, false, ◌||◌, List, [], ◌∷◌, ◌++◌, ltb, if◌then◌else◌, map, Text, codes, take,
  drop, length, strip, is_space,
}

-- The searches, and the substitutions of escapes, URLs, identities and paths.
pub record Patterns : Type 0 where
  pub is_sensitive : Text → Bool
  pub is_authorization : Text → Bool
  pub is_start : Text → Bool
  pub without_escapes : Text → Text
  pub hide_urls : Text → Text
  pub hide_identities : Text → Text
  pub hide_paths : Text → Text

abbrev pub max_line : ℕ
max_line = 800

abbrev pub oversized : Text
oversized = codes "[oversized diagnostic omitted]"

abbrev pub sensitive : Text
sensitive = codes "[sensitive diagnostic omitted]"

abbrev pub continuation : Text
continuation = codes "[sensitive continuation omitted]"

abbrev pub printable : ℕ → ℕ
printable c = if ltb c 32 then 32 else c

unfoldable pub safe_error_context : Patterns → Text → Text
unfolding strip is_space
safe_error_context p line =
    let text = p.without_escapes line in
    if ltb max_line (length line)
    then oversized
    else if p.is_sensitive text || p.is_authorization text
    then sensitive
    else take max_line
        (strip is_space (map printable (p.hide_paths (p.hide_identities (p.hide_urls text)))))

pub record Context : Type 0 where
  pub head : List Text
  pub tail : List Text
  pub count : ℕ
  pub sensitive_block : Bool
  pub line_truncated : Bool

abbrev pub first_context : Context
first_context = record {
  head = [];
  tail = [];
  count = 0;
  sensitive_block = false;
  line_truncated = false;
}

-- What a line is kept as, and whether it opens or keeps a block.
unfoldable pub sanitize : Patterns → Bool → Text → Text × Bool
sanitize p block text =
    let plain = p.without_escapes text in
    if ltb max_line (length text)
    then (oversized, true)
    else if p.is_sensitive plain
    then (sensitive, true)
    else elim block [
      | true ↦
          if p.is_start plain then (safe_error_context p plain, false) else (continuation, true)
      | false ↦ (safe_error_context p plain, false)
    ]

-- `deque.append` where at most 16 items stand.
abbrev pub append : List Text → Text → List Text
append tail x = if ltb (length tail) 16 then tail ++ x ∷ [] else drop 1 tail ++ x ∷ []

-- `add`
unfoldable pub add : Patterns → Context → Text → Context
unfolding sanitize
add p c text =
    let (safe, block) = sanitize p c.sensitive_block text in
    record {
      head = if ltb (length c.head) 8 then c.head ++ safe ∷ [] else c.head;
      tail = if ltb (length c.head) 8 then c.tail else append c.tail safe;
      count = c.count + 1;
      sensitive_block = block;
      line_truncated = c.line_truncated || ltb max_line (length text);
    }

unfoldable pub add_all : Patterns → Context → List Text → Context
unfolding add
add_all p c [] = c
add_all p c (line ∷ lines) = add_all p (add p c line) lines

-- `report`
abbrev pub report : Context → List Text × Bool
report c = (c.head ++ c.tail, ltb 24 c.count || c.line_truncated)
