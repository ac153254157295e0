-- ===== src/Introspect/Comment.antt =====
-- `parseComment` of internal/schema/introspect.go: permissions in the comment on a table.
use rest_trans.Prelude.{
  List, [], ◌∷◌, ◌++◌, Text, codes, is_empty, has_prefix, split, trim_space, to_upper, drop,
  if◌then◌else◌,
}

pub record Permissions : Type 0 where
  pub allowed : List Text
  pub denied : List Text
  pub fts_language : Text

-- The loop over the words of a line.
unfoldable pub add_words : List Text → List Text → List Text
unfolding trim_space to_upper
add_words [] methods = methods
add_words (p ∷ parts) methods =
    let word = trim_space p in
    add_words parts (if is_empty word then methods else methods ++ to_upper word ∷ [])

-- One line.
unfoldable pub read_line : Text → Permissions → Permissions
unfolding add_words has_prefix split trim_space
read_line text p =
    let line = trim_space text in
    if has_prefix (codes "@allow ") line
    then record p { allowed = add_words (split b',' (drop 7 line)) p.allowed }
    else if has_prefix (codes "@deny ") line
    then record p { denied = add_words (split b',' (drop 6 line)) p.denied }
    else if has_prefix (codes "@fts_language ") line
    then record p { fts_language = trim_space (drop 14 line) }
    else p

unfoldable pub read_lines : List Text → Permissions → Permissions
unfolding read_line
read_lines [] p = p
read_lines (line ∷ lines) p = read_lines lines (read_line line p)

-- `parseComment`.
unfoldable pub parse_comment : Text → Permissions
unfolding read_lines split
parse_comment comment =
    read_lines (split 10 comment) (record { allowed = []; denied = []; fts_language = [] })
