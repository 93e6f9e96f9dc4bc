-- ===== src/Config/Command.antt =====
-- proxy/config/config.go: `StripComments` and `SanitizeCommand`. `shlex`, which splits a command
-- line into words, is an argument.
use llama_swap.Base.{List, [], ◌∷◌, ◌++◌, Bool, if◌then◌else◌, length, take, ◌-◌}
use llama_swap.Base.Text.{Text, codes, has_prefix, has_suffix, split, join, trim_space}
use llama_swap.Config.Types.{empty_command, Result, ok, err}

abbrev pub is_comment : Text → Bool
is_comment line = has_prefix (trim_space line) (codes "#")

unfoldable pub kept_lines : List Text → List Text
kept_lines [] = []
kept_lines (line ∷ lines) =
    let rest = kept_lines lines in if is_comment line then rest else line ∷ rest

unfoldable pub strip_comments : Text → Text
strip_comments cmd = join (10 ∷ []) (kept_lines (split 10 cmd))

-- A line of a command: a backslash at its end becomes a blank, and then the line is trimmed.
abbrev pub clean_line : Text → Text
clean_line line =
    let trimmed = trim_space line in
    if has_suffix trimmed (92 ∷ []) then take (length trimmed - 1) trimmed ++ codes " " else line

unfoldable pub cleaned_lines : List Text → List Text
cleaned_lines [] = []
cleaned_lines (line ∷ lines) =
    let rest = cleaned_lines lines in if is_comment line then rest else clean_line line ∷ rest

abbrev pub not_empty : List Text → Result (List Text)
not_empty [] = err empty_command
not_empty (arg ∷ args) = ok (arg ∷ args)

unfoldable pub sanitize_command : (Text → List Text) → Text → Result (List Text)
sanitize_command shlex cmd = not_empty (shlex (join (10 ∷ []) (cleaned_lines (split 10 cmd))))
