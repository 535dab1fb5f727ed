-- ===== src/CommandLine/Help.antt =====
-- The help on the arguments (src/command_line_interface.cpp), as the lines that are printed.
use opera.Prelude.{ℕ, ◌+◌, ◌-◌, List, [], ◌∷◌, ◌++◌, if◌then◌else◌, ltb, length, replicate}
use opera.Prelude.Texts.{Text, bytes}
use opera.CommandLine.Parsers.{
  ArgumentParser, help, scheduler, theme, verbosity, short_id, long_id, has_short_id,
  requires_value,
}

unfoldable pub instructions : ArgumentParser → Text
instructions help = bytes "Show this list of supported arguments"
instructions scheduler =
    bytes
      "Choose the logging scheduler as a <value> in [ immediate | blocking | nonblocking ] (default: nonblocking)"
instructions theme =
    bytes "Choose the logging theme as a <value> in [ none | light | dark ] (default: none)"
instructions verbosity =
    bytes "Choose the logging verbosity as a non-negative integer <value> (default: 0)"

unfoldable pub help_description_header_size : ArgumentParser → ℕ
help_description_header_size p =
    4
    + length (long_id p)
    + (if has_short_id p then 4 + length (short_id p) else 0)
    + (if requires_value p then 8 else 0)

unfoldable pub help_description : ArgumentParser → ℕ → Text
help_description p num_chars_to_separate_instructions =
    bytes "["
    ++ ((if has_short_id p then bytes "-" ++ (short_id p ++ bytes " | ") else [])
        ++ (bytes "--"
            ++ (long_id p
                ++ (bytes "]"
                    ++ ((if requires_value p then bytes " <value>" else [])
                        ++ (replicate num_chars_to_separate_instructions b' '
                            ++ instructions p))))))

-- The first loop of `_print_help`.
unfoldable pub max_chars : List ArgumentParser → ℕ → ℕ
max_chars [] max = max
max_chars (p ∷ ps) max =
    max_chars ps
      (if ltb max (help_description_header_size p) then help_description_header_size p else max)

-- The second loop: a line for each parser.
unfoldable pub help_lines : List ArgumentParser → ℕ → List Text
help_lines [] max = []
help_lines (p ∷ ps) max =
    (bytes "    " ++ help_description p (4 + max - help_description_header_size p))
    ∷ help_lines ps max

unfoldable pub print_help : List ArgumentParser → List Text
print_help ps = bytes "Supported arguments:" ∷ help_lines ps (max_chars ps 0)
