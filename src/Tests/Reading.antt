-- ===== src/Tests/Reading.antt =====
-- Examples for the lexer and the parser.
use operating_system_profoli.Base.{
  ◌≡◌, ◌↔◌, ◌≤◌, refl, some, [], ◌∷◌, ◌++◌, Text, codes, length, arith,
}
use operating_system_profoli.Command.{Command}
use operating_system_profoli.Command.Print.{print_command}
use operating_system_profoli.Lexer.Classes.{is_plain, is_special}
use operating_system_profoli.Lexer.{
  append_error, pipe_error, word, command, filename, redirect_in, redirect_to, pipe_to, background,
  semicolon, yeof, token, invalid, param, next, scan, scan_from,
}
use operating_system_profoli.Lexer.Escape.{
  double_quote, escape, copy_escaped_string, copy_escaped_string-length,
}
use operating_system_profoli.Lexer.Words.{scan_from-escape}
use operating_system_profoli.Lexer.Quotes.{with_quote, scan_from-with_quote}
use operating_system_profoli.Parser.{
  from_file, to_file, no_files, one_file, last, piped, in_background, and_then, CommandSeq,
  one_ended, more, seq_tokens, read_line,
}
use operating_system_profoli.Parser.Sound.{read_line_iff}
use operating_system_profoli.Parser.Actions.{build_seq, parse_text}
use operating_system_profoli.Parser.RoundTrip.{parsed, parse_text-print}

-- `sort -r < in |& wc & ls ; `
abbrev two_commands : CommandSeq
two_commands =
    more
      (piped (codes "/bin/sort") (codes "-r" ∷ []) (one_file (from_file (codes "in"))) pipe_error
        (last (codes "wc") [] no_files))
      in_background
      (one_ended (last (codes "ls") [] (one_file (to_file append_error (codes "log")))) and_then)

abbrev line : Text
line = codes "/bin/sort -r <in|& wc&ls>>&log ;"

scan-line :
    scan line
    ≡ token (command (codes "/bin/sort"))
      ∷ token (word (codes "-r"))
      ∷ token redirect_in
      ∷ token (filename (codes "in"))
      ∷ token (pipe_to pipe_error)
      ∷ token (command (codes "wc"))
      ∷ token background
      ∷ token (command (codes "ls"))
      ∷ token (redirect_to append_error)
      ∷ token (filename (codes "log"))
      ∷ token semicolon
      ∷ token yeof
      ∷ []
unfolding scan copy_escaped_string
scan-line = refl

scan_quotes :
    scan (codes "echo 'a \"b' \"c;\"\\&")
    ≡ token (command (codes "echo"))
      ∷ token (word (codes "a \"b"))
      ∷ invalid double_quote
      ∷ token (word (codes "c"))
      ∷ token semicolon
      ∷ invalid double_quote
      ∷ token (command (codes "&"))
      ∷ token yeof
      ∷ []
unfolding scan copy_escaped_string
scan_quotes = refl

read_line_iff_example :
    (read_line (seq_tokens two_commands) ≡ some two_commands)
    ↔ (seq_tokens two_commands ≡ seq_tokens two_commands)
read_line_iff_example = read_line_iff (seq_tokens two_commands) two_commands

scan_from-escape_example :
    scan_from 0 param (escape (codes "a b;\"c") ++ codes " x")
    ≡ token (word (codes "a b;\"c")) ∷ scan_from 0 param (codes " x")
unfolding is_special next
scan_from-escape_example =
    scan_from-escape param b'a' (codes " b;\"c") b' ' (codes "x")
      (refl, (refl, (refl, (refl, (refl, (refl, tt)))))) refl

scan_from-with_quote_example :
    scan_from 0 param (double_quote ∷ (with_quote (codes "a'b") (codes "c'd'e") ++ codes " x"))
    ≡ token (word (codes "a'b\\cde")) ∷ scan_from 0 param (codes " x")
unfolding next copy_escaped_string
scan_from-with_quote_example =
    scan_from-with_quote param (codes "a'b") (codes "c'd'e") b' ' (codes "x")
      (refl, (refl, (refl, tt))) (refl, (refl, (refl, (refl, (refl, tt))))) refl

copy_escaped_string-length_example : length (copy_escaped_string line) ≤ length line
copy_escaped_string-length_example = copy_escaped_string-length line

parse_text-print_example :
    (pc : Command) × (text : Text) × (build_seq two_commands ≡ some pc)
    × (print_command pc ≡ some text)
    × ((rest : Text) → parse_text (text ++ (b'\n' ∷ rest)) ≡ some (parsed pc) ∷ parse_text rest)
unfolding is_plain
parse_text-print_example =
    parse_text-print two_commands
      (
        (
          (λ h. cc, (refl, (refl, (refl, (refl, (refl, (refl, (refl, (refl, (refl, tt)))))))))),
          ((λ h. cc, (refl, (refl, tt))), tt),
          (λ h. cc, (refl, (refl, tt))),
          ((λ h. cc, (refl, (refl, tt))), tt, tt),
        ),
        ((λ h. cc, (refl, (refl, tt))), tt, (λ h. cc, (refl, (refl, (refl, tt))))),
      )
      ((omega arith, omega arith), omega arith)
