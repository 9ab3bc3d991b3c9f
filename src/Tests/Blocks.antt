-- ===== src/Tests/Blocks.antt =====
-- Examples for the blocks of a line.
use operating_system_profoli.Base.{false, ℕ, ◌+◌, ◌≡◌, refl, none, some, List, [], ◌∷◌, ◌++◌, codes}
use operating_system_profoli.Command.{Command, FileType, PipeType}
use operating_system_profoli.Command.Arguments.{
  append_all, append_argument, create_arguments, set_argument,
}
use operating_system_profoli.Memory.Owned.{Same, Makes}
use operating_system_profoli.Memory.Blocks.{
  HeapCommand, heap_command, null_command, heap_file, heap_pipe, null_redirect, command_blocks,
}
use operating_system_profoli.Memory.Destroy.{destroy_command}
use operating_system_profoli.Memory.Destroy.Freed.{destroy_command-Same}
use operating_system_profoli.Memory.Build.{build_seq, use_line}
use operating_system_profoli.Memory.Build.Commands.{IsCommand}
use operating_system_profoli.Memory.Build.Sequences.{build_seq-Makes}
use operating_system_profoli.Memory.Build.Lines.{use_line-Same}
use operating_system_profoli.Parser.{
  from_file, to_file, no_files, one_file, last, piped, in_background, and_then, CommandSeq,
  one_ended, more,
}
use operating_system_profoli.Lexer.{append_error, pipe_error}
use operating_system_profoli.Parser.Actions as Actions
use operating_system_profoli.Tests.{simple, args_of}

-- `sort -r < in |& wc & ls >>& log ;`
abbrev line : CommandSeq
line =
    more
      (piped (codes "/bin/sort") (codes "-r" ∷ []) (one_file (from_file (codes "in"))) pipe_error
        (last (codes "wc") [] no_files))
      in_background
      (one_ended (last (codes "ls") [] (one_file (to_file append_error (codes "log")))) and_then)

-- Blocks are numbered in the order in which they are allocated.
abbrev pub counted : List ℕ → ℕ
counted [] = 1
counted (b ∷ bs) = b + 1

built : Command
unfolding Actions.build_seq
built = elim (Actions.build_seq line) [ none ↦ simple [] [] | some c ↦ c ]

built_run : Actions.build_seq line ≡ some built
unfolding built Actions.build_seq Actions.build_command append_all append_argument create_arguments
    set_argument
built_run = refl

build_seq-Makes_example :
    Makes (IsCommand built) command_blocks (7 ∷ []) (build_seq counted line (7 ∷ []))
build_seq-Makes_example = build_seq-Makes counted line built (7 ∷ []) (7 ∷ []) built_run (λ b. refl)

-- The first command has an alias.
use_line-Same_example :
    (live' : List ℕ) × (use_line counted line (some (codes "cat") ∷ none ∷ []) (7 ∷ [])
      ≡ some (tt, live'))
    × Same live' (7 ∷ [])
use_line-Same_example =
    use_line-Same counted line built (some (codes "cat") ∷ none ∷ []) (7 ∷ []) built_run

-- `cat < in | wc`
abbrev piped_command : HeapCommand
piped_command =
    heap_command 1 2 (codes "cat") false
      (record { args = args_of (codes "cat" ∷ []); block = 3; array = 4; strings = some 5 ∷ [] })
      (heap_file 6 7 FileType.redirect_in (codes "in") (
        heap_pipe 8 PipeType.pipe
          (heap_command 9 10 (codes "wc") false
            (record {
              args = args_of (codes "wc" ∷ []);
              block = 11;
              array = 12;
              strings = some 13 ∷ [];
            })
            null_redirect null_command)
          null_redirect))
      null_command

destroy_command-Same_example :
    (live' : List ℕ) × (destroy_command piped_command
        (command_blocks piped_command ++ (20 ∷ 21 ∷ []))
      ≡ some (tt, live'))
    × Same live' (20 ∷ 21 ∷ [])
destroy_command-Same_example =
    destroy_command-Same piped_command (command_blocks piped_command ++ (20 ∷ 21 ∷ []))
      (20 ∷ 21 ∷ []) (λ b. refl)
