-- ===== src/Memory/Build.antt =====
-- The allocation of a line: the actions of impl/parser.y with the functions of impl/command.c that they
-- call, and func_aliasing of impl/ish.c. The lexer's copy of a word is allocated where an action takes it.
pub mod Arguments
pub mod Redirects
pub mod Commands
pub mod Sequences
pub mod Lines
use operating_system_profoli.Base.{
  ℕ, ◌+◌, Bool, true, false, Option, none, some, List, [], ◌∷◌, ◌++◌, Text, ◌==◌, if◌then◌else◌,
  get_elem?, set,
}
use operating_system_profoli.Command.{Args, FileType, PipeType}
use operating_system_profoli.Command.Arguments as ArgumentVector
use operating_system_profoli.Memory.{
  Memory, pure, ◌>>=◌, ◌>>◌, lift, use_block, free, free_unless_null, malloc,
}
use operating_system_profoli.Memory.Blocks.{
  HeapArgs, HeapCommand, heap_command, HeapCommands, null_command, heap_next, HeapRedirects,
  null_redirect, heap_file, heap_pipe,
}
use operating_system_profoli.Memory.Destroy.{destroy_commands}
use operating_system_profoli.Parser.{
  FileRedirect, from_file, to_file, FileRedirects, no_files, one_file, in_out, out_in, CommandTree,
  last, piped, Separator, in_background, and_then, CommandSeq, one, one_ended, more,
}
use operating_system_profoli.Parser.Actions.{file_type, pipe_type, short_name}

-- An entry of `azArgs`; those from `nArgs` on are NULL.
abbrev pub entry : List (Option ℕ) → ℕ → Option ℕ
entry ss n = elim (get_elem? ss n) [ none ↦ none | some s ↦ s ]

-- The loop of appendRedirect to the end of the list, and its write.
unfoldable pub link : HeapRedirects → HeapRedirects → Memory HeapRedirects
link null_redirect pr2 = pure pr2
link (heap_file block name t f r) pr2 = do
  use_block block
  r' ← link r pr2
  pure (heap_file block name t f r')
link (heap_pipe block t pc r) pr2 = do
  use_block block
  r' ← link r pr2
  pure (heap_pipe block t pc r')

unfoldable pub append_redirect : HeapRedirects → HeapRedirects → Memory HeapRedirects
unfolding link
append_redirect null_redirect pr2 = lift none
append_redirect (heap_file block name t f r) pr2 = link (heap_file block name t f r) pr2
append_redirect (heap_pipe block t pc r) pr2 = link (heap_pipe block t pc r) pr2

unfoldable pub append_command : HeapCommand → HeapCommand → Memory HeapCommand
append_command (heap_command block name z bg pa r null_command) pc2 = do
  use_block block
  pure (heap_command block name z bg pa r (heap_next pc2))
append_command (heap_command block name z bg pa r (heap_next pc)) pc2 = do
  use_block block
  pc' ← append_command pc pc2
  pure (heap_command block name z bg pa r (heap_next pc'))

-- `$1->fBackground = 1`
abbrev pub set_background : Separator → HeapCommand → Memory HeapCommand
set_background in_background (heap_command block name z bg pa r n) = do
  use_block block
  pure (heap_command block name z true pa r n)
set_background and_then pc = pure pc

-- `redirect` with a pipe: alone, or behind the files.
unfoldable pub join_pipe : FileRedirects → HeapRedirects → HeapRedirects → Memory HeapRedirects
join_pipe no_files files pr = pure pr
join_pipe (one_file r) files pr = append_redirect files pr
join_pipe (in_out f o g) files pr = append_redirect files pr
join_pipe (out_in o g f) files pr = append_redirect files pr

module _ (alloc : List ℕ → ℕ) where
  unfoldable pub create_arguments : Memory HeapArgs
  create_arguments = do
    block ← malloc alloc
    array ← malloc alloc
    pure (record {
      args = ArgumentVector.create_arguments;
      block = block;
      array = array;
      strings = none ∷ [];
    })

  unfoldable pub set_argument : HeapArgs → ℕ → Text → Memory HeapArgs
  set_argument pa n z_arg = do
    use_block pa.block
    use_block pa.array
    args ← lift (ArgumentVector.set_argument pa.args n (some z_arg))
    free_unless_null (entry pa.strings n)
    s ← malloc alloc
    pure (record pa { args = args; strings = set pa.strings n (some s) })

  -- `realloc` where the array is full: the old block is gone, and a new one is there.
  pub grown : HeapArgs → Memory ℕ
  grown pa =
      if pa.args.n_args == pa.args.n_max_args
      then (do free pa.array; malloc alloc)
      else (do use_block pa.array; pure pa.array)

  unfoldable pub append_argument : HeapArgs → Text → Memory HeapArgs
  unfolding grown
  append_argument pa z_arg = do
    use_block pa.block
    array ← grown pa
    args ← lift (ArgumentVector.append_argument pa.args z_arg)
    s ← malloc alloc
    pure (record {
      args = args;
      block = pa.block;
      array = array;
      strings = pa.strings ++ (some s ∷ []);
    })

  -- The lexer's copy of each word is freed once appendArgument has made its own.
  unfoldable pub build_words : HeapArgs → List Text → Memory HeapArgs
  build_words pa [] = pure pa
  build_words pa (w ∷ ws) = do
    word ← malloc alloc
    pa' ← append_argument pa w
    free word
    build_words pa' ws

  -- `parameters`
  unfoldable pub build_parameters : List Text → Memory HeapArgs
  build_parameters ws = do pa ← create_arguments; build_words pa ws

  -- createRedirect with a file.
  pub create_file_redirect : FileType → Text → Memory HeapRedirects
  create_file_redirect t f = do
    block ← malloc alloc
    name ← malloc alloc
    pure (heap_file block name t f null_redirect)

  unfoldable pub build_redirect : FileType → Text → Memory HeapRedirects
  unfolding create_file_redirect
  build_redirect t f = do word ← malloc alloc; pr ← create_file_redirect t f; free word; pure pr

  unfoldable pub build_files : FileRedirects → Memory HeapRedirects
  build_files no_files = pure null_redirect
  build_files (one_file (from_file f)) = build_redirect FileType.redirect_in f
  build_files (one_file (to_file o f)) = build_redirect (file_type o) f
  build_files (in_out f o g) = do
    pr1 ← build_redirect FileType.redirect_in f
    pr2 ← build_redirect (file_type o) g
    append_redirect pr1 pr2
  build_files (out_in o g f) = do
    pr1 ← build_redirect (file_type o) g
    pr2 ← build_redirect FileType.redirect_in f
    append_redirect pr1 pr2

  unfoldable pub create_command : Text → HeapArgs → HeapRedirects → Memory HeapCommand
  create_command z pa r = do
    block ← malloc alloc
    name ← malloc alloc
    pure (heap_command block name z false pa r null_command)

  -- The action of `command`: the short name is set, and the copy of the name is freed at the end.
  unfoldable pub finish_command : ℕ → Text → HeapArgs → HeapRedirects → Memory HeapCommand
  finish_command word z pa r = do
    pa' ← set_argument pa 0 (short_name z)
    pc ← create_command z pa' r
    free word
    pure pc

  unfoldable pub build_command : CommandTree → Memory HeapCommand
  build_command (last z ws fs) = do
    word ← malloc alloc
    pa ← build_parameters ws
    r ← build_files fs
    finish_command word z pa r
  build_command (piped z ws fs p t) = do
    word ← malloc alloc
    pa ← build_parameters ws
    files ← build_files fs
    pc ← build_command t
    block ← malloc alloc
    r ← join_pipe fs files (heap_pipe block (pipe_type p) pc null_redirect)
    finish_command word z pa r

  unfoldable pub build_seq : CommandSeq → Memory HeapCommand
  build_seq (one t) = build_command t
  build_seq (one_ended t s) = do pc ← build_command t; set_background s pc
  build_seq (more t s q) = do
    pc ← build_command t
    rest ← build_seq q
    pc' ← append_command pc rest
    set_background s pc'

  -- The loop of processCommands over a line: func_aliasing gives some of the commands another name.
  unfoldable pub rename_commands : List (Option Text) → HeapCommands → Memory HeapCommands
  rename_commands [] n = pure n
  rename_commands (a ∷ names) null_command = pure null_command
  rename_commands (none ∷ names) (heap_next (heap_command block name z bg pa r n)) = do
    use_block block
    use_block name
    n' ← rename_commands names n
    pure (heap_next (heap_command block name z bg pa r n'))
  rename_commands (some t ∷ names) (heap_next (heap_command block name z bg pa r n)) = do
    use_block block
    use_block name
    free name
    name' ← malloc alloc
    n' ← rename_commands names n
    pure (heap_next (heap_command block name' t bg pa r n'))

  -- What processCommands does with the blocks of a line.
  unfoldable pub use_line : CommandSeq → List (Option Text) → Memory (Unit {0})
  use_line q names = do
    pc ← build_seq q
    pcs ← rename_commands names (heap_next pc)
    destroy_commands pcs
