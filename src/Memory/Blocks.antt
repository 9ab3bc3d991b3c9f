-- ===== src/Memory/Blocks.antt =====
-- The structs of impl/command.h with the blocks that hold them, and what they are without these.
use operating_system_profoli.Base.{ℕ, Bool, Option, none, some, List, [], ◌∷◌, ◌++◌, Text}
use operating_system_profoli.Command.{
  Args, Command, command, Commands, no_command, next_command, Redirects, no_redirect, file_redirect,
  pipe_redirect, FileType, PipeType,
}

-- `struct _args`: its block, the one behind `azArgs`, and those of the first `nArgs` entries.
pub record HeapArgs : Type 0 where
  pub args : Args
  pub block : ℕ
  pub array : ℕ
  pub strings : List (Option ℕ)

-- `struct _command` with its block and that of `zCmd`; `struct _redirect` with its block and that of
-- the file's name, or the command.
mutual
  pub data HeapCommand : Type 0 where
    heap_command :
        (block name : ℕ) → Text → Bool → HeapArgs → HeapRedirects → HeapCommands → HeapCommand

  pub data HeapRedirects : Type 0 where
    null_redirect : HeapRedirects
    heap_file : (block name : ℕ) → FileType → Text → HeapRedirects → HeapRedirects
    heap_pipe : (block : ℕ) → PipeType → HeapCommand → HeapRedirects → HeapRedirects

  pub data HeapCommands : Type 0 where
    null_command : HeapCommands
    heap_next : HeapCommand → HeapCommands

unfoldable mutual
  pub erase_command : HeapCommand → Command
  erase_command (heap_command b z t bg a r n) =
      command t bg a.args (erase_redirects r) (erase_commands n)

  pub erase_redirects : HeapRedirects → Redirects
  erase_redirects null_redirect = no_redirect
  erase_redirects (heap_file b f t name r) = file_redirect t name (erase_redirects r)
  erase_redirects (heap_pipe b t pc r) = pipe_redirect t (erase_command pc) (erase_redirects r)

  pub erase_commands : HeapCommands → Commands
  erase_commands null_command = no_command
  erase_commands (heap_next pc) = next_command (erase_command pc)

abbrev pub present : List (Option ℕ) → List ℕ
present [] = []
present (none ∷ ss) = present ss
present (some s ∷ ss) = s ∷ present ss

abbrev pub args_blocks : HeapArgs → List ℕ
args_blocks pa = pa.block ∷ pa.array ∷ present pa.strings

-- All blocks behind a pointer.
unfoldable mutual
  pub command_blocks : HeapCommand → List ℕ
  command_blocks (heap_command b z t bg a r n) =
      b ∷ z ∷ (args_blocks a ++ (redirects_blocks r ++ commands_blocks n))

  pub redirects_blocks : HeapRedirects → List ℕ
  redirects_blocks null_redirect = []
  redirects_blocks (heap_file b f t name r) = b ∷ f ∷ redirects_blocks r
  redirects_blocks (heap_pipe b t pc r) = b ∷ (command_blocks pc ++ redirects_blocks r)

  pub commands_blocks : HeapCommands → List ℕ
  commands_blocks null_command = []
  commands_blocks (heap_next pc) = command_blocks pc
