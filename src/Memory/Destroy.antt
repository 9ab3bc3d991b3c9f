-- ===== src/Memory/Destroy.antt =====
-- destroyCommand, destroyRedirect and destroyArguments of impl/command.c.
pub mod Freed
use operating_system_profoli.Base.{ℕ, Option, none, some, List, [], ◌∷◌}
use operating_system_profoli.Memory.{Memory, pure, ◌>>=◌, ◌>>◌, use_block, free, free_unless_null}
use operating_system_profoli.Memory.Blocks.{
  HeapArgs, HeapCommand, heap_command, HeapCommands, null_command, heap_next, HeapRedirects,
  null_redirect, heap_file, heap_pipe,
}

-- The loop of destroyArguments, which reads `nArgs` and the entry in each round, and writes NULL.
free_entries : (block array : ℕ) → List (Option ℕ) → Memory (Unit {0})
free_entries block array [] = use_block block
free_entries block array (none ∷ ss) = do
  use_block block
  use_block array
  free_entries block array ss
free_entries block array (some s ∷ ss) = do
  use_block block
  use_block array
  free s
  use_block array
  free_entries block array ss

unfoldable pub destroy_arguments : HeapArgs → Memory (Unit {0})
unfolding free_entries
destroy_arguments pa = do
  free_entries pa.block pa.array pa.strings
  use_block pa.block
  free pa.array
  free pa.block

-- A list behind a pointer is destroyed where the pointer is not NULL, and NULL is written there.
unfoldable mutual
  pub destroy_command : HeapCommand → Memory (Unit {0})
  destroy_command (heap_command block name t bg pa r n) = do
    use_block block
    free name
    use_block block
    destroy_commands n
    use_block block
    destroy_redirects r
    use_block block
    destroy_arguments pa
    use_block block
    free block

  pub destroy_redirects : HeapRedirects → Memory (Unit {0})
  destroy_redirects null_redirect = pure tt
  destroy_redirects (heap_file block name t f r) = do
    use_block block
    destroy_redirects r
    use_block block
    free name
    free block
  destroy_redirects (heap_pipe block t pc r) = do
    use_block block
    destroy_redirects r
    use_block block
    destroy_command pc
    free block

  pub destroy_commands : HeapCommands → Memory (Unit {0})
  destroy_commands null_command = pure tt
  destroy_commands (heap_next pc) = destroy_command pc
