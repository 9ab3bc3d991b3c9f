-- ===== src/Memory/Build/Lines.antt =====
-- The blocks of a line from its tokens to destroyCommand.
use operating_system_profoli.Base.{
  ℕ, ◌≡◌, refl, sym, ◌∙◌, Option, none, some, List, [], ◌∷◌, ◌++◌, Text, arith,
}
use operating_system_profoli.Command.{Command}
use operating_system_profoli.Memory.{occurrences, malloc}
use operating_system_profoli.Memory.Owned.{Same, Makes, Makes-then, Frees-free}
use operating_system_profoli.Memory.Blocks.{
  heap_command, HeapCommands, null_command, heap_next, args_blocks, command_blocks,
  redirects_blocks, commands_blocks,
}
use operating_system_profoli.Memory.Destroy.{destroy_commands}
use operating_system_profoli.Memory.Destroy.Freed.{destroy_commands-Frees}
use operating_system_profoli.Memory.Build.{build_seq, rename_commands, use_line}
use operating_system_profoli.Memory.Build.Arguments.{owned-live}
use operating_system_profoli.Memory.Build.Commands.{IsCommand}
use operating_system_profoli.Parser.{CommandSeq}
use operating_system_profoli.Parser.Actions as Actions
use operating_system_profoli.Memory.Build.Sequences.{behind, build_seq-Makes}

module _ (alloc : List ℕ → ℕ) where
  rename_commands-Makes :
      (names : List (Option Text)) (n : HeapCommands) (live rest : List ℕ)
      → Same live (commands_blocks n ++ rest)
      → Makes (λ _. Unit {0}) commands_blocks rest (rename_commands alloc names n live)
  unfolding rename_commands commands_blocks command_blocks malloc occurrences
  rename_commands-Makes [] n live rest h = (n, live, refl, tt, h)
  rename_commands-Makes (_ ∷ names) null_command live rest h = (null_command, live, refl, tt, h)
  rename_commands-Makes (none ∷ names) (heap_next (heap_command b z t bg a r n)) live rest h =
      let behind_z = z ∷ ((args_blocks a ++ (redirects_blocks r ++ commands_blocks n)) ++ rest) in
      let (n', live', run, _, left) =
        rename_commands-Makes names n live (b ∷ z ∷ (args_blocks a ++ (redirects_blocks r ++ rest)))
          (λ c.
            h c
            ∙ sym (behind c b z (args_blocks a) (redirects_blocks r) (commands_blocks n) rest)) in
      (
        heap_next (heap_command b z t bg a r n'),
        live',
        rw
            (
              owned-live b live behind_z h,
              owned-live z live
                  (b ∷ ((args_blocks a ++ (redirects_blocks r ++ commands_blocks n)) ++ rest))
                  (λ c. omega (arith, h c)),
              run,
            )
            refl,
        tt,
        λ c. left c ∙ behind c b z (args_blocks a) (redirects_blocks r) (commands_blocks n') rest,
      )
  rename_commands-Makes (some x ∷ names) (heap_next (heap_command b z t bg a r n)) live rest h =
      let others = (args_blocks a ++ (redirects_blocks r ++ commands_blocks n)) ++ rest in
      let (less, freed, fewer) = Frees-free z live (b ∷ others) (λ c. omega (arith, h c)) in
      let name = alloc less in
      let (n', live', run, _, left) =
        rename_commands-Makes names n (name ∷ less)
          (b ∷ name ∷ (args_blocks a ++ (redirects_blocks r ++ rest)))
          (λ c. omega (
            arith,
            fewer c,
            behind c b name (args_blocks a) (redirects_blocks r) (commands_blocks n) rest,
          )) in
      (
        heap_next (heap_command b name x bg a r n'),
        live',
        rw
            (
              owned-live b live (z ∷ others) h,
              owned-live z live (b ∷ others) (λ c. omega (arith, h c)),
              freed,
              run,
            )
            refl,
        tt,
        λ c.
            left c ∙ behind c b name (args_blocks a) (redirects_blocks r) (commands_blocks n') rest,
      )

  -- Where the commands of a line are built, the line can be built, its commands renamed, and destroyed,
  -- whatever blocks are live, whatever the allocator gives and whatever the names are: no block is used
  -- or freed that is not live, and in the end the blocks are live that were live before.
  pub use_line-Same :
      (q : CommandSeq) (c : Command) (names : List (Option Text)) (live : List ℕ)
      → Actions.build_seq q ≡ some c
      → (live' : List ℕ) × (use_line alloc q names live ≡ some (tt, live')) × Same live' live
  unfolding use_line commands_blocks
  use_line-Same q c names live run =
      let (_, live', returned, _, left) =
        Makes-then (IsCommand c) (λ _. Unit {0}) command_blocks (λ _. []) live live
          (build_seq alloc q live) _ (build_seq-Makes alloc q c live live run (λ b. refl))
          λ pc live1 e left1.
            Makes-then (λ _. Unit {0}) (λ _. Unit {0}) commands_blocks (λ _. []) live live
              (rename_commands alloc names (heap_next pc) live1) destroy_commands
              (rename_commands-Makes names (heap_next pc) live1 live left1)
              λ pcs live2 _ left2.
                let (live3, freed, kept) = destroy_commands-Frees pcs live2 live left2 in
                (tt, live3, freed, tt, kept) in
      (live', returned, left)
