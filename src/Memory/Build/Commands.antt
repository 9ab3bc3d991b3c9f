-- ===== src/Memory/Build/Commands.antt =====
-- The blocks of a command as the actions of impl/parser.y build it.
use mathlib.Core.Option
use operating_system_profoli.Base.{
  ℕ, ◌≡◌, refl, ◌∙◌, ap, false, some, List, [], ◌∷◌, ◌++◌, Text, arith,
}
use operating_system_profoli.Command.{
  Args, Command, command, no_command, no_redirect, pipe_redirect,
}
use operating_system_profoli.Command.Arguments as ArgumentVector
use operating_system_profoli.Memory.{occurrences, malloc}
use operating_system_profoli.Memory.Owned.{
  Same, Makes, Makes-then, Makes-mono, occurrences-append, occurrences-append_append, Same-swap,
  Frees-free,
}
use operating_system_profoli.Memory.Blocks.{
  HeapArgs, HeapRedirects, null_redirect, heap_pipe, HeapCommand, heap_command, null_command,
  erase_redirects, erase_command, args_blocks, command_blocks, redirects_blocks,
}
use operating_system_profoli.Memory.Build.{
  create_arguments, build_words, build_parameters, build_files, join_pipe, create_command,
  finish_command, build_command,
}
use operating_system_profoli.Memory.Build.Arguments.{
  >>=-some, IsVector, create_arguments-Makes, build_words-Makes, set_argument-Makes,
}
use operating_system_profoli.Memory.Build.Redirects.{
  IsErased, files-built, build_files-Makes, join_pipe-Makes,
}
use operating_system_profoli.Parser.{CommandTree, last, piped}
use operating_system_profoli.Parser.Actions as Actions
use operating_system_profoli.Parser.Actions.{short_name, pipe_type}

abbrev pub IsCommand : Command → HeapCommand → Type 0
IsCommand c pc = erase_command pc ≡ c

module _ (alloc : List ℕ → ℕ) where
  finish_command-Makes :
      (word : ℕ) (z : Text) (pa : HeapArgs) (pr : HeapRedirects) (args args' : Args)
      (live rest : List ℕ)
      → IsVector args pa
      → ArgumentVector.set_argument args 0 (some (short_name z)) ≡ some args'
      → Same live (args_blocks pa ++ (redirects_blocks pr ++ (word ∷ rest)))
      → Makes
          (IsCommand (command z false args' (erase_redirects pr) no_command))
          command_blocks
          rest
          (finish_command alloc word z pa pr live)
  unfolding finish_command create_command malloc occurrences command_blocks erase_command
  finish_command-Makes word z pa pr args args' live rest is run h =
      let (pa', less, set_run, e, left) =
        set_argument-Makes alloc pa (short_name z) args args' live
          (redirects_blocks pr ++ (word ∷ rest)) is run h in
      let block = alloc less in
      let name = alloc (block ∷ less) in
      let pc = heap_command block name z false pa' pr null_command in
      let (live', freed, left') =
        Frees-free word (name ∷ block ∷ less) (command_blocks pc ++ rest) (λ c. omega (
          arith,
          left c,
          occurrences-append_append c (args_blocks pa') (redirects_blocks pr) (word ∷ rest),
          occurrences-append c (args_blocks pa' ++ (redirects_blocks pr ++ [])) rest,
          occurrences-append_append c (args_blocks pa') (redirects_blocks pr) [],
        )) in
      (pc, live', rw (set_run, freed) refl, rw e refl, left')

  build_parameters-Makes :
      (ws : List Text) (vector : Args) (live rest : List ℕ)
      → ArgumentVector.append_all ArgumentVector.create_arguments ws ≡ some vector
      → Same live rest
      → Makes (IsVector vector) args_blocks rest (build_parameters alloc ws live)
  unfolding build_parameters
  build_parameters-Makes ws vector live rest run h =
      Makes-then (IsVector ArgumentVector.create_arguments) (IsVector vector) args_blocks
        args_blocks rest rest (create_arguments alloc live) (λ pa. build_words alloc pa ws)
        (create_arguments-Makes alloc live rest h)
        λ pa less is left.
          build_words-Makes alloc pa ws vector less rest (refl, is.1) (rw (is.0) run) left

  pub build_command-Makes :
      (t : CommandTree) (c : Command) (live rest : List ℕ)
      → Actions.build_command t ≡ some c
      → Same live rest
      → Makes (IsCommand c) command_blocks rest (build_command alloc t live)
  unfolding build_command Actions.build_command Actions.build_arguments malloc occurrences
      redirects_blocks erase_redirects
  build_command-Makes (last z ws fs) c live rest run h =
      let word = alloc live in
      let (pa_text, args_run, after_args) = >>=-some (Actions.build_arguments z ws) _ c run in
      let (vector, words_run, set_run) =
        >>=-some (ArgumentVector.append_all ArgumentVector.create_arguments ws) _ pa_text
          args_run in
      let (files_text, files_run, made) = >>=-some (Actions.build_files fs) _ c after_args in
      Makes-then (IsVector vector) (IsCommand c) args_blocks command_blocks (word ∷ rest) rest
        (build_parameters alloc ws (word ∷ live)) _
        (build_parameters-Makes ws vector (word ∷ live) (word ∷ rest) words_run
          (λ b. omega (arith, h b)))
        λ pa live1 is1 left1.
          Makes-then (IsErased files_text) (IsCommand c) redirects_blocks command_blocks
            (args_blocks pa ++ (word ∷ rest)) rest (build_files alloc fs live1) _
            (build_files-Makes alloc fs files_text live1 (args_blocks pa ++ (word ∷ rest)) files_run
              left1)
            λ pr live2 e2 left2.
              Makes-mono (IsCommand (command z false pa_text (erase_redirects pr) no_command))
                (IsCommand c) command_blocks rest (finish_command alloc word z pa pr live2)
                (λ pc e.
                  e
                  ∙ ap (λ r. command z false pa_text r no_command) e2
                  ∙ Option.some-injective _ c made)
                (finish_command-Makes word z pa pr vector pa_text live2 rest is1 set_run
                  (Same-swap live2 (redirects_blocks pr) (args_blocks pa) (word ∷ rest) left2))
  build_command-Makes (piped z ws fs p t) c live rest run h =
      let word = alloc live in
      let (pa_text, args_run, after_args) = >>=-some (Actions.build_arguments z ws) _ c run in
      let (vector, words_run, set_run) =
        >>=-some (ArgumentVector.append_all ArgumentVector.create_arguments ws) _ pa_text
          args_run in
      let (inner, inner_run, after_inner) = >>=-some (Actions.build_command t) _ c after_args in
      let (piped_text, piped_run, made) =
        >>=-some (Actions.build_piped fs (pipe_redirect (pipe_type p) inner no_redirect)) _ c
          after_inner in
      let (files_text, files_run) =
        files-built fs (pipe_redirect (pipe_type p) inner no_redirect) piped_text piped_run in
      Makes-then (IsVector vector) (IsCommand c) args_blocks command_blocks (word ∷ rest) rest
        (build_parameters alloc ws (word ∷ live)) _
        (build_parameters-Makes ws vector (word ∷ live) (word ∷ rest) words_run
          (λ b. omega (arith, h b)))
        λ pa live1 is1 left1.
          Makes-then (IsErased files_text) (IsCommand c) redirects_blocks command_blocks
            (args_blocks pa ++ (word ∷ rest)) rest (build_files alloc fs live1) _
            (build_files-Makes alloc fs files_text live1 (args_blocks pa ++ (word ∷ rest)) files_run
              left1)
            λ files live2 e2 left2.
              Makes-then (IsCommand inner) (IsCommand c) command_blocks command_blocks
                (redirects_blocks files ++ (args_blocks pa ++ (word ∷ rest))) rest
                (build_command alloc t live2) _
                (build_command-Makes t inner live2
                  (redirects_blocks files ++ (args_blocks pa ++ (word ∷ rest))) inner_run left2)
                λ pc0 live3 e3 left3.
                  let block = alloc live3 in
                  Makes-then (IsErased piped_text) (IsCommand c) redirects_blocks command_blocks
                    (args_blocks pa ++ (word ∷ rest)) rest
                    (join_pipe fs files (heap_pipe block (pipe_type p) pc0 null_redirect)
                      (block ∷ live3))
                    _
                    (join_pipe-Makes fs files (heap_pipe block (pipe_type p) pc0 null_redirect)
                      piped_text (block ∷ live3) (args_blocks pa ++ (word ∷ rest)) (rw e2 files_run)
                      (rw e3 piped_run)
                      (λ b. omega (
                        arith,
                        left3 b,
                        occurrences-append b (command_blocks pc0)
                            (redirects_blocks files ++ (args_blocks pa ++ (word ∷ rest))),
                        occurrences-append b (redirects_blocks files)
                            (args_blocks pa ++ (word ∷ rest)),
                        occurrences-append b (redirects_blocks files) (
                            block
                            ∷ ((command_blocks pc0 ++ []) ++ (args_blocks pa ++ (word ∷ rest)))),
                        occurrences-append b (command_blocks pc0 ++ [])
                            (args_blocks pa ++ (word ∷ rest)),
                        occurrences-append b (command_blocks pc0) [],
                      )))
                    λ pr live4 e4 left4.
                      Makes-mono
                        (IsCommand (command z false pa_text (erase_redirects pr) no_command))
                        (IsCommand c) command_blocks rest (finish_command alloc word z pa pr live4)
                        (λ pc e.
                          e
                          ∙ ap (λ r. command z false pa_text r no_command) e4
                          ∙ Option.some-injective _ c made)
                        (finish_command-Makes word z pa pr vector pa_text live4 rest is1 set_run (
                          Same-swap live4 (redirects_blocks pr) (args_blocks pa) (word ∷ rest)
                            left4))
