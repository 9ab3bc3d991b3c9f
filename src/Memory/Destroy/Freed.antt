-- ===== src/Memory/Destroy/Freed.antt =====
-- What destroyCommand frees.
use operating_system_profoli.Base.{
  ℕ, ◌≤◌, ◌≡◌, refl, false, ◌==◌, Option, none, some, List, [], ◌∷◌, ◌++◌, arith,
}
use operating_system_profoli.Memory.{occurrences, Memory, pure, ◌>>◌, use_block, free}
use operating_system_profoli.Memory.Blocks.{
  HeapArgs, HeapCommand, heap_command, HeapCommands, null_command, heap_next, HeapRedirects,
  null_redirect, heap_file, heap_pipe, present, args_blocks, command_blocks, redirects_blocks,
  commands_blocks,
}
use operating_system_profoli.Memory.Owned.{
  Same, occurrences-append, one_of_self, Frees, Frees-free, Frees-then, Frees-mono, Frees-use,
}
use operating_system_profoli.Memory.Destroy.{
  free_entries, destroy_arguments, destroy_command, destroy_redirects, destroy_commands,
}

in_use :
    (b : ℕ) (xs live rest : List ℕ)
    → 1 ≤ occurrences b rest
    → Same live (xs ++ rest)
    → (occurrences b live == 0) ≡ false
in_use b xs live rest here h = ground (arith, h b, occurrences-append b xs rest)

Frees-nothing : Frees (pure tt) []
Frees-nothing live rest h = (live, refl, h)

-- While something is freed, a block of what is freed later is in use.
Frees-within :
    (b : ℕ) (m k : Memory (Unit {0})) (xs ys : List ℕ)
    → 1 ≤ occurrences b ys
    → Frees m xs
    → Frees k ys
    → Frees (use_block b >> (m >> k)) (xs ++ ys)
Frees-within b m k xs ys here first second =
    Frees-use b (m >> k) (xs ++ ys) (omega (arith, here, occurrences-append b xs ys))
      (Frees-then m k xs ys first second)

Frees-last : (b : ℕ) → Frees (use_block b >> free b) (b ∷ [])
unfolding occurrences
Frees-last b = Frees-use b (free b) (b ∷ []) (omega (arith, one_of_self b)) (Frees-free b)

-- The entries are freed while the struct and the array are in use.
free_entries-Frees :
    (block array : ℕ) (ss : List (Option ℕ)) (live rest : List ℕ)
    → 1 ≤ occurrences block rest
    → 1 ≤ occurrences array rest
    → Same live (present ss ++ rest)
    → (live' : List ℕ) × (free_entries block array ss live ≡ some (tt, live')) × Same live' rest
unfolding free_entries use_block
free_entries-Frees block array [] live rest in_block in_array h =
    (live, rw (in_use block [] live rest in_block h) refl, h)
free_entries-Frees block array (none ∷ ss) live rest in_block in_array h =
    let (live', run, left) = free_entries-Frees block array ss live rest in_block in_array h in
    (
      live',
      rw (
        in_use block (present ss) live rest in_block h,
        in_use array (present ss) live rest in_array h,
        run,
      ),
      left,
    )
free_entries-Frees block array (some s ∷ ss) live rest in_block in_array h =
    let (less, freed, kept) = Frees-free s live (present ss ++ rest) h in
    let (live', run, left) = free_entries-Frees block array ss less rest in_block in_array kept in
    (
      live',
      rw (
        in_use block (s ∷ present ss) live rest in_block h,
        in_use array (s ∷ present ss) live rest in_array h,
        freed,
        in_use array (present ss) less rest in_array kept,
        run,
      ),
      left,
    )

destroy_arguments-Frees : (pa : HeapArgs) → Frees (destroy_arguments pa) (args_blocks pa)
unfolding destroy_arguments occurrences
destroy_arguments-Frees pa live rest h =
    let (less, freed, kept) =
      free_entries-Frees pa.block pa.array pa.strings live (pa.array ∷ pa.block ∷ rest)
        (omega (arith, one_of_self pa.block)) (omega (arith, one_of_self pa.array))
        (λ b. omega (
          arith,
          h b,
          occurrences-append b (present pa.strings) (pa.array ∷ pa.block ∷ rest),
          occurrences-append b (present pa.strings) rest,
        )) in
    let (live', run, left) =
      Frees-within pa.block (free pa.array) (free pa.block) (pa.array ∷ []) (pa.block ∷ [])
        (omega (arith, one_of_self pa.block)) (Frees-free pa.array) (Frees-free pa.block) less rest
        kept in
    (live', rw (freed, run), left)

mutual
  unfolding destroy_command command_blocks occurrences

  pub destroy_command-Frees : (pc : HeapCommand) → Frees (destroy_command pc) (command_blocks pc)
  destroy_command-Frees (heap_command b z t bg a r n) =
      let args = args_blocks a ++ (b ∷ []) in
      let rs = redirects_blocks r ++ args in
      let ns = commands_blocks n ++ rs in
      let in_args : 1 ≤ occurrences b args =
        omega (arith, one_of_self b, occurrences-append b (args_blocks a) (b ∷ [])) in
      let in_rs : 1 ≤ occurrences b rs =
        omega (arith, in_args, occurrences-append b (redirects_blocks r) args) in
      let in_ns : 1 ≤ occurrences b ns =
        omega (arith, in_rs, occurrences-append b (commands_blocks n) rs) in
      let last =
        Frees-within b (destroy_arguments a) (use_block b >> free b) (args_blocks a) (b ∷ [])
          (omega (arith, one_of_self b)) (destroy_arguments-Frees a) (Frees-last b) in
      let later =
        Frees-within b (destroy_redirects r) _ (redirects_blocks r) args in_args
          (destroy_redirects-Frees r) last in
      let next =
        Frees-within b (destroy_commands n) _ (commands_blocks n) rs in_rs
          (destroy_commands-Frees n) later in
      Frees-mono (destroy_command (heap_command b z t bg a r n)) (z ∷ ns)
        (command_blocks (heap_command b z t bg a r n))
        (λ c. omega (
          arith,
          occurrences-append c (commands_blocks n) rs,
          occurrences-append c (redirects_blocks r) args,
          occurrences-append c (args_blocks a) (b ∷ []),
          occurrences-append c (args_blocks a) (redirects_blocks r ++ commands_blocks n),
          occurrences-append c (redirects_blocks r) (commands_blocks n),
        ))
        (Frees-within b (free z) _ (z ∷ []) ns in_ns (Frees-free z) next)

  destroy_redirects-Frees : (r : HeapRedirects) → Frees (destroy_redirects r) (redirects_blocks r)
  destroy_redirects-Frees null_redirect = Frees-nothing
  destroy_redirects-Frees (heap_file b f t name r) =
      Frees-mono (destroy_redirects (heap_file b f t name r)) (redirects_blocks r ++ (f ∷ b ∷ []))
        (b ∷ f ∷ redirects_blocks r)
        (λ c. omega (arith, occurrences-append c (redirects_blocks r) (f ∷ b ∷ [])))
        (Frees-within b (destroy_redirects r) _ (redirects_blocks r) (f ∷ b ∷ [])
          (omega (arith, one_of_self b)) (destroy_redirects-Frees r)
          (Frees-within b (free f) (free b) (f ∷ []) (b ∷ []) (omega (arith, one_of_self b))
            (Frees-free f) (Frees-free b)))
  destroy_redirects-Frees (heap_pipe b t pc r) =
      let behind = command_blocks pc ++ (b ∷ []) in
      let in_behind : 1 ≤ occurrences b behind =
        omega (arith, one_of_self b, occurrences-append b (command_blocks pc) (b ∷ [])) in
      Frees-mono (destroy_redirects (heap_pipe b t pc r)) (redirects_blocks r ++ behind)
        (b ∷ (command_blocks pc ++ redirects_blocks r))
        (λ c. omega (
          arith,
          occurrences-append c (redirects_blocks r) behind,
          occurrences-append c (command_blocks pc) (b ∷ []),
          occurrences-append c (command_blocks pc) (redirects_blocks r),
        ))
        (Frees-within b (destroy_redirects r) _ (redirects_blocks r) behind in_behind
          (destroy_redirects-Frees r)
          (Frees-within b (destroy_command pc) (free b) (command_blocks pc) (b ∷ [])
            (omega (arith, one_of_self b)) (destroy_command-Frees pc) (Frees-free b)))

  pub destroy_commands-Frees : (n : HeapCommands) → Frees (destroy_commands n) (commands_blocks n)
  destroy_commands-Frees null_command = Frees-nothing
  destroy_commands-Frees (heap_next pc) = destroy_command-Frees pc

-- Where the blocks of a command are live, destroyCommand returns, has freed each of them once, and leaves
-- the other live blocks.
pub destroy_command-Same :
    (pc : HeapCommand) (live rest : List ℕ)
    → Same live (command_blocks pc ++ rest)
    → (live' : List ℕ) × (destroy_command pc live ≡ some (tt, live')) × Same live' rest
destroy_command-Same pc live rest h = destroy_command-Frees pc live rest h
