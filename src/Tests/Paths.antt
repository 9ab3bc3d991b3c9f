-- ===== src/Tests/Paths.antt =====
-- Examples for the working directory, and for the search for a program.
use operating_system_profoli.Base.{
  ℕ, ◌≡◌, refl, [], ◌∷◌, ◌++◌, reverse, Text, codes, All, arith, if◌then◌else◌, tokens, join,
  str_eq, IsWord,
}
use operating_system_profoli.Command.{Command, z_cmd}
use operating_system_profoli.Shell.{Shell, done, fault, and_then, chdir, print_err, system_error}
use operating_system_profoli.Dir.{slash, fix_dir_path, func_cd}
use operating_system_profoli.Dir.Fix.{counted, walk, fix_dir_path-walk}
use operating_system_profoli.Dir.Escape.{fix_dir_path_escape}
use operating_system_profoli.Dir.Cd.{IsName, slashed, func_cd_relative}
use operating_system_profoli.ExecPath.{get_exec_path, func_check_file_permission}
use operating_system_profoli.ExecPath.Search.{or_not_found, func_check_file_permission_lem}
use operating_system_profoli.Tests.{friendly, simple, shell}

abbrev no_rows : ℕ → Text
no_rows i = []

-- A path that leaves the root in its middle, and one that does not.
abbrev up_and_down : Shell
up_and_down = record shell { curr_directory = codes "/home/me/../you/" }

abbrev above_root : Shell
above_root = record shell { curr_directory = codes "/home/../../tmp/" }

fix_dir_path-walk_example :
    fix_dir_path no_rows up_and_down
    ≡ done tt (record up_and_down {
      curr_directory = slash ∷ join slash (reverse (codes "you" ∷ codes "home" ∷ []));
    })
unfolding walk tokens join str_eq
fix_dir_path-walk_example =
    fix_dir_path-walk no_rows (codes "you" ∷ codes "home" ∷ []) up_and_down refl
      (λ q. cc, (λ q. cc, (λ q. cc, (λ q. cc, tt)))) refl refl

fix_dir_path_escape_example : fix_dir_path no_rows above_root ≡ fault
unfolding counted tokens str_eq
fix_dir_path_escape_example =
    fix_dir_path_escape no_rows (codes "home" ∷ codes ".." ∷ []) [] (codes "tmp") above_root refl
      refl refl (λ q. cc)

abbrev cd_up : Command
cd_up = simple (codes "cd") (codes "../you" ∷ [])

home_me-IsWord : All (IsWord slash) (codes "home" ∷ codes "me" ∷ [])
home_me-IsWord = (
  (
    λ q. cc,
    (
      λ q. omega (arith, q),
      (λ q. omega (arith, q), (λ q. omega (arith, q), (λ q. omega (arith, q), tt))),
    ),
  ),
  ((λ q. cc, (λ q. omega (arith, q), (λ q. omega (arith, q), tt))), tt),
)

home_me-IsName : All IsName (codes "home" ∷ codes "me" ∷ [])
home_me-IsName =
    (((home_me-IsWord.0, λ q. cc), λ q. cc), (((home_me-IsWord.1.0, λ q. cc), λ q. cc), tt))

func_cd_relative_example :
    All IsName (reverse (codes "you" ∷ codes "home" ∷ []))
    × (func_cd friendly no_rows cd_up shell ≡ (
        if friendly.chdir_ok shell.calls (shell.curr_directory ++ slashed (codes "../you"))
        then done tt (record shell {
          curr_directory = slash ∷ join slash (reverse (codes "you" ∷ codes "home" ∷ []));
          calls = chdir (shell.curr_directory ++ slashed (codes "../you")) ∷ shell.calls;
        })
        else done tt (record shell {
          calls =
              print_err (system_error (z_cmd cd_up))
              ∷ chdir (shell.curr_directory ++ slashed (codes "../you"))
              ∷ shell.calls;
        })))
unfolding walk tokens join str_eq
func_cd_relative_example =
    func_cd_relative friendly no_rows cd_up (codes "../you") (codes "home" ∷ codes "me" ∷ [])
      (codes "you" ∷ codes "home" ∷ []) shell refl home_me-IsName refl refl (λ q. cc) refl refl refl
      refl (λ q. cc, (λ q. cc, tt)) refl refl

func_check_file_permission_lem_example :
    func_check_file_permission friendly (simple (codes "ls") []) shell
    ≡ and_then
        (get_exec_path friendly (simple (codes "ls") []) shell)
        (or_not_found friendly (simple (codes "ls") []))
func_check_file_permission_lem_example =
    func_check_file_permission_lem friendly (simple (codes "ls") []) shell refl refl
