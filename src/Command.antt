-- ===== src/Command.antt =====
-- impl/command.h and impl/command.c: the parsed command that the parser hands to the shell.
pub mod Arguments
pub mod Build
pub mod Print
use operating_system_profoli.Base.{
  ℕ, zero, suc, ◌+◌, ◌*◌, ◌≤◌, ◌≡◌, Bool, true, false, Option, none, some, List, [], ◌∷◌, ◌++◌,
  Text, write, leb, ltb, if◌then◌else◌, ◌==◌,
}

-- `struct _args`. `bytes` is the size of the block behind `azArgs`; a NULL entry is `none`.
pub record Args : Type 0 where
  pub n_args : ℕ
  pub n_max_args : ℕ
  pub az_args : ℕ → Option Text
  pub bytes : ℕ

-- The redirections that name a file, and those that name a command.
pub data FileType : Type 0 where
  redirect_in redirect_out redirect_error append append_error : FileType

pub data PipeType : Type 0 where
  pipe pipe_error : PipeType

-- `struct _command` and `struct _redirect`, each with the pointer to the next as a list: the
-- fields of `command` are zCmd, fBackground, pa, prRedirects and pcNext.
mutual
  pub data Command : Type 0 where
    command : Text → Bool → Args → Redirects → Commands → Command

  pub data Redirects : Type 0 where
    no_redirect : Redirects
    file_redirect : FileType → Text → Redirects → Redirects
    pipe_redirect : PipeType → Command → Redirects → Redirects

  pub data Commands : Type 0 where
    no_command : Commands
    next_command : Command → Commands

abbrev pub z_cmd : Command → Text
z_cmd (command z b a r n) = z

abbrev pub f_background : Command → Bool
f_background (command z b a r n) = b

abbrev pub pa : Command → Args
pa (command z b a r n) = a

abbrev pub pr_redirects : Command → Redirects
pr_redirects (command z b a r n) = r

abbrev pub pc_next : Command → Commands
pc_next (command z b a r n) = n

abbrev pub n_args : Command → ℕ
n_args pc = (pa pc).n_args
