-- ===== src/Lib.antt =====
-- The ish shell of this repository: a model of ish-Shell/impl/ish.c, of its lexer and grammar in
-- ish-Shell/impl/lexer.l and parser.y, and of the parts of ish-Shell/impl/command.c that build,
-- print and destroy a command.
--
-- The program. `main` reads ~/.ishrc and then its input with `processCommands`, which takes one
-- line of commands after the other from `nextCommand`: the lexer makes tokens of the bytes, and
-- the actions of the grammar build the commands. Each command of a line is renamed by the alias
-- table (`func_aliasing`) and handed to `ExecCommand`. That runs a built-in command in the shell,
-- or makes a job: it forks one child for each stage of the pipeline (`ExecProcess`), and waits
-- for the job, or leaves it in the background. Before a prompt `func_JobNotification` takes the
-- reports of `waitpid` and tells the user about stopped and completed jobs.
--
-- The files.
--   Base            lists, texts, tokens and arrays: helpers that all parts share.
--   Command         command.h: the records of a parsed command. Command.Arguments is createArguments,
--                   setArgument, getArgument, appendArgument and printArguments; Command.Build is
--                   createCommand, appendCommand, createRedirect and appendRedirect; Command.Print is
--                   printCommand and printRedirect.
--   Lexer           lexer.l: the automaton of its pattern for a word, and its rules. Lexer.Classes
--                   is its classes, Lexer.Escape is copyEscapedString; Lexer.Words and Lexer.Quotes are about words.
--   Parser          parser.y: the derivations as trees, the tokens that each derives, and a parser.
--                   Parser.Actions is the actions, with nextCommand of command.c; Correct and Sound
--                   are about the parser; Render, Printed, Scanned and RoundTrip lead from commands to
--                   what printCommand prints and back.
--   Memory          the blocks that command.c, the actions of parser.y and func_aliasing allocate and
--                   free. Memory.Owned says what it is to own blocks; Blocks is the structs with their
--                   blocks; Destroy is destroyCommand, destroyRedirect and destroyArguments; Build is
--                   what makes them, and the use of a line in processCommands; Jobs is AllocJobMem and
--                   the blocks of the job list.
--   Shell           the globals and structs of ish.c, the system calls and the monad of its functions.
--                   Shell.Descriptors says what each descriptor stands for after the calls made.
--   Table           what the alias table and the environment have in common.
--   Alias           func_alias, func_unalias and func_aliasing.
--   Env             func_setenv, func_unsetenv and EnvGetVars.
--   Dir             func_cd and FixDirPath, which takes `.` for a directory: Dir.Fix has the directories
--                   as the code counts them, and as a path without `.` means them.
--   Redirect        NextPipelineCommand, CheckPipelineAmbiguity and func_IORedirection.
--   ExecPath        GetExecPath and func_CheckFilePermission, each with its own loop.
--   Jobs            Status is PrintInfoJobs; Update is UpdatedProcessStatus and UpdatedJobStatus;
--                   Control is MakeJobBackGround, MakeJobForeGround, DisplayActiveJobs and
--                   DisplayProcessIDs; Commands is func_fg, func_bg and func_kill; Notify is
--                   func_JobNotification.
--   Builtin         CheckBuiltInCommands and ExecuteBuiltInComds. The modules called Keeps are about
--                   the descriptors and each part.
--   Exec            ExecProcess, and the built-in commands in ExecCommand.
--   Launch          the rest of ExecCommand.
--   Driver          processCommands and main.
--   Tests           inputs for the theorems.
--
-- How the code is modelled. A function of ish.c is a function of the shell's state that ends in
-- an outcome: it returns with a new state, it leaves the process by `exit`, it blocks in a `waitpid`
-- that never comes back, or it does what C leaves undefined (`fault`): a write or read outside a
-- buffer, a null pointer, a variable never set. A buffer of WORD_SIZE bytes holds texts of less than 1024 bytes, and each strcpy and
-- strcat into one is tested for that; the arrays of WORD_LIMIT entries are functions with a
-- count. Every system call is recorded, newest first, and answered by a record `Os`, which may
-- depend on all earlier calls and about which nothing is assumed. The reports of `waitpid` are a
-- list in the state. Behind the last one a `waitpid` with WNOHANG gives 0 or -1, which the code does
-- not tell apart, and one that blocks gives -1 where there is no child and else never comes back. A
-- list of jobs, processes or redirections is a list; where the code holds a pointer to a job, the
-- model has its place in the list. Loops are recursion on a list or on the number of rounds; the
-- loops around `waitpid` are recursion on the reports, so that no loop of ish.c needs fuel. A
-- fork is seen from the shell; the child is `exec_process`, a function of the values that the
-- fork records.
--
-- The two inputs, ~/.ishrc and the standard input, are texts: lists of bytes. The scanner takes
-- the longest match at each place, and the first rule of those, and goes through the whole input;
-- the tokens are then cut at the ends of the lines. The grammar is modelled by its derivations,
-- since bison's automaton accepts what the grammar derives: `read_line` finds the derivation of a
-- line by recursive descent. Its fuel is the number of tokens and one, which is enough since each
-- call takes a token, and Parser.Sound shows that no line is lost by it. A line without a
-- derivation is dropped to its end, as the production of `error` does.
--
-- Memory is a model beside this one. A block is a number; `malloc` and `strdup` give a block that a
-- parameter chooses, and every access to a block and every `free` of one is tested for being live. What
-- a line holds in its blocks is the line of the first model.
--
-- Not modelled: allocation that fails, fflush, the texts of strerror and of
-- strsignal, NUL bytes in the input, what the lexer prints at an invalid byte, the actions that
-- run before a syntax error is met, and the generated lex.yy.c and parser.tab.c. ish_bk.c,
-- ish_bk_v3.c, ish_Phase_II.c and ish_clean.c are older versions that are not built.
-- Chubby-lock-server is another program, in Go.
pub mod Base
pub mod Command
pub mod Lexer
pub mod Parser
pub mod Memory
pub mod Shell
pub mod Table
pub mod Alias
pub mod Env
pub mod Dir
pub mod Redirect
pub mod ExecPath
pub mod Jobs
pub mod Builtin
pub mod Exec
pub mod Launch
pub mod Driver
mod Tests
