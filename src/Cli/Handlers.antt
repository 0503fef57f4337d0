-- ===== src/Cli/Handlers.antt =====
-- internal/cli/handlers.go: the commands that are run after a mount and after an unmount. `os.Expand`
-- is that of Go 1.6, which replaces a name that is not there as any other. Running a command is a
-- parameter.
pub mod Expansion
pub mod Messages
mod Tests
use adbfs.Base.{
  ℕ, zero, suc, ◌+◌, Bool, true, false, not, ◌&&◌, ◌||◌, if◌then◌else◌, ltb, leb, ◌==◌, List, [],
  ◌∷◌, ◌++◌, map, Text, codes, text_eq, length, take, Option, none, some,
}
use adbfs.Strings.{is_digit}
use adbfs.Strings.Parts.{split, join, trim_space}

-- The constants of this file.
abbrev pub path_handler_var : Text
path_handler_var = codes "ADBFS_PATH"

abbrev pub serial_handler_var : Text
serial_handler_var = codes "ADBFS_SERIAL"

abbrev pub model_handler_var : Text
model_handler_var = codes "ADBFS_MODEL"

-- A map from names to values, in the order in which a loop over it comes by them.
abbrev pub Values : Type 0
Values = List (Text × Text)

-- What reading a missing name gives is the empty text.
unfoldable pub value_of : Values → Text → Text
value_of [] name = []
value_of ((k, v) ∷ vs) name = if text_eq k name then v else value_of vs name

-- `isShellSpecialVar` and `isAlphaNum` of package os.
abbrev pub is_special : ℕ → Bool
is_special c =
    c == b'*'
    || c == b'#'
    || c == b'$'
    || c == b'@'
    || c == b'!'
    || c == b'?'
    || c == b'-'
    || is_digit c

abbrev pub is_alpha_num : ℕ → Bool
is_alpha_num c = c == b'_' || is_digit c || leb b'a' c && leb c b'z' || leb b'A' c && leb c b'Z'

-- The bytes at the front that the test accepts.
unfoldable pub front : (ℕ → Bool) → Text → Text
front test [] = []
front test (c ∷ s) = if test c then c ∷ front test s else []

-- What stands before the first brace that closes, if there is one.
unfoldable pub to_brace : Text → Option Text
to_brace [] = none
to_brace (c ∷ s) =
    if c == b'}' then some [] else elim (to_brace s) [ none ↦ none | some n ↦ some (c ∷ n) ]

-- `getShellName`: the name that a text after a dollar begins with, and its width. A special variable
-- in braces is a name in braces like others.
abbrev braced : Option Text → Text × ℕ
braced none = ([], 1)
braced (some n) = (n, length n + 2)

unfoldable pub get_shell_name : Text → Text × ℕ
unfolding front to_brace
get_shell_name [] = ([], 0)
get_shell_name (c ∷ s) =
    if c == b'{'
    then braced (to_brace s)
    else if is_special c
    then (c ∷ [], 1)
    else (let n = front is_alpha_num (c ∷ s) in (n, length n))

-- One round of `os.Expand` at a byte: what it writes, and how many bytes it passes over.
abbrev pub expand_at : (Text → Text) → ℕ → Text → Text × ℕ
expand_at mapping c [] = (c ∷ [], 0)
expand_at mapping c (d ∷ s) =
    if c == b'$' then (let (name, w) = get_shell_name (d ∷ s) in (mapping name, w)) else (c ∷ [], 0)

-- The loop, with the bytes that are yet to be passed over.
unfoldable pub expand_from : (Text → Text) → ℕ → Text → Text
expand_from mapping n [] = []
expand_from mapping (suc n) (c ∷ s) = expand_from mapping n s
expand_from mapping zero (c ∷ s) =
    let (out, w) = expand_at mapping c s in out ++ expand_from mapping w s

abbrev pub expand : (Text → Text) → Text → Text
expand mapping s = expand_from mapping 0 s

unfoldable pub expand_handler_vars : List Text → Values → List Text
unfolding value_of
expand_handler_vars strs values = map (λ str. expand (value_of values) str) strs

-- `appendToEnv`, in the list's order: the source takes the entries of its map, whose keys are all
-- different, in any order.
unfoldable pub append_to_env : List Text → Values → List Text
append_to_env environ [] = environ
append_to_env environ ((k, v) ∷ vs) = append_to_env (environ ++ (k ++ b'=' ∷ v) ∷ []) vs

-- `exec.Cmd`, of `exec.Command` with the environment set.
pub record Command : Type 0 where
  pub name : Text
  pub arguments : List Text
  pub env : List Text

-- What running a command gives: its output, and the error's text.
abbrev pub Running : Type 0
Running = Command → Text × Option Text

pub data Level : Type 0 where
  debug_level warn_level : Level

-- `createHandlerLogMsg`, of the text that its format and arguments make.
abbrev pub summary_size : ℕ
summary_size = 255

abbrev pub output_summary : Text → Text
output_summary output =
    trim_space (if ltb summary_size (length output) then take summary_size output else output)

abbrev output_line : Text → Text
output_line [] = []
output_line (c ∷ s) = codes "output: " ++ (c ∷ s) ++ codes "\n"

unfoldable pub create_handler_log_msg : Text → Text → Text → Text
create_handler_log_msg output command_line headline = trim_space (
    headline
    ++ (codes "command: " ++ command_line ++ codes "\n")
    ++ output_line (output_summary output))

abbrev finished : Text → Text → Text × Option Text → Level × Text
finished serial command_line (output, some e) = (
  warn_level,
  create_handler_log_msg output command_line
      (codes "handler exited with error for " ++ serial ++ codes ": " ++ e ++ codes "\n"),
)
finished serial command_line (output, none) = (
  debug_level,
  create_handler_log_msg output command_line
      (codes "handler completed successfully for " ++ serial ++ codes "\n"),
)

-- `executeHandlerIgnoringErrors`: the command that is run, and what is logged of its end.
pub record Executed : Type 0 where
  pub command : Command
  pub level : Level
  pub message : Text

unfoldable pub execute_handler : Running → Text → List Text → List Text → Option Executed
execute_handler running serial [] env = none
execute_handler running serial (name ∷ args) env =
    let command : Command = record { name = name; arguments = args; env = env } in
    let (level, message) = finished serial (join 32 (name ∷ args)) (running command) in
    some (record { command = command; level = level; message = message })

-- `FireHandlers`, whose handlers run beside one another: what becomes of each.
unfoldable pub fire_handlers : Running → List Text → List Text → Values → List (Option Executed)
unfolding value_of expand_handler_vars append_to_env
fire_handlers running environ handlers values =
    map
      (λ handler.
        execute_handler running (value_of values serial_handler_var)
          (expand_handler_vars (split 32 handler) values) (append_to_env environ values))
      handlers
