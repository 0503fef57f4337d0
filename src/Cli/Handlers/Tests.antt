-- ===== src/Cli/Handlers/Tests.antt =====
-- internal/cli/handlers.go: the handlers of the README, run.
use adbfs.Base.{◌≤◌, ◌≡◌, refl, [], ◌∷◌, Text, codes, text_eq, length, none, replicate}
use adbfs.Strings.Parts.{split, join, trim_left, trim_right}
use adbfs.Cli.Handlers.{
  Values, model_handler_var, path_handler_var, serial_handler_var, expand_handler_vars, expand_from,
  get_shell_name, Running, create_handler_log_msg,
}
use adbfs.Cli.Handlers.Expansion.{Handler, plain, named, in_braces, written}
use adbfs.Cli.Handlers.Messages.{length-create_handler_log_msg}

abbrev values : Values
values =
    (path_handler_var, codes "/mnt/my $phone")
    ∷ (serial_handler_var, codes "s1")
    ∷ (model_handler_var, codes "Nexus 5")
    ∷ []

abbrev say : Handler
say = (plain (codes "say") ∷ [], (named model_handler_var ∷ []) ∷ [])

abbrev open_dcim : Handler
open_dcim = (
  plain (codes "open") ∷ [],
  (plain (codes "-a") ∷ []) ∷ (in_braces path_handler_var ∷ plain (codes "/DCIM") ∷ []) ∷ [],
)

abbrev running : Running
running = λ c. (codes " hello\n", none)

say_lem : ◌≡◌ {A = Text} (written say) (codes "say $ADBFS_MODEL")
unfolding join
say_lem = refl

expanded :
    expand_handler_vars
      (codes "$ADBFS_MODEL" ∷ codes "${ADBFS_PATH" ∷ codes "a$" ∷ codes "$1x" ∷ [])
      values
    ≡ codes "Nexus 5" ∷ codes "ADBFS_PATH" ∷ codes "a$" ∷ codes "x" ∷ []
unfolding expand_handler_vars expand_from get_shell_name text_eq
expanded = refl

-- An empty handler is a command with an empty name.
empty_handler : split 32 [] ≡ [] ∷ []
unfolding split
empty_handler = refl

logged :
    create_handler_log_msg (codes " hello\n") (codes "say x") (codes "handler completed\n")
    ≡ codes "handler completed\ncommand: say x\noutput: hello"
unfolding create_handler_log_msg trim_left trim_right
logged = refl

length-create_handler_log_msg_example :
    length (create_handler_log_msg (replicate 1000 b'x') (codes "say x") (codes "done\n")) ≤ 284
length-create_handler_log_msg_example =
    length-create_handler_log_msg (replicate 1000 b'x') (codes "say x") (codes "done\n")
