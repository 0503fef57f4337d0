-- ===== src/Cli/Start.antt =====
-- internal/cli: `Initialize` of cli.go and `createLogger` of base_config.go. Parsing the command line,
-- the names of the log's levels and the debug server are libraries'.
mod Tests
use adbfs.Base.{
  ℕ, Bool, true, false, if◌then◌else◌, Text, [], ◌∷◌, Option, none, some, Outcome, done, panic,
}
use adbfs.Cli.Flags.{BaseConfig}
use adbfs.Cli.MountRoot.{Fatal, value, fatal}

-- `logrus.Level`, of which a lower number logs less.
abbrev pub Level : Type 0
Level = ℕ

abbrev pub debug_level : Level
debug_level = 5

-- `createLogger`, with the level that the logger gets.
abbrev parsed : Option Level → Fatal Level
parsed none = fatal
parsed (some level) = value level

unfoldable pub create_logger : (Text → Option Level) → BaseConfig → Fatal Level
create_logger parse_level c =
    if c.verbose then value debug_level else parsed (parse_level c.log_level)

-- What `Initialize` does after the command line was parsed: the logger's level, and whether the debug
-- server is started. It panics without a name, and the program ends if the level has no meaning.
pub record Initialized : Type 0 where
  pub level : Level
  pub debug_server : Bool

abbrev initialized : BaseConfig → Fatal Level → Fatal Initialized
initialized c fatal = fatal
initialized c (value level) = value (record { level = level; debug_server = c.serve_debug })

unfoldable pub initialize : (Text → Option Level) → Text → BaseConfig → Outcome (Fatal Initialized)
unfolding create_logger
initialize parse_level [] c = panic
initialize parse_level (a ∷ name) c = done (initialized c (create_logger parse_level c))
