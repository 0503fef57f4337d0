-- ===== src/Cli/Handlers/Messages.antt =====
-- internal/cli/handlers.go: what is logged of a handler.
use adbfs.Base.{
  ℕ, ◌+◌, ◌≤◌, if◌then◌else◌, ltb, [], ◌∷◌, ◌++◌, Text, codes, length, length-append, length-take,
  take, arith,
}
use native.Mathlib.Nat.{le_trans}
use adbfs.Strings.Parts.{length-trim_space}
use adbfs.Cli.Handlers.{summary_size, output_summary, output_line, create_handler_log_msg}

length-cut_short : (n : ℕ) (s : Text) → length (if ltb n (length s) then take n s else s) ≤ n
length-cut_short n s = ground (arith, length-take n s)

length-output_summary : (output : Text) → length (output_summary output) ≤ 255
length-output_summary output = le_trans (length-trim_space _) (length-cut_short summary_size output)

length-output_line : (s : Text) → length (output_line s) ≤ length s + 9
length-output_line [] = omega arith
length-output_line (c ∷ s) = omega (arith, length-append (c ∷ s) (codes "\n"))

-- A log entry of a handler is bounded by its command line and its first line, however much the
-- command printed: at most 264 bytes are for the output, and 10 around the command line.
pub length-create_handler_log_msg :
    (output command_line headline : Text)
    → length (create_handler_log_msg output command_line headline)
      ≤ length headline + length command_line + 274
unfolding create_handler_log_msg
length-create_handler_log_msg output command_line headline =
    let command = codes "command: " ++ (command_line ++ codes "\n") in
    let line = output_line (output_summary output) in
    omega (
      arith,
      length-trim_space (headline ++ command ++ line),
      length-append (headline ++ command) line,
      length-append headline command,
      length-append command_line (codes "\n"),
      length-output_line (output_summary output),
      length-output_summary output,
    )
