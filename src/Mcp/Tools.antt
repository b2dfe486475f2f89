-- ===== src/Mcp/Tools.antt =====
-- The tools of cmd/ptyrelay-mcp/tools.go over a backend. The values of the backend, the JSON codec and the
-- texts of errors are parameters.
use ptyrelay.Base.{
  ℕ, zero, suc, ◌-◌, ◌+◌, ◌/◌, ◌%◌, ◌^◌, Bool, true, false, ◌||◌, not, Bytes, [], ◌∷◌, ◌++◌, Option,
  none, some, if◌then◌else◌, ltb, length, codes, ℤ, pos, negsuc,
}
use ptyrelay.Bytes.Split.{is_empty}
use ptyrelay.Backend.{Call, read, write, stat, lstat, list, mkdir_all, rename, remove, run}
use ptyrelay.Shell.State.{is_zero}

-- `toolsCallResult`, whose content is one text.
pub record ToolResult : Type 0 where
  pub text : Bytes
  pub is_error : Bool

abbrev pub text_content : Bytes → ToolResult
text_content text = record { text = text; is_error = false }

abbrev pub error_content : Bytes → ToolResult
error_content text = record { text = text; is_error = true }

-- The arguments of the tools as they are decoded; a member that is missing has its zero value.
pub record Args : Type 0 where
  pub path : Bytes
  pub contents : Bytes
  pub mode : ℤ
  pub command : Bytes
  pub stdin : Bytes
  pub old_path : Bytes
  pub new_path : Bytes
  pub follow : Option Bool

-- A number in digits of a base, in front of a text. An `int` has nineteen decimal digits at most, and a
-- mode eleven octal ones.
abbrev pub digits_onto : ℕ → ℕ → ℕ → Bytes → Bytes
digits_onto base zero n rest = rest
digits_onto base (suc fuel) n rest =
    let digits = (b'0' + n % base) ∷ rest in
    elim (n / base) [ zero ↦ digits | suc m ↦ digits_onto base fuel (suc m) digits ]

abbrev pub format_decimal : ℤ → Bytes
format_decimal (pos n) = digits_onto 10 20 n []
format_decimal (negsuc n) = b'-' ∷ digits_onto 10 20 (suc n) []

abbrev pub format_mode : ℕ → Bytes
format_mode n = digits_onto 8 11 n []

-- `os.FileMode` of an `int`, which has 32 bits.
abbrev pub file_mode : ℤ → ℕ
file_mode (pos n) = n % 2 ^ 32
file_mode (negsuc n) = 2 ^ 32 - 1 - n % 2 ^ 32

abbrev pub mode_or : ℕ → ℕ → ℕ
mode_or default zero = default
mode_or default (suc n) = suc n

-- What a tool reads off a value: the bytes of a file, the output of a command, or the value in JSON.
pub record Values (V : Type 0) : Type 0 where
  pub content : V → Bytes
  pub stdout : V → Bytes
  pub stderr : V → Bytes
  pub exit_code : V → ℤ
  pub json : V → Bytes

module _ {W V E : Type 0} (values : Values V) (error_text : E → Bytes)
    (call : Call → W → W × V × Option E) where
  -- A call of the backend, and the texts for its value and its error.
  abbrev pub answered : (V → ToolResult) → Bytes → V → Option E → ToolResult
  answered show failing v none = show v
  answered show failing v (some e) = error_content (failing ++ error_text e)

  unfoldable pub ask : Call → (V → ToolResult) → Bytes → W → W × ToolResult
  ask c show failing w = let (u, v, e) = call c w in (u, answered show failing v e)

  abbrev pub refuse : Bytes → W → W × ToolResult
  refuse text w = (w, error_content text)

  abbrev pub said : Bytes → V → ToolResult
  said text v = text_content text

  abbrev pub shown : V → ToolResult
  shown v = text_content (values.json v)

  abbrev pub about : Bytes → Bytes → Bytes
  about what path = what ++ (path ++ codes ": ")

  unfoldable pub tool_read_file : Option Args → W → W × ToolResult
  tool_read_file none = refuse (codes "read_file: missing required arg 'path'")
  tool_read_file (some a) =
      if is_empty a.path
      then refuse (codes "read_file: missing required arg 'path'")
      else ask (read a.path) (λ v. text_content (values.content v)) (about (codes "read ") a.path)

  unfoldable pub tool_write_file : Option Args → W → W × ToolResult
  tool_write_file none = refuse (codes "write_file: missing 'path' or bad args")
  tool_write_file (some a) =
      if is_empty a.path
      then refuse (codes "write_file: missing 'path' or bad args")
      else ask (write a.path a.contents (mode_or 420 (file_mode a.mode)))
          (said (
            codes "wrote "
            ++ (format_decimal (pos (length a.contents)) ++ (codes " bytes to " ++ a.path))))
          (about (codes "write ") a.path)

  abbrev pub section_of : Bytes → Bytes → Bytes
  section_of title b = if ltb 0 (length b) then title ++ (b ++ codes "\n") else []

  -- The text of a command's result; another exit code than 0 marks it as an error.
  abbrev pub command_result : V → ToolResult
  command_result v = record {
    text =
        codes "exit_code: "
        ++ (format_decimal (values.exit_code v)
            ++ (codes "\n"
                ++ (section_of (codes "stdout:\n") (values.stdout v)
                    ++ section_of (codes "stderr:\n") (values.stderr v))));
    is_error = not (is_zero (values.exit_code v));
  }

  unfoldable pub tool_run_command : Option Args → W → W × ToolResult
  tool_run_command none = refuse (codes "run_command: missing 'command'")
  tool_run_command (some a) =
      if is_empty a.command
      then refuse (codes "run_command: missing 'command'")
      else ask (run a.command a.stdin) command_result (codes "run: ")

  unfoldable pub tool_list_dir : Option Args → W → W × ToolResult
  tool_list_dir none = refuse (codes "list_dir: missing 'path'")
  tool_list_dir (some a) =
      if is_empty a.path
      then refuse (codes "list_dir: missing 'path'")
      else ask (list a.path) shown (about (codes "list ") a.path)

  unfoldable pub tool_mkdir : Option Args → W → W × ToolResult
  tool_mkdir none = refuse (codes "mkdir: missing 'path' or bad args")
  tool_mkdir (some a) =
      let mode = mode_or 493 (file_mode a.mode) in
      if is_empty a.path
      then refuse (codes "mkdir: missing 'path' or bad args")
      else ask (mkdir_all a.path mode)
          (said
            (codes "created " ++ (a.path ++ (codes " (mode " ++ (format_mode mode ++ codes ")")))))
          (about (codes "mkdir ") a.path)

  unfoldable pub tool_rename : Option Args → W → W × ToolResult
  tool_rename none = refuse (codes "rename: missing 'old_path' or 'new_path'")
  tool_rename (some a) =
      let pair = a.old_path ++ (codes " -> " ++ a.new_path) in
      if is_empty a.old_path || is_empty a.new_path
      then refuse (codes "rename: missing 'old_path' or 'new_path'")
      else ask (rename a.old_path a.new_path) (said (codes "renamed " ++ pair))
          (about (codes "rename ") pair)

  unfoldable pub tool_remove : Option Args → W → W × ToolResult
  tool_remove none = refuse (codes "remove: missing 'path'")
  tool_remove (some a) =
      if is_empty a.path
      then refuse (codes "remove: missing 'path'")
      else ask (remove a.path) (said (codes "removed " ++ a.path)) (about (codes "remove ") a.path)

  -- A pointer that is nil asks to follow.
  abbrev pub follows : Option Bool → Bool
  follows none = true
  follows (some b) = b

  unfoldable pub tool_stat : Option Args → W → W × ToolResult
  tool_stat none = refuse (codes "stat: missing 'path'")
  tool_stat (some a) =
      if is_empty a.path
      then refuse (codes "stat: missing 'path'")
      else ask (if follows a.follow then stat a.path else lstat a.path) shown
          (about (codes "stat ") a.path)
