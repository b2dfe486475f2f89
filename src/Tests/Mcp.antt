-- ===== src/Tests/Mcp.antt =====
-- The server on a few lines, with a backend that counts its calls.
use ptyrelay.Base.{
  ℕ, suc, true, Bytes, List, [], ◌∷◌, none, some, ◌⊎◌, inl, inr, codes, pos, negsuc, ◌≡◌, refl,
  if◌then◌else◌, ◌==◌,
}
use ptyrelay.Bytes.{same_bytes}
use ptyrelay.Mcp.{
  Peer, RpcRequest, reply, tool_done, run, run_lines, on_line, handle, handle_method, call_tool,
  dial, run_tool,
}
use ptyrelay.Mcp.Tools.{Args, text_content, format_decimal, ask, tool_remove}
use ptyrelay.Mcp.Answers.{Answered, asked, run-Answered}
use ptyrelay.Mcp.Config.{truthy, shell_of}
use ptyrelay.Session.Framed.{shell_zsh}
use ptyrelay.Bytes.Text.{trim_space}
use ptyrelay.Bytes.Split.{to_lower}

abbrev no_args : Args
no_args = record {
  path = [];
  contents = [];
  mode = pos 0;
  command = [];
  stdin = [];
  old_path = [];
  new_path = [];
  follow = none;
}

-- A line is the id of a call of `remove`; `x` is malformed and `n` is a notification.
abbrev parse : Bytes → Bytes ⊎ RpcRequest
parse [] = inl (codes "empty")
parse (c ∷ b) =
    if c == b'x'
    then inl (codes "malformed")
    else if c == b'n'
    then inr (record { id = none; method = codes "notifications/initialized"; params = [] })
    else inr (record { id = some (c ∷ b); method = codes "tools/call"; params = c ∷ b })

abbrev counting : Peer ℕ Unit Unit Bytes
counting = record {
  parse_request = parse;
  parse_call = λ b. inr (record { name = codes "remove"; arguments = b });
  parse_args = λ tool. λ b. some (record no_args { path = b });
  dial_from_config = λ w. (w, inr tt);
  teardown = λ c. λ w. w;
  call = λ c. λ q. λ w. (suc w, tt, none);
  agent_info = λ c. λ w. [];
  values = record {
    content = λ v. [];
    stdout = λ v. [];
    stderr = λ v. [];
    exit_code = λ v. pos 0;
    json = λ v. [];
  };
  error_text = λ e. e;
}

abbrev lines : List Bytes
lines = codes "1" ∷ [] ∷ codes "x" ∷ codes "n" ∷ codes "2" ∷ []

two_calls : (run counting lines none [] 0).world ≡ 2
unfolding run run_lines on_line handle handle_method call_tool dial run_tool tool_remove ask
    same_bytes
two_calls = refl

first_answer :
    (run counting (codes "1" ∷ []) none [] 0).written
    ≡ reply (codes "1") (tool_done (text_content (codes "removed 1"))) ∷ []
unfolding run run_lines on_line handle handle_method call_tool dial run_tool tool_remove ask
    same_bytes
first_answer = refl

digits : format_decimal (negsuc 41) ≡ codes "-42"
digits = refl

yes : truthy (codes " Yes\n") ≡ true
unfolding truthy trim_space to_lower same_bytes
yes = refl

zsh : shell_of (codes "ZSH") ≡ some shell_zsh
unfolding shell_of to_lower same_bytes
zsh = refl

run-Answered_example :
    let end = run counting lines none (none ∷ some (codes "broken pipe") ∷ []) 0 in
    Answered counting
      (asked counting lines)
      (none ∷ some (codes "broken pipe") ∷ [])
      end.written
      end.error
      none
run-Answered_example = run-Answered counting lines none (none ∷ some (codes "broken pipe") ∷ []) 0
