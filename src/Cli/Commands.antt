-- ===== src/Cli/Commands.antt =====
-- The subcommands of cmd/ptyrelay/cmd_exec.go, cmd_file.go and cmd_agent.go, behind the parsing of their flags: each
-- dials, does its one call, prints, and closes the connection. The exit codes are those of `main`.
use ptyrelay.Base.{
  Bool, true, not, Bytes, List, [], ◌∷◌, ◌++◌, Option, none, some, ◌⊎◌, inl, inr, if◌then◌else◌,
  ◌&&◌, codes, ℤ, pos,
}
use ptyrelay.Bytes.{join, replace_all}
use ptyrelay.Bytes.Split.{is_empty}
use ptyrelay.Backend.{Call, write, stat, lstat, list, open_read, run}
use ptyrelay.Cli.{CommonFlags, DialError, Connection, Maker, dial, teardown}
use ptyrelay.Mcp.Tools.{file_mode}

-- What the commands use of the local system and of the backend behind a connection. `copy_out` writes to a local file
-- that it creates, or to the standard output for an empty path; `show_value` and `show_entries` print.
pub record Local (W C V E : Type 0) : Type 0 where
  pub call : Connection C → Call → W → W × V × Option E
  pub read_stdin : W → W × (Bytes ⊎ Bytes)
  pub read_local : Bytes → W → W × (Bytes ⊎ Bytes)
  pub copy_out : Bytes → V → W → W × Option Bytes
  pub print_result : V → W → W
  pub show_value : V → W → W
  pub show_entries : Bool → V → W → W
  pub exit_code : V → ℤ
  pub say : Bytes → W → W
  pub complain : Bytes → W → W
  pub dial_text : DialError E → Bytes
  pub error_text : E → Bytes
  -- `Bootstrap` with a source, `VerifyInstall`, and the lines and the probe of `agent-info`.
  pub bootstrap : C → Option (Bytes → Bytes → Bytes × Bytes) → Bytes → Bytes → W → W × (E ⊎ Bytes)
  pub verify_install : C → Bytes → W → W × Option E
  pub agent_stat : C → Bytes → W → W × Option E
  pub agent_probe : C → Bytes → W → W × Option E
  pub embeds_agents : Bool

module _ {W C V E : Type 0} (maker : Maker W C E) (local : Local W C V E) where
  -- `fail`: the text goes to the error output.
  abbrev pub fail : Bytes → W → W × ℤ
  fail text w = (local.complain text w, pos 1)

  -- The deferred close.
  abbrev pub closed_after : Connection C → W × ℤ → W × ℤ
  closed_after conn (w, code) = (teardown maker conn.channel w, code)

  abbrev pub on_dialled : (Connection C → W → W × ℤ) → W → DialError E ⊎ Connection C → W × ℤ
  on_dialled body w (inl e) = fail (local.dial_text e) w
  on_dialled body w (inr conn) = closed_after conn (body conn w)

  unfoldable pub with_connection : CommonFlags → (Connection C → W → W × ℤ) → W → W × ℤ
  with_connection c body w = let (u, r) = dial maker c w in on_dialled body u r

  -- A call of the backend, and what follows its value.
  abbrev pub answered : Bytes → (V → W → W × ℤ) → W → V → Option E → W × ℤ
  answered what done w v none = done v w
  answered what done w v (some e) = fail (what ++ local.error_text e) w

  abbrev pub ask : Connection C → Call → Bytes → (V → W → W × ℤ) → W → W × ℤ
  ask conn q what done w = let (u, v, e) = local.call conn q w in answered what done u v e

  abbrev pub quiet : W → W × ℤ
  quiet w = (w, pos 0)

  abbrev pub misused : W → W × ℤ
  misused w = (w, pos 2)

  abbrev pub run_with : Bytes → Connection C → W → Bytes ⊎ Bytes → W × ℤ
  run_with cmd conn w (inl e) = fail (codes "read stdin: " ++ e) w
  run_with cmd conn w (inr stdin) =
      ask conn (run cmd stdin) (codes "run: ") (λ v u. (local.print_result v u, local.exit_code v))
        w

  abbrev pub stdin_of : Bool → W → W × (Bytes ⊎ Bytes)
  stdin_of wanted w = if wanted then local.read_stdin w else (w, inr [])

  -- `cmdExec`; the exit code is the command's.
  unfoldable pub cmd_exec : CommonFlags → Bool → List Bytes → W → W × ℤ
  cmd_exec c wanted [] = misused
  cmd_exec c wanted (arg ∷ args) =
      with_connection c λ conn w.
        let (u, r) = stdin_of wanted w in run_with (join (arg ∷ args) (codes " ")) conn u r

  abbrev pub copied : W → Option Bytes → W × ℤ
  copied w none = (w, pos 0)
  copied w (some e) = fail e w

  abbrev pub about : Bytes → Bytes → Bytes
  about what path = what ++ (path ++ codes ": ")

  -- `cmdGet`.
  unfoldable pub cmd_get : CommonFlags → Bytes → List Bytes → W → W × ℤ
  cmd_get c out_path (path ∷ []) = with_connection c λ conn.
      ask conn (open_read path) (about (codes "open ") path)
        λ v u. let (t, e) = local.copy_out out_path v u in copied t e
  cmd_get c out_path rest = misused

  abbrev pub put_data : CommonFlags → Bytes → Bytes → ℤ → W → Bytes ⊎ Bytes → W × ℤ
  put_data c from to mode w (inl e) = fail (about (codes "read ") from ++ e) w
  put_data c from to mode w (inr b) =
      with_connection c
        (λ conn. ask conn (write to b (file_mode mode)) (about (codes "write ") to) (λ v. quiet)) w

  -- `cmdPut`, which reads the local file before it dials.
  unfoldable pub cmd_put : CommonFlags → ℤ → List Bytes → W → W × ℤ
  cmd_put c mode (from ∷ to ∷ []) w =
      let (u, r) = local.read_local from w in put_data c from to mode u r
  cmd_put c mode rest w = misused w

  -- `cmdStat`.
  unfoldable pub cmd_stat : CommonFlags → Bool → List Bytes → W → W × ℤ
  cmd_stat c follow (path ∷ []) = with_connection c λ conn.
      ask conn (if follow then stat path else lstat path) (about (codes "stat ") path)
        λ v u. (local.show_value v u, pos 0)
  cmd_stat c follow rest = misused

  -- `cmdList`.
  unfoldable pub cmd_list : CommonFlags → Bool → List Bytes → W → W × ℤ
  cmd_list c long (path ∷ []) = with_connection c λ conn.
      ask conn (list path) (about (codes "list ") path) λ v u. (local.show_entries long v u, pos 0)
  cmd_list c long rest = misused

  -- The URL for a platform, from the template of the flag.
  abbrev pub url_for : Bytes → Bytes → Bytes → Bytes → Bytes × Bytes
  url_for template sha os arch =
      (replace_all (replace_all template (codes "{os}") os) (codes "{arch}") arch, sha)

  abbrev pub source_of : Bytes → Bytes → Option (Bytes → Bytes → Bytes × Bytes)
  source_of from_url sha = if is_empty from_url then none else some (url_for from_url sha)

  abbrev pub verified : W → Option E → W × ℤ
  verified w none = (local.say (codes "verified: ping ok\n") w, pos 0)
  verified w (some e) = fail (codes "verify: " ++ local.error_text e) w

  abbrev pub on_installed : Bool → C → W → E ⊎ Bytes → W × ℤ
  on_installed verify ch w (inl e) = fail (codes "bootstrap: " ++ local.error_text e) w
  on_installed verify ch w (inr path) =
      let u = local.say (codes "installed: " ++ (path ++ codes "\n")) w in
      if verify then (let (t, e) = local.verify_install ch path u in verified t e) else (u, pos 0)

  -- `cmdBootstrap`, which dials without the agent.
  unfoldable pub cmd_bootstrap : CommonFlags → Bool → Bytes → Bytes → W → W × ℤ
  cmd_bootstrap c verify from_url sha =
      if is_empty from_url && is_empty c.provider_dir && not local.embeds_agents
      then fail (
          codes
            "bootstrap: --from-url or --provider-dir is required (or rebuild with -tags embedagents)")
      else with_connection (record c { no_agent = true })
          λ conn w.
            let (u, r) =
              local.bootstrap conn.channel (source_of from_url sha) c.provider_dir c.agent_path w in
            on_installed verify conn.channel u r

  abbrev pub probed : W → Option E → W × ℤ
  probed w none = (local.say (codes "status:  healthy\n") w, pos 0)
  probed w (some e) =
      (local.say (codes "status:  unhealthy (" ++ (local.error_text e ++ codes ")\n")) w, pos 1)

  abbrev pub on_stat : C → Bytes → W → Option E → W × ℤ
  on_stat ch path w (some e) = fail (codes "stat agent: " ++ local.error_text e) w
  on_stat ch path w none = let (u, e) = local.agent_probe ch path w in probed u e

  abbrev pub info_of : C → Option Bytes → W → W × ℤ
  info_of ch none = fail (codes "agent-info requires the agent path (do not pass --no-agent)")
  info_of ch (some path) = λ w. let (u, e) = local.agent_stat ch path w in on_stat ch path u e

  -- `cmdAgentInfo`.
  unfoldable pub cmd_agent_info : CommonFlags → W → W × ℤ
  cmd_agent_info c = with_connection c λ conn. info_of conn.channel conn.agent_path
