-- ===== src/Mcp/Config.antt =====
-- cmd/ptyrelay-mcp/config.go: what the environment asks for, and the connection that is made of it. The
-- transports, the session and the router's probe are parameters.
use ptyrelay.Base.{
  Bool, ◌||◌, not, Bytes, List, [], ◌∷◌, ◌++◌, Option, none, some, ◌⊎◌, inl, inr, if◌then◌else◌,
  codes, pos,
}
use ptyrelay.Base.Step.{Step}
use ptyrelay.Bytes.{same_bytes}
use ptyrelay.Bytes.Text.{trim_space}
use ptyrelay.Bytes.Split.{is_empty, to_lower}
use ptyrelay.Bootstrap.Platform.{fields}
use ptyrelay.Session.Framed.{ShellKind, shell_bash, shell_zsh, shell_dash, shell_sh}
use ptyrelay.Channel.Tmux.{Options}

-- `config`, whose duration is of a type `D`.
pub record Config (D : Type 0) : Type 0 where
  pub transport : Bytes
  pub tmux_pane : Bytes
  pub tmux_sock : Bytes
  pub ws_url : Bytes
  pub exec_cmd : Bytes
  pub shell : ShellKind
  pub agent_path : Bytes
  pub no_agent : Bool
  pub timeout : D

pub data ConfigError : Type 0 where
  tmux_pane_missing ws_url_missing exec_missing transport_missing : ConfigError
  bad_transport bad_shell bad_timeout : Bytes → ConfigError

-- `truthy`.
unfoldable pub truthy : Bytes → Bool
truthy v =
    let word = to_lower (trim_space v) in
    same_bytes word (codes "1")
    || same_bytes word (codes "true")
    || same_bytes word (codes "yes")
    || same_bytes word (codes "on")

abbrev pub unless_set : ConfigError → Bytes → Option ConfigError
unless_set e [] = some e
unless_set e (c ∷ b) = none

-- The first switch of `loadConfig`: what is wrong with the transport.
unfoldable pub transport_error : (Bytes → Bytes) → Option ConfigError
transport_error getenv =
    let transport = getenv (codes "PTYRELAY_TRANSPORT") in
    if same_bytes transport (codes "tmux")
    then unless_set tmux_pane_missing (getenv (codes "PTYRELAY_TMUX_PANE"))
    else if same_bytes transport (codes "ws")
    then unless_set ws_url_missing (getenv (codes "PTYRELAY_WS_URL"))
    else if same_bytes transport (codes "exec")
    then unless_set exec_missing (getenv (codes "PTYRELAY_EXEC"))
    else if is_empty transport
    then some transport_missing
    else some (bad_transport transport)

-- The second switch.
unfoldable pub shell_of : Bytes → Option ShellKind
shell_of v =
    let word = to_lower v in
    if is_empty word || same_bytes word (codes "bash")
    then some shell_bash
    else if same_bytes word (codes "zsh")
    then some shell_zsh
    else if same_bytes word (codes "dash")
    then some shell_dash
    else if same_bytes word (codes "sh")
    then some shell_sh
    else none

-- The connection: a shell alone, or a router with the agent at a path.
pub data Connection (C : Type 0) : Type 0 where
  shell_only : C → Connection C
  routed : C → Bytes → Connection C

-- What the transports are opened with; another name leaves the channel nil.
pub data Endpoint : Type 0 where
  tmux_pane : Options → Endpoint
  ws_url : Bytes → Endpoint
  exec_argv : List Bytes → Endpoint
  no_channel : Endpoint

pub data DialError (E : Type 0) : Type 0 where
  exec_empty home_empty : DialError E
  transport_failed home_failed : E → DialError E

module _ {D : Type 0} (parse_duration : Bytes → Option D) (sixty_seconds : D) where
  abbrev pub timeout_of : Bytes → ConfigError ⊎ D
  timeout_of v =
      if is_empty v
      then inr sixty_seconds
      else elim (parse_duration v) [ none ↦ inl (bad_timeout v) | some d ↦ inr d ]

  abbrev pub with_timeout : (Bytes → Bytes) → ShellKind → ConfigError ⊎ D → ConfigError ⊎ Config D
  with_timeout getenv shell (inl e) = inl e
  with_timeout getenv shell (inr d) = inr (record {
    transport = getenv (codes "PTYRELAY_TRANSPORT");
    tmux_pane = getenv (codes "PTYRELAY_TMUX_PANE");
    tmux_sock = getenv (codes "PTYRELAY_TMUX_SOCK");
    ws_url = getenv (codes "PTYRELAY_WS_URL");
    exec_cmd = getenv (codes "PTYRELAY_EXEC");
    shell = shell;
    agent_path = getenv (codes "PTYRELAY_AGENT");
    no_agent = truthy (getenv (codes "PTYRELAY_NO_AGENT"));
    timeout = d;
  })

  abbrev pub with_shell : (Bytes → Bytes) → Option ShellKind → ConfigError ⊎ Config D
  with_shell getenv none = inl (bad_shell (getenv (codes "PTYRELAY_SHELL")))
  with_shell getenv (some kind) =
      with_timeout getenv kind (timeout_of (getenv (codes "PTYRELAY_TIMEOUT")))

  abbrev pub with_transport : (Bytes → Bytes) → Option ConfigError → ConfigError ⊎ Config D
  with_transport getenv (some e) = inl e
  with_transport getenv none = with_shell getenv (shell_of (getenv (codes "PTYRELAY_SHELL")))

  -- `loadConfig`.
  unfoldable pub load_config : (Bytes → Bytes) → ConfigError ⊎ Config D
  load_config getenv = with_transport getenv (transport_error getenv)

-- The transports, the session's command for the home directory, and the probe of the router, which is run for
-- its effect alone. `close_all` closes the session and the channel.
pub record Dialer (W C E : Type 0) : Type 0 where
  pub open_endpoint : Endpoint → W → W × (E ⊎ C)
  pub run_home : C → W → W × (E ⊎ Bytes)
  pub probe_router : C → Bytes → W → W
  pub close_all : C → W → W

module _ {W C E : Type 0} (dialer : Dialer W C E) where
  abbrev pub endpoint_of : {D : Type 0} → Config D → DialError E ⊎ Endpoint
  endpoint_of c =
      if same_bytes c.transport (codes "tmux")
      then inr (
          tmux_pane (record {
            pane = c.tmux_pane;
            socket = c.tmux_sock;
            socket_is_path = not (is_empty c.tmux_sock);
            log_file = [];
            chunk_size = pos 0;
          }))
      else if same_bytes c.transport (codes "ws")
      then inr (ws_url c.ws_url)
      else if same_bytes c.transport (codes "exec")
      then elim (fields c.exec_cmd) [
        | [] ↦ inl exec_empty
        | arg ∷ args ↦ inr (exec_argv (arg ∷ args))
      ]
      else inr no_channel

  -- The router is probed, whatever the probe finds.
  abbrev pub with_agent : C → Bytes → Step W (DialError E) (Connection C)
  with_agent ch path w = (dialer.probe_router ch path w, inr (routed ch path))

  abbrev pub in_home : C → Bytes → Step W (DialError E) (Connection C)
  in_home ch home w =
      if is_empty home
      then (dialer.close_all ch w, inl home_empty)
      else with_agent ch (home ++ codes "/.local/bin/ptyrelay-agent") w

  abbrev pub at_home : C → W → E ⊎ Bytes → W × (DialError E ⊎ Connection C)
  at_home ch w (inl e) = (dialer.close_all ch w, inl (home_failed e))
  at_home ch w (inr out) = in_home ch (trim_space out) w

  abbrev pub find_agent : Bytes → C → Step W (DialError E) (Connection C)
  find_agent [] ch w = let (u, r) = dialer.run_home ch w in at_home ch u r
  find_agent (x ∷ path) ch w = with_agent ch (x ∷ path) w

  abbrev pub on_open : {D : Type 0} → Config D → W → E ⊎ C → W × (DialError E ⊎ Connection C)
  on_open c w (inl e) = (w, inl (transport_failed e))
  on_open c w (inr ch) =
      if c.no_agent then (w, inr (shell_only ch)) else find_agent c.agent_path ch w

  abbrev pub on_endpoint :
      {D : Type 0} → Config D → W → DialError E ⊎ Endpoint → W × (DialError E ⊎ Connection C)
  on_endpoint c w (inl e) = (w, inl e)
  on_endpoint c w (inr to) = let (u, r) = dialer.open_endpoint to w in on_open c u r

  -- `dialFromConfig`.
  unfoldable pub dial_from_config : {D : Type 0} → Config D → Step W (DialError E) (Connection C)
  dial_from_config c w = on_endpoint c w (endpoint_of c)
