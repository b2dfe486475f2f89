-- ===== src/Cli.antt =====
-- cmd/ptyrelay/connect.go: the connection that the flags ask for. The transports, the session, the bootstrap and the
-- probe of the router are an interface over a state; the context's deadline is left out.
pub mod Released
pub mod Commands
use ptyrelay.Base.{
  ℕ, zero, suc, ◌+◌, Bool, true, false, ◌||◌, not, Bytes, List, [], ◌∷◌, ◌++◌, Option, none, some,
  ◌⊎◌, inl, inr, if◌then◌else◌, take, drop, codes, pos, ◌==◌,
}
use ptyrelay.Base.Step.{Step, ◌>>=◌, return, throw, lift}
use ptyrelay.Bytes.{same_bytes, index_byte}
use ptyrelay.Bytes.Text.{trim_space}
use ptyrelay.Bytes.Split.{is_empty, to_lower}
use ptyrelay.Session.Framed.{ShellKind}
use ptyrelay.Bootstrap.Platform.{fields}
use ptyrelay.Channel.Tmux.{Options}
use ptyrelay.Mcp.Config.{shell_of}

-- `commonFlags`, less the timeout.
pub record CommonFlags : Type 0 where
  pub tmux_pane : Bytes
  pub tmux_socket : Bytes
  pub ws_url : Bytes
  pub ws_header : List Bytes
  pub exec_cmd : Bytes
  pub shell_name : Bytes
  pub no_agent : Bool
  pub agent_path : Bytes
  pub do_install : Bool
  pub provider_dir : Bytes
  pub log_level : Bytes

pub data DialError (E : Type 0) : Type 0 where
  pick_one exec_empty no_provider home_empty : DialError E
  bad_shell bad_header bad_log_level : Bytes → DialError E
  transport_failed install_failed home_failed : E → DialError E

-- What a transport is opened with.
pub data Endpoint : Type 0 where
  to_tmux : Options → Endpoint
  to_ws : Bytes → List (Bytes × Bytes) → Endpoint
  to_exec : List Bytes → Endpoint

-- `connection`: the channel, and the path of the agent unless the shell alone is used.
pub record Connection (C : Type 0) : Type 0 where
  pub channel : C
  pub agent_path : Option Bytes

-- `install` is `Bootstrap` with the binaries of a directory, and `install_embedded` with those of the build, if it
-- has any; `run_home` is the output of the command that prints the home directory.
pub record Maker (W C E : Type 0) : Type 0 where
  pub open_endpoint : Endpoint → W → W × (E ⊎ C)
  pub install : C → Bytes → Bytes → W → W × (E ⊎ Bytes)
  pub install_embedded : Option (C → Bytes → W → W × (E ⊎ Bytes))
  pub run_home : C → W → W × (E ⊎ Bytes)
  pub probe_router : C → Bytes → W → W
  pub close_session : C → W → W
  pub close_channel : C → W → W

abbrev pub count_set : List Bytes → ℕ
count_set [] = 0
count_set (v ∷ vs) = if is_empty v then count_set vs else suc (count_set vs)

abbrev pub picked : CommonFlags → ℕ
picked c = count_set (c.tmux_pane ∷ c.ws_url ∷ c.exec_cmd ∷ [])

-- The headers, or the first that has no `=`.
abbrev pub header_at : Bytes → Option ℕ → Bytes ⊎ (Bytes × Bytes)
header_at kv none = inl kv
header_at kv (some i) = inr (take i kv, drop (suc i) kv)

abbrev pub onto_headers :
    Bytes ⊎ (Bytes × Bytes) → Bytes ⊎ List (Bytes × Bytes) → Bytes ⊎ List (Bytes × Bytes)
onto_headers (inl kv) rest = inl kv
onto_headers (inr h) (inl kv) = inl kv
onto_headers (inr h) (inr hs) = inr (h ∷ hs)

unfoldable pub headers : List Bytes → Bytes ⊎ List (Bytes × Bytes)
headers [] = inr []
headers (kv ∷ kvs) = onto_headers (header_at kv (index_byte kv b'=')) (headers kvs)

-- `buildLogger`: whether the level is known.
unfoldable pub known_level : Bytes → Bool
known_level level =
    let word = to_lower level in
    is_empty level
    || same_bytes word (codes "debug")
    || same_bytes word (codes "info")
    || same_bytes word (codes "warn")
    || same_bytes word (codes "warning")
    || same_bytes word (codes "error")

module _ {E : Type 0} where
  abbrev pub ws_endpoint : Bytes → Bytes ⊎ List (Bytes × Bytes) → DialError E ⊎ Endpoint
  ws_endpoint url (inl kv) = inl (bad_header kv)
  ws_endpoint url (inr hs) = inr (to_ws url hs)

  abbrev pub exec_endpoint : List Bytes → DialError E ⊎ Endpoint
  exec_endpoint [] = inl exec_empty
  exec_endpoint (arg ∷ args) = inr (to_exec (arg ∷ args))

  -- The switch over the transports, of which one is set.
  unfoldable pub endpoint_of : CommonFlags → DialError E ⊎ Endpoint
  endpoint_of c =
      if not (is_empty c.tmux_pane)
      then inr (
          to_tmux (record {
            pane = c.tmux_pane;
            socket = c.tmux_socket;
            socket_is_path = not (is_empty c.tmux_socket);
            log_file = [];
            chunk_size = pos 0;
          }))
      else if not (is_empty c.ws_url)
      then ws_endpoint c.ws_url (headers c.ws_header)
      else exec_endpoint (fields c.exec_cmd)

  -- The checks in front of the transport.
  abbrev pub with_kind : CommonFlags → Option ShellKind → DialError E ⊎ Endpoint
  with_kind c none = inl (bad_shell c.shell_name)
  with_kind c (some kind) = endpoint_of c

  abbrev pub chosen : CommonFlags → DialError E ⊎ Endpoint
  chosen c = if picked c == 1 then with_kind c (shell_of c.shell_name) else inl pick_one

module _ {W C E : Type 0} (maker : Maker W C E) where
  abbrev pub wrapped : {A : Type 0} → (E → DialError E) → W × (E ⊎ A) → W × (DialError E ⊎ A)
  wrapped wrap (w, inl e) = (w, inl (wrap e))
  wrapped wrap (w, inr a) = (w, inr a)

  unfoldable pub teardown : C → W → W
  teardown ch w = maker.close_channel ch (maker.close_session ch w)

  -- Every error behind the session tears it down.
  abbrev pub torn_down : {A : Type 0} → C → W → DialError E ⊎ A → W × (DialError E ⊎ A)
  torn_down ch w (inl e) = (teardown ch w, inl e)
  torn_down ch w (inr a) = (w, inr a)

  abbrev pub or_teardown : {A : Type 0} → C → Step W (DialError E) A → Step W (DialError E) A
  or_teardown ch m w = let (u, r) = m w in torn_down ch u r

  abbrev pub embedded :
      C → Bytes → Option (C → Bytes → W → W × (E ⊎ Bytes)) → Step W (DialError E) Bytes
  embedded ch path none w = (w, inl no_provider)
  embedded ch path (some put) w = wrapped install_failed (put ch path w)

  -- The path of the agent, which is installed if the flag says so.
  unfoldable pub installed : CommonFlags → C → Step W (DialError E) Bytes
  installed c ch w =
      if not c.do_install
      then (w, inr c.agent_path)
      else if not (is_empty c.provider_dir)
      then wrapped install_failed (maker.install ch c.provider_dir c.agent_path w)
      else embedded ch c.agent_path maker.install_embedded w

  abbrev pub in_home : Bytes → DialError E ⊎ Bytes
  in_home home =
      if is_empty home then inl home_empty else inr (home ++ codes "/.local/bin/ptyrelay-agent")

  abbrev pub or_home : C → Bytes → Step W (DialError E) Bytes
  or_home ch [] =
      (λ w. wrapped home_failed (maker.run_home ch w)) >>= λ out. lift (in_home (trim_space out))
  or_home ch (x ∷ path) = return (x ∷ path)

  -- The probe of the router is run for its effect.
  abbrev pub routed : C → Bytes → Step W (DialError E) (Connection C)
  routed ch path w =
      (maker.probe_router ch path w, inr (record { channel = ch; agent_path = some path }))

  abbrev pub with_session : CommonFlags → C → Step W (DialError E) (Connection C)
  with_session c ch =
      if c.no_agent
      then return (record { channel = ch; agent_path = none })
      else or_teardown ch (installed c ch >>= or_home ch) >>= routed ch

  -- A level that is not known closes the channel alone.
  abbrev pub with_channel : CommonFlags → C → Step W (DialError E) (Connection C)
  with_channel c ch w =
      if known_level c.log_level
      then with_session c ch w
      else (maker.close_channel ch w, inl (bad_log_level c.log_level))

  abbrev pub opened : Endpoint → Step W (DialError E) C
  opened to w = wrapped transport_failed (maker.open_endpoint to w)

  -- `dial`.
  unfoldable pub dial : CommonFlags → Step W (DialError E) (Connection C)
  dial c = do to ← lift (chosen c); ch ← opened to; with_channel c ch
