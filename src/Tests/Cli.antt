-- ===== src/Tests/Cli.antt =====
-- Dialling in a world that knows whether the channel is open.
use ptyrelay.Base.{Bool, true, false, Bytes, [], ◌∷◌, none, inl, inr, codes, ◌≡◌, refl}
use ptyrelay.Bytes.{same_bytes, index_byte}
use ptyrelay.Bytes.Text.{trim_space}
use ptyrelay.Bytes.Split.{to_lower}
use ptyrelay.Mcp.Config.{shell_of}
use ptyrelay.Cli.{
  CommonFlags, Maker, home_empty, headers, endpoint_of, known_level, dial, installed, teardown,
}
use ptyrelay.Cli.Released.{Tracks, Settled, dial-Settled}

abbrev homeless : Maker Bool Unit Bytes
homeless = record {
  open_endpoint = λ to. λ w. (true, inr tt);
  install = λ ch. λ dir. λ path. λ w. (w, inr path);
  install_embedded = none;
  run_home = λ ch. λ w. (w, inr (codes " \n"));
  probe_router = λ ch. λ path. λ w. w;
  close_session = λ ch. λ w. w;
  close_channel = λ ch. λ w. false;
}

abbrev flags : CommonFlags
flags = record {
  tmux_pane = [];
  tmux_socket = [];
  ws_url = codes "ws://host";
  ws_header = codes "a=b" ∷ [];
  exec_cmd = [];
  shell_name = codes "bash";
  no_agent = false;
  agent_path = [];
  do_install = false;
  provider_dir = [];
  log_level = [];
}

homeless_Tracks : Tracks homeless
homeless_Tracks = record {
  is_open = λ w. w;
  open_fails = λ to. λ w. λ e. λ shut. λ failed. absurd cc;
  opens = λ to. λ w. λ ch. λ done. refl;
  closes = λ ch. λ w. refl;
  probe_keeps = λ ch. λ path. λ w. refl;
  installs_keep = λ ch. λ dir. λ path. λ w. refl;
  embedded_keeps = λ put. λ ch. λ path. λ w. λ built. absurd cc;
  home_keeps = λ ch. λ w. refl;
}

-- The header is cut at its first `=`.
header : headers (codes "a=b=c" ∷ []) ≡ inr ((codes "a", codes "b=c") ∷ [])
unfolding headers index_byte
header = refl

-- An empty home directory is found after the transport was opened.
refused : dial homeless flags false ≡ (false, inl home_empty)
unfolding dial endpoint_of shell_of to_lower same_bytes headers index_byte known_level installed
    teardown trim_space
refused = refl

dial-Settled_example : Settled homeless_Tracks.is_open (dial homeless flags false)
unfolding homeless_Tracks
dial-Settled_example = dial-Settled homeless homeless_Tracks flags false refl
