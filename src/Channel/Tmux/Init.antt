-- ===== src/Channel/Tmux/Init.antt =====
-- pkg/channel/tmux/init.go: `InitSession` and `KillSession`.
use ptyrelay.Base.{
  ℕ, suc, Bool, Bytes, List, [], ◌∷◌, ◌++◌, Option, none, some, ◌⊎◌, inl, inr, if◌then◌else◌, take,
  codes, ℤ, pos,
}
use ptyrelay.Base.Step.{Step, ◌>>◌, throw}
use ptyrelay.Bytes.{index_byte}
use ptyrelay.Bytes.Text.{trim_space}
use ptyrelay.Bytes.Split.{is_empty}
use ptyrelay.Agent.Os.{Failure}
use ptyrelay.Channel.Tmux.{
  Options, Host, TmuxError, session_name_required, list_panes, no_pane, tmux, must_tmux, found,
  socket_args,
}

-- `InitOptions`.
pub record InitOptions : Type 0 where
  pub socket : Bytes
  pub socket_is_path : Bool
  pub session_name : Bytes
  pub command : Bytes
  pub width : ℤ
  pub height : ℤ

-- `digits` is `fmt.Sprint`.
abbrev pub size_args : (ℕ → Bytes) → Bytes → ℤ → List Bytes
size_args digits flag (pos (suc n)) = flag ∷ digits (suc n) ∷ []
size_args digits flag size = []

abbrev pub new_session_args : (ℕ → Bytes) → InitOptions → List Bytes
new_session_args digits opts =
    codes "new-session"
    ∷ codes "-d"
    ∷ codes "-s"
    ∷ opts.session_name
    ∷ (size_args digits (codes "-x") opts.width
        ++ (size_args digits (codes "-y") opts.height
            ++ (if is_empty opts.command then [] else opts.command ∷ [])))

-- The first line.
abbrev pub cut_line : Bytes → Option ℕ → Bytes
cut_line b none = b
cut_line b (some i) = take i b

abbrev pub session_options : InitOptions → Bytes → TmuxError ⊎ Options
session_options opts pane_id =
    if is_empty pane_id
    then inl no_pane
    else inr (record {
      pane = cut_line pane_id (index_byte pane_id b'\n');
      socket = opts.socket;
      socket_is_path = opts.socket_is_path;
      log_file = [];
      chunk_size = pos 0;
    })

abbrev pub listed : InitOptions → Failure ⊎ Bytes → TmuxError ⊎ Options
listed opts (inl e) = inl (list_panes e)
listed opts (inr out) = session_options opts (trim_space out)

module _ {S : Type 0} (host : Host S) where
  abbrev pub list_session : InitOptions → Step S TmuxError Options
  list_session opts s =
      let (t, r) =
        host.output
          (socket_args opts.socket opts.socket_is_path
            ++ codes "list-panes"
              ∷ codes "-t"
              ∷ opts.session_name
              ∷ codes "-F"
              ∷ codes "#{pane_id}"
              ∷ [])
          s in
      (t, listed opts r)

  -- `InitSession`.
  unfoldable pub init_session : (ℕ → Bytes) → InitOptions → Step S TmuxError Options
  init_session digits opts =
      if is_empty opts.session_name
      then throw session_name_required
      else found host
        >> must_tmux host tmux (socket_args opts.socket opts.socket_is_path)
            (new_session_args digits opts)
        >> list_session opts

  -- `KillSession`.
  unfoldable pub kill_session : InitOptions → Step S TmuxError Unit
  kill_session opts =
      must_tmux host tmux (socket_args opts.socket opts.socket_is_path)
        (codes "kill-session" ∷ codes "-t" ∷ opts.session_name ∷ [])
