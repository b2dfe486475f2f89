-- ===== src/Channel/Tmux.antt =====
-- pkg/channel/tmux: a channel over a pane of tmux, which types by `tmux send-keys` and reads the file
-- that `pipe-pane` writes. The calls of packages os and os/exec are an interface over a state.
pub mod Typed
pub mod Log
pub mod Init
use ptyrelay.Base.{
  ℕ, zero, suc, ◌+◌, Bool, true, false, Bytes, List, [], ◌∷◌, ◌++◌, Option, none, some, ◌⊎◌, inl,
  inr, if◌then◌else◌, length, take, drop, codes, ℤ, pos, negsuc, not,
}
use ptyrelay.Base.Step.{Step, ◌>>=◌, ◌>>◌, return, throw, lift}
use ptyrelay.Bytes.{replace_all}
use ptyrelay.Bytes.Text.{trim_space}
use ptyrelay.Bytes.Split.{is_empty}
use ptyrelay.Agent.Os.{Failure}
use ptyrelay.Channel.{Caps}
use ptyrelay.Quote.{escaped_quote}

-- `Options`, less the interval of the poll.
pub record Options : Type 0 where
  pub pane : Bytes
  pub socket : Bytes
  pub socket_is_path : Bool
  pub log_file : Bytes
  pub chunk_size : ℤ

-- `Channel`, less the interval; the log that is open is named by its path. `closed` is `closed`,
-- `closeOnce` and `doneCh`.
pub record Pane : Type 0 where
  pub pane : Bytes
  pub log_path : Bytes
  pub log_is_temp : Bool
  pub chunk_size : ℕ
  pub tmux_args : List Bytes
  pub closed : Bool

-- What a failed `tmux` leaves: the error, the arguments and the output, trimmed.
pub record Fault : Type 0 where
  pub cause : Failure
  pub full : List Bytes
  pub output : Bytes

pub data TmuxError : Type 0 where
  pane_required session_name_required channel_closed no_pane : TmuxError
  not_in_path create_log truncate_log open_log read_log close_log list_panes : Failure → TmuxError
  pane_not_found pipe_pane send_keys tmux : Fault → TmuxError

-- `exec` is `cmd.CombinedOutput()` of tmux with some arguments, and `output` is `cmd.Output()`, whose
-- errors differ. A temporary file is created and closed by `create_temp`.
pub record Host (S : Type 0) : Type 0 where
  pub look_path : S → Option Failure
  pub exec : List Bytes → S → S × Bytes × Option Failure
  pub output : List Bytes → S → S × (Failure ⊎ Bytes)
  pub create_temp : S → S × (Failure ⊎ Bytes)
  pub truncate : Bytes → S → S × Option Failure
  pub open_file : Bytes → S → S × Option Failure
  pub close_file : Bytes → S → S × Option Failure
  pub remove : Bytes → S → S × Option Failure

abbrev pub default_chunk_size : ℕ
default_chunk_size = 32768

abbrev pub chunk_of : ℤ → ℕ
chunk_of (pos zero) = default_chunk_size
chunk_of (pos (suc n)) = suc n
chunk_of (negsuc n) = default_chunk_size

-- `socketArgs`.
unfoldable pub socket_args : Bytes → Bool → List Bytes
socket_args socket is_path =
    if is_empty socket then [] else (if is_path then codes "-S" else codes "-L") ∷ socket ∷ []

-- `shellSingleQuote`.
unfoldable pub shell_single_quote : Bytes → Bytes
shell_single_quote s = b'\'' ∷ (replace_all s (b'\'' ∷ []) escaped_quote ++ b'\'' ∷ [])

-- The error that a call returned, wrapped.
abbrev pub checked : {E A : Type 0} → (E → TmuxError) → A → Option E → TmuxError ⊎ A
checked wrap a none = inr a
checked wrap a (some e) = inl (wrap e)

module _ {S : Type 0} (host : Host S) where
  abbrev pub faulted : List Bytes → Bytes → Option Failure → Option Fault
  faulted full out none = none
  faulted full out (some e) = some (record { cause = e; full = full; output = trim_space out })

  -- `runTmux`.
  unfoldable pub run_tmux : List Bytes → List Bytes → S → S × Option Fault
  run_tmux prefix args s =
      let (t, out, e) = host.exec (prefix ++ args) s in (t, faulted (prefix ++ args) out e)

  abbrev pub must_tmux : (Fault → TmuxError) → List Bytes → List Bytes → Step S TmuxError Unit
  must_tmux wrap prefix args s = let (t, e) = run_tmux prefix args s in (t, checked wrap tt e)

  -- A call whose error is dropped.
  abbrev pub ignore : {E : Type 0} → (S → S × Option E) → Step S TmuxError Unit
  ignore call s = ((call s).0, inr tt)

  abbrev pub found : Step S TmuxError Unit
  found s = (s, checked not_in_path tt (host.look_path s))

  -- `resolveLogPath`: the path, and whether the file is temporary.
  abbrev pub temporary : Failure ⊎ Bytes → TmuxError ⊎ (Bytes × Bool)
  temporary (inl e) = inl (create_log e)
  temporary (inr path) = inr (path, true)

  unfoldable pub resolve_log_path : Bytes → Step S TmuxError (Bytes × Bool)
  resolve_log_path [] s = let (t, r) = host.create_temp s in (t, temporary r)
  resolve_log_path (c ∷ requested) s = (s, inr (c ∷ requested, false))

  -- `os.Truncate`, where a file that is missing is no error.
  abbrev pub unless_missing : Option Failure → TmuxError ⊎ Unit {0}
  unless_missing none = inr tt
  unless_missing (some e) = if e.is_not_exist then inr tt else inl (truncate_log e)

  abbrev pub truncated : Bytes → Step S TmuxError Unit
  truncated path s = let (t, e) = host.truncate path s in (t, unless_missing e)

  abbrev pub stop_pipe : List Bytes → Bytes → S → S × Option Fault
  stop_pipe tmux_args pane = run_tmux tmux_args (codes "pipe-pane" ∷ codes "-t" ∷ pane ∷ [])

  abbrev pub remove_temp : Bool → Bytes → Step S TmuxError Unit
  remove_temp is_temp path = if is_temp then ignore (host.remove path) else return tt

  -- The end of `New`, at what `os.Open` returned.
  abbrev pub opened : Pane → Option Failure → Step S TmuxError Pane
  opened c none = return c
  opened c (some e) =
      ignore (stop_pipe c.tmux_args c.pane)
      >> remove_temp c.log_is_temp c.log_path
      >> throw (open_log e)

  abbrev pub open_pane : Pane → Step S TmuxError Pane
  open_pane c s = let (t, e) = host.open_file c.log_path s in opened c e t

  -- The log is emptied, and what the pane prints goes to it.
  abbrev pub pipe_to_log : Options → List Bytes → Bytes → Step S TmuxError Unit
  pipe_to_log opts tmux_args log_path =
      truncated log_path
      >> must_tmux pipe_pane tmux_args (
          codes "pipe-pane"
          ∷ codes "-o"
          ∷ codes "-t"
          ∷ opts.pane
          ∷ (codes "cat >> " ++ shell_single_quote log_path)
          ∷ [])

  abbrev pub pane_of : Options → List Bytes → Bytes × Bool → Pane
  pane_of opts tmux_args (log_path, is_temp) = record {
    pane = opts.pane;
    log_path = log_path;
    log_is_temp = is_temp;
    chunk_size = chunk_of opts.chunk_size;
    tmux_args = tmux_args;
    closed = false;
  }

  abbrev pub attach : Options → List Bytes → Bytes × Bool → Step S TmuxError Pane
  attach opts tmux_args log =
      pipe_to_log opts tmux_args log.0 >> open_pane (pane_of opts tmux_args log)

  abbrev pub find_log : Options → List Bytes → Step S TmuxError (Bytes × Bool)
  find_log opts tmux_args = do
    found
    must_tmux pane_not_found tmux_args
        (codes "display-message" ∷ codes "-p" ∷ codes "-t" ∷ opts.pane ∷ [] ∷ [])
    resolve_log_path opts.log_file

  -- `New`.
  unfoldable pub new : Options → Step S TmuxError Pane
  new opts =
      let tmux_args = socket_args opts.socket opts.socket_is_path in
      if is_empty opts.pane
      then throw pane_required
      else find_log opts tmux_args >>= attach opts tmux_args

  -- The loop of `Write` on the bytes that are left, with the count of those written. A chunk has a byte
  -- at least, so there is a round for each byte.
  unfoldable pub send_chunks : Pane → ℕ → ℕ → Bytes → S → S × ℕ × Option TmuxError
  send_chunks c zero written rest s = (s, written, none)
  send_chunks c (suc fuel) written [] s = (s, written, none)
  send_chunks c (suc fuel) written (x ∷ rest) s =
      let chunk = take c.chunk_size (x ∷ rest) in
      let (t, e) =
        run_tmux c.tmux_args
          (codes "send-keys" ∷ codes "-l" ∷ codes "-t" ∷ c.pane ∷ codes "--" ∷ chunk ∷ []) s in
      let others = send_chunks c fuel (written + length chunk) (drop c.chunk_size (x ∷ rest)) t in
      elim e [ none ↦ others | some fault ↦ (t, written, some (send_keys fault)) ]

  -- `Write`.
  unfoldable pub write : Pane → Bytes → S → S × ℕ × Option TmuxError
  write c p s = if c.closed then (s, 0, some channel_closed) else send_chunks c (length p) 0 p s

  -- `Resize`; `digits` is `fmt.Sprint`.
  unfoldable pub resize : (ℕ → Bytes) → Pane → ℕ → ℕ → Step S TmuxError Unit
  resize digits c cols rows =
      if c.closed
      then throw channel_closed
      else must_tmux tmux c.tmux_args (
          codes "resize-window"
          ∷ codes "-t"
          ∷ c.pane
          ∷ codes "-x"
          ∷ digits cols
          ∷ codes "-y"
          ∷ digits rows
          ∷ [])

  -- `Close`.
  abbrev pub first_error : Option Failure → Option TmuxError
  first_error none = none
  first_error (some e) = some (close_log e)

  unfoldable pub close : Pane → S → Pane × S × Option TmuxError
  close c s =
      if c.closed
      then (c, s, none)
      else (let t = (stop_pipe c.tmux_args c.pane s).0 in
          let (u, e) = host.close_file c.log_path t in
          let v = if c.log_is_temp then (host.remove c.log_path u).0 else u in
          (record c { closed = true }, v, first_error e))

unfoldable pub caps : Pane → Caps
caps c = record {
  binary_safe = false;
  separate_stderr = false;
  scrollback_limited = false;
  max_write_chunk = c.chunk_size;
  concurrent = false;
}
