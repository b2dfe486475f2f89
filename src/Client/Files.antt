-- ===== src/Client/Files.antt =====
-- `callOp` of pkg/backend/agent/agent.go, and the methods of fs.go and exec.go: which operation they call, with
-- which arguments, and what they make of its data. `json.Marshal` of the arguments and `json.Unmarshal` of the data are
-- parameters.
pub mod Written
use ptyrelay.Base.{
  ℕ, pos, Bool, true, false, Bytes, List, [], ◌∷◌, ◌++◌, Option, none, some, ◌⊎◌, inl, inr,
  if◌then◌else◌, length, map,
}
use ptyrelay.Base.Step.{Step, ◌>>=◌, return}
use ptyrelay.Proto.{
  Op, read, write, stat, lstat, list, remove, rename, mkdir_all, run, StatData, RunData, Request,
  Response,
}
use ptyrelay.Session.Drive.{RunResult, SessionError}
use ptyrelay.Shell.State.{Session}
use ptyrelay.Client.Repl.{Client, CallError, Peer, call_repl}
use ptyrelay.Client.OneShot.{OneShotError, call_one_shot}

-- `backend.FileInfo`, less its time.
pub record FileInfo : Type 0 where
  pub name : Bytes
  pub size : ℕ
  pub mode : ℕ
  pub is_dir : Bool
  pub is_symlink : Bool
  pub symlink_target : Bytes

-- `statDataToFileInfo`.
unfoldable pub stat_data_to_file_info : StatData → FileInfo
stat_data_to_file_info d = record {
  name = d.name;
  size = d.size;
  mode = d.mode;
  is_dir = d.is_dir;
  is_symlink = d.is_symlink;
  symlink_target = d.symlink_target;
}

-- `json.Marshal` of the types of arguments.
pub record ArgsWriter : Type 0 where
  pub path_args : Bytes → Bytes ⊎ Bytes
  pub write_args : Bytes → Bytes → ℕ → Bytes ⊎ Bytes
  pub rename_args : Bytes → Bytes → Bytes ⊎ Bytes
  pub mkdir_all_args : Bytes → ℕ → Bytes ⊎ Bytes
  pub run_args : Bytes → Bytes → Bytes ⊎ Bytes

-- `json.Unmarshal` into the types of data.
pub record DataReader : Type 0 where
  pub read_data : Bytes → Bytes ⊎ Bytes
  pub stat_data : Bytes → Bytes ⊎ StatData
  pub list_data : Bytes → Bytes ⊎ List StatData
  pub run_data : Bytes → Bytes ⊎ RunData

-- `bufferedWriter`, which `OpenWrite` makes.
pub record BufferedWriter : Type 0 where
  pub path : Bytes
  pub mode : ℕ
  pub buf : Bytes
  pub closed : Bool

abbrev pub open_write : Bytes → ℕ → BufferedWriter
open_write path mode = record { path = path; mode = mode; buf = []; closed = false }

-- `bufferedWriter.Write`; `none` for the error of a write after the close.
unfoldable pub writer_write : BufferedWriter → Bytes → BufferedWriter × Option ℕ
writer_write w b = if w.closed then (w, none) else (record w { buf = w.buf ++ b }, some (length b))

-- A call without a result looks at no data.
abbrev pub no_data : Bytes → Bytes ⊎ Unit {0}
no_data b = inr tt

abbrev pub no_stat : StatData
no_stat = record {
  name = [];
  size = 0;
  mode = 0;
  is_dir = false;
  is_symlink = false;
  symlink_target = [];
}

abbrev pub no_run : RunData
no_run = record { stdout = []; stderr = []; exit_code = pos 0 }

-- `callOp`: an operation with its encoded arguments, the decoder of its data, and their zero value.
abbrev pub CallOp : Type 0 → Type 0 → Type 1
CallOp W E = (A : Type 0) → Op → Bytes ⊎ Bytes → (Bytes → Bytes ⊎ A) → A → Step W E A

module _ {W E : Type 0} (args : ArgsWriter) (reader : DataReader) (call_op : CallOp W E) where
  unfoldable pub read_file : Bytes → Step W E Bytes
  read_file path = call_op Bytes read (args.path_args path) reader.read_data []

  unfoldable pub write_file : Bytes → Bytes → ℕ → Step W E Unit
  write_file path b mode = call_op Unit write (args.write_args path b mode) no_data tt

  -- `statImpl`.
  unfoldable pub stat_impl : Op → Bytes → Step W E FileInfo
  stat_impl op path = do
    d ← call_op StatData op (args.path_args path) reader.stat_data no_stat
    return (stat_data_to_file_info d)

  abbrev pub stat_file : Bytes → Step W E FileInfo
  stat_file = stat_impl stat

  abbrev pub lstat_file : Bytes → Step W E FileInfo
  lstat_file = stat_impl lstat

  unfoldable pub list_dir : Bytes → Step W E (List FileInfo)
  list_dir path = do
    ds ← call_op (List StatData) list (args.path_args path) reader.list_data []
    return (map stat_data_to_file_info ds)

  unfoldable pub make_dirs : Bytes → ℕ → Step W E Unit
  make_dirs path mode = call_op Unit mkdir_all (args.mkdir_all_args path mode) no_data tt

  unfoldable pub rename_file : Bytes → Bytes → Step W E Unit
  rename_file old_path new_path =
      call_op Unit rename (args.rename_args old_path new_path) no_data tt

  unfoldable pub remove_file : Bytes → Step W E Unit
  remove_file path = call_op Unit remove (args.path_args path) no_data tt

  -- `OpenRead`, whose reader is over the whole of the file.
  abbrev pub open_read : Bytes → Step W E Bytes
  open_read = read_file

  unfoldable pub run_command : Bytes → Bytes → Step W E RunData
  run_command cmd stdin = call_op RunData run (args.run_args cmd stdin) reader.run_data no_run

  abbrev pub store_buffer :
      BufferedWriter → W → W × (E ⊎ Unit {0}) → BufferedWriter × W × (E ⊎ Unit {0})
  store_buffer w s (t, r) = (record w { closed = true }, t, r)

  -- `bufferedWriter.Close`.
  unfoldable pub writer_close : BufferedWriter → W → BufferedWriter × W × (E ⊎ Unit {0})
  writer_close w s =
      if w.closed then (w, s, inr tt) else store_buffer w s (write_file w.path w.buf w.mode s)

-- `Mode`.
pub data Mode : Type 0 where
  mode_one_shot mode_repl : Mode

-- The errors of both modes.
pub data AgentError : Type 0 where
  repl_call : CallError → AgentError
  one_shot_call : OneShotError → AgentError

abbrev pub repl_result : {A : Type 0} → CallError ⊎ A → AgentError ⊎ A
repl_result (inl e) = inl (repl_call e)
repl_result (inr a) = inr a

abbrev pub one_shot_result : {A : Type 0} → OneShotError ⊎ A → AgentError ⊎ A
one_shot_result (inl e) = inl (one_shot_call e)
one_shot_result (inr a) = inr a

module _ {P S : Type 0} (peer : Peer P) (run_framed : Session S)
    (read_response : Bytes → Bytes ⊎ Response) (write_request : Request → Bytes ⊎ Bytes)
    (agent_path stamp : Bytes) where
  -- `callOp`, at the time `stamp`, over the pipe or the session.
  unfoldable pub dispatch_op : Mode → CallOp (Client × P × S) AgentError
  dispatch_op mode_repl A op args parse empty (c, p, s) =
      let ((d, q), r) = call_repl peer parse empty c p op args in ((d, q, s), repl_result r)
  dispatch_op mode_one_shot A op args parse empty (c, p, s) =
      let (d, t, r) =
        call_one_shot run_framed read_response parse empty write_request agent_path stamp op args c
          s in
      ((d, p, t), one_shot_result r)
