-- ===== src/Tests/Client.antt =====
-- The client of pkg/backend/agent over an agent that reads a counter.
use ptyrelay.Base.{ℕ, pos, suc, ◌≡◌, [], Bytes, true, false, none, some, inl, inr, ◌⊎◌, codes}
use ptyrelay.Proto.{read, Request, version}
use ptyrelay.Agent.Os.{Failure, Os, M, exited}
use ptyrelay.Agent.Handlers.{ArgsCodec}
use ptyrelay.Agent.Dispatch.{Env, dispatch}
use ptyrelay.Client.Repl.{Client, call_repl, next_id, format_hex}
use ptyrelay.Client.Repl.Served.{agent_peer, outcome, call_repl-dispatch}

abbrev denied : Failure
denied = record { text = codes "permission denied"; is_not_exist = false; is_permission = true }

abbrev refuse : {A : Type 0} → M ℕ A
refuse n = (suc n, inl denied)

abbrev closed_os : Os ℕ
closed_os = record {
  read_file = λ path n. (suc n, inr path);
  create_temp = λ dir base. refuse;
  write_temp = λ t b. refuse;
  chmod_temp = λ t m. refuse;
  close_temp = λ t. refuse;
  remove = λ t. refuse;
  rename = λ a b. refuse;
  mkdir_all = λ path m. refuse;
  chmod = λ path m. refuse;
  stat = λ path. refuse;
  lstat = λ path. refuse;
  readlink = λ path. refuse;
  read_dir = λ path. refuse;
  run_sh = λ cmd stdin n. (n, exited [] [] (pos 0));
  join = λ dir name. name;
}

abbrev texts : ArgsCodec
texts = record {
  path_args = λ raw. inr raw;
  write_args = λ raw. inr (raw, raw, 420);
  rename_args = λ raw. inr (raw, raw);
  mkdir_all_args = λ raw. inr (raw, 493);
  run_args = λ raw. inr (raw, []);
}

abbrev pub env : Env ℕ
env = record {
  agent_version = codes "0.3.0";
  os = closed_os;
  codec = texts;
  marshal_data = λ d. inr (codes "{}");
  bad_version = λ v. [];
  bad_op = λ name. name;
}

abbrev pub as_text : Bytes → Bytes ⊎ Bytes
as_text b = inr b

abbrev pub client : Client
client = record { id_counter = 254; repl = some (record { closed = false }) }

abbrev request : Request
request = record { v = version; id = format_hex (next_id client); op = read; args = codes "/f" }

call_repl-dispatch_example :
    call_repl
      (agent_peer env)
      as_text
      []
      client
      (record { remote_state = 5; waiting = none })
      read
      (inr (codes "/f"))
    ≡ (
      (
        record client { id_counter = 255 },
        record { remote_state = (dispatch env request 5).0; waiting = none },
      ),
      outcome as_text [] (dispatch env request 5).1,
    )
call_repl-dispatch_example = call_repl-dispatch env as_text [] 254 5 read (codes "/f")
