-- ===== src/Tests/Files.antt =====
-- The methods of the agent's client on a small remote.
use ptyrelay.Base.{Bytes, [], ◌⊎◌, inl, inr, some, none, false, codes, pos, ◌≡◌, refl}
use ptyrelay.Proto.{Request, Response}
use ptyrelay.Shell.State.{Session}
use ptyrelay.Client.Repl.{Client}
use ptyrelay.Client.Repl.Served.{Live, agent_peer}
use ptyrelay.Client.Files.{
  ArgsWriter, DataReader, no_stat, no_run, mode_repl, dispatch_op, write_file, open_write,
  writer_write,
}
use ptyrelay.Client.Files.Written.{Stored, write_file-Stored}
use ptyrelay.Tests.Agent.{disk, disk_Files, env}
use ptyrelay.Tests.Disk.{Disk}

abbrev writer : ArgsWriter
writer = record {
  path_args = λ path. inr path;
  write_args = λ path. λ b. λ mode. inr b;
  rename_args = λ a. λ b. inr a;
  mkdir_all_args = λ path. λ mode. inr path;
  run_args = λ cmd. λ stdin. inr cmd;
}

abbrev reader : DataReader
reader = record {
  read_data = λ b. inr b;
  stat_data = λ b. inr no_stat;
  list_data = λ b. inr [];
  run_data = λ b. inr no_run;
}

abbrev unused : Session Unit
unused cmd stdin s = (s, inr (record { output = []; exit_code = pos 0 }))

abbrev unread : Bytes → Bytes ⊎ Response
unread b = inl b

abbrev unwritten : Request → Bytes ⊎ Bytes
unwritten req = inl []

-- A second write joins the first.
joined_text :
    (writer_write (writer_write (open_write (codes "/f") 420) (codes "ab")).0 (codes "c")).0.buf
    ≡ codes "abc"
unfolding writer_write
joined_text = refl

write_file-Stored_example :
    let call = dispatch_op (agent_peer env) unused unread unwritten (codes "/a") [] mode_repl in
    let start : Client × Live Disk × Unit = (
      record { id_counter = 7; repl = some (record { closed = false }) },
      record { remote_state = disk; waiting = none },
      tt,
    ) in
    let (t, r) = write_file writer reader call (codes "/etc/motd") (codes "new") 420 start in
    Stored
      (disk_Files.content disk (codes "/etc/motd"))
      (disk_Files.content t.1.remote_state (codes "/etc/motd"))
      (codes "new")
      r
write_file-Stored_example =
    write_file-Stored env disk_Files unused unread unwritten (codes "/a") [] writer reader
      (codes "/etc/motd") (codes "new") (codes "new") 420 7 disk tt refl refl
