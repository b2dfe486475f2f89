-- ===== src/Proto.antt =====
-- pkg/proto/proto.go: the messages between the client and the agent.
pub mod Frame
use ptyrelay.Base.{ℕ, ℤ, Bool, Bytes, Option, ◌==◌, true, false}

-- `Op`: the named operations, and any other string.
pub data Op : Type 0 where
  ping read write stat lstat list remove rename mkdir_all run bye : Op
  other_op : Bytes → Op

-- The categories of `Response.ErrKind`, and any other string.
pub data ErrKind : Type 0 where
  unknown_op bad_args not_found permission io bad_protocol unimplemented internal : ErrKind
  other_kind : Bytes → ErrKind

-- `Version`.
abbrev pub version : ℕ
version = 1

-- `Request`. Absent arguments are an empty text.
pub record Request : Type 0 where
  pub v : ℕ
  pub id : Bytes
  pub op : Op
  pub args : Bytes

-- `Response`. `err` and `err_kind` are read where `ok` is false, `data` where it is true.
pub record Response : Type 0 where
  pub v : ℕ
  pub id : Bytes
  pub ok : Bool
  pub payload : Bytes
  pub err : Bytes
  pub err_kind : Option ErrKind

-- `StatData`, less its time.
pub record StatData : Type 0 where
  pub name : Bytes
  pub size : ℕ
  pub mode : ℕ
  pub is_dir : Bool
  pub is_symlink : Bool
  pub symlink_target : Bytes

-- `RunData`, less its duration.
pub record RunData : Type 0 where
  pub stdout : Bytes
  pub stderr : Bytes
  pub exit_code : ℤ
