-- ===== src/Backend.antt =====
-- pkg/backend/backend.go: the operations, their classes, and the interface that every backend fills.
pub mod Router
use ptyrelay.Base.{ℕ, Bytes, Option, ◌≡◌, Bool, true, false}

-- `Op`: the named operations, and any other string.
pub data Op : Type 0 where
  op_ping op_read op_write op_stat op_lstat op_list op_remove op_rename op_mkdir_all op_run
        op_open_read op_open_write :
      Op
  op_other : Bytes → Op

-- `OpClass`.
pub data OpClass : Type 0 where
  read_only idempotent non_idempotent : OpClass

-- `Op.Class`.
unfoldable pub class : Op → OpClass
class op_ping = read_only
class op_read = read_only
class op_stat = read_only
class op_lstat = read_only
class op_list = read_only
class op_open_read = read_only
class op_mkdir_all = idempotent
class op_rename = idempotent
class op_write = idempotent
class op_open_write = idempotent
class op_remove = non_idempotent
class op_run = non_idempotent
class (op_other name) = non_idempotent

-- The methods of `RemoteFS` and `RemoteExec` with their arguments: paths, bytes, modes.
pub data Call : Type 0 where
  read stat lstat list open_read remove : Bytes → Call
  write : Bytes → Bytes → ℕ → Call
  open_write mkdir_all : Bytes → ℕ → Call
  rename : Bytes → Bytes → Call
  run : Bytes → Bytes → Call

-- An implementation of `Backend` over a world `W`, where a method answers with a value and an error.
pub record RemoteBackend (W V E : Type 0) : Type 0 where
  pub call : Call → W → W × V × Option E
  pub probe : W → W × Option E
  pub close : W → W × Option E
