-- ===== src/Client/Errors.antt =====
-- `mapErrKind` of pkg/backend/agent/agent.go, and what is left of an error of the agent behind the wire.
use ptyrelay.Base.{Bool, true, false, not, ◌&&◌, Bytes, ◌++◌, codes, Option, none, some, ◌≡◌, refl}
use ptyrelay.Proto.{
  ErrKind, unknown_op, bad_args, not_found, permission, io, bad_protocol, unimplemented, internal,
  other_kind,
}
use ptyrelay.Agent.Os.{Failure}
use ptyrelay.Agent.Dispatch.{classify}

-- An error of the client: its text, and what `errors.Is` says of `os.ErrNotExist`,
-- `os.ErrPermission` and `backend.ErrTransient`.
pub record ClientError : Type 0 where
  pub text : Bytes
  pub is_not_exist : Bool
  pub is_permission : Bool
  pub is_transient : Bool

-- `errors.New` behind a prefix.
abbrev pub plain_error : Bytes → ClientError
plain_error text = record {
  text = text;
  is_not_exist = false;
  is_permission = false;
  is_transient = false;
}

-- `mapErrKind`; the error it is given is a text, and an absent kind is the empty string.
unfoldable pub map_err_kind : Option ErrKind → Bytes → ClientError
map_err_kind (some not_found) err =
    record (plain_error (codes "agent: " ++ (err ++ codes ": file does not exist"))) {
      is_not_exist = true;
    }
map_err_kind (some permission) err =
    record (plain_error (codes "agent: " ++ (err ++ codes ": permission denied"))) {
      is_permission = true;
    }
map_err_kind (some bad_protocol) err =
    record (plain_error (codes "agent: " ++ (err ++ codes ": backend: transient failure"))) {
      is_transient = true;
    }
map_err_kind (some unimplemented) err = plain_error (codes "agent: unimplemented: " ++ err)
map_err_kind (some unknown_op) err = plain_error (codes "agent: unknown op: " ++ err)
map_err_kind (some bad_args) err = plain_error (codes "agent: " ++ err)
map_err_kind (some io) err = plain_error (codes "agent: " ++ err)
map_err_kind (some internal) err = plain_error (codes "agent: " ++ err)
map_err_kind (some (other_kind name)) err = plain_error (codes "agent: " ++ err)
map_err_kind none err = plain_error (codes "agent: " ++ err)

-- What the client is to see of an error of a handler.
pub record SameClass (e : Failure) (c : ClientError) : Type 0 where
  pub not_exist : c.is_not_exist ≡ e.is_not_exist
  pub permission : c.is_permission ≡ (not e.is_not_exist && e.is_permission)
  pub transient : c.is_transient ≡ false

same_class :
    (text : Bytes) (missing denied : Bool)
    → let e : Failure = record { text = text; is_not_exist = missing; is_permission = denied } in
      SameClass e (map_err_kind (some (classify e)) text)
unfolding map_err_kind classify
same_class text true true = record { not_exist = refl; permission = refl; transient = refl }
same_class text true false = record { not_exist = refl; permission = refl; transient = refl }
same_class text false true = record { not_exist = refl; permission = refl; transient = refl }
same_class text false false = record { not_exist = refl; permission = refl; transient = refl }

-- An error of a handler reaches the client with its class: it is `os.ErrNotExist` there exactly if
-- it was so on the remote, `os.ErrPermission` exactly if it was that and not the first, and never a
-- transient one.
pub map_err_kind-classify : (e : Failure) → SameClass e (map_err_kind (some (classify e)) e.text)
map_err_kind-classify e = same_class e.text e.is_not_exist e.is_permission
