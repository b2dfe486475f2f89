-- ===== src/Agent/Handlers.antt =====
-- The handlers of cmd/ptyrelay-agent/handlers.go.
pub mod Write
use ptyrelay.Base.{
  ℕ, zero, suc, ◌-◌, ◌+◌, ◌/◌, ◌%◌, Bool, true, false, Bytes, List, [], ◌∷◌, ◌++◌, Option, none,
  some, ◌==◌, ltb, if◌then◌else◌, ◌⊎◌, inl, inr, length, take, drop, codes,
}
use ptyrelay.Proto.{StatData, RunData, version}
use ptyrelay.Agent.Os.{
  Failure, new_error, M, ◌>>=◌, ◌>>◌, return, lift, and_then, FileInfo, Ran, exited, not_run, Os,
}

-- `json.Unmarshal` into the types of arguments.
pub record ArgsCodec : Type 0 where
  pub path_args : Bytes → Failure ⊎ Bytes
  pub write_args : Bytes → Failure ⊎ (Bytes × Bytes × ℕ)
  pub rename_args : Bytes → Failure ⊎ (Bytes × Bytes)
  pub mkdir_all_args : Bytes → Failure ⊎ (Bytes × ℕ)
  pub run_args : Bytes → Failure ⊎ (Bytes × Bytes)

-- What a handler returns beside its error; `some` of it is not nil.
pub data Data : Type 0 where
  ping_data : ℕ → Bytes → List Bytes → Data
  read_data : Bytes → Data
  stat_data : StatData → Data
  list_data : List StatData → Data
  run_data : RunData → Data

abbrev pub Handler : Type 0 → Type 0
Handler S = Bytes → M S (Option Data)

abbrev pub wrapped : {A : Type 0} → Failure ⊎ A → Failure ⊎ A
wrapped (inl e) = inl (record e { text = codes "bad args: " ++ e.text })
wrapped (inr a) = inr a

-- `unmarshalArgs`.
abbrev pub unmarshal_args : {A : Type 0} → (Bytes → Failure ⊎ A) → Bytes → Failure ⊎ A
unmarshal_args decode raw =
    if length raw == 0 then inl (new_error (codes "missing args")) else wrapped (decode raw)

-- `FileMode.Perm`.
abbrev pub perm : ℕ → ℕ
perm mode = mode % 512

-- `mode&fs.ModeSymlink != 0`
abbrev pub is_symlink_mode : ℕ → Bool
is_symlink_mode mode = (mode / 134217728) % 2 == 1

-- `fileInfoTo`.
unfoldable pub file_info_to : FileInfo → StatData
file_info_to info = record {
  name = info.name;
  size = info.size;
  mode = info.mode % 4294967296;
  is_dir = info.is_dir;
  is_symlink = is_symlink_mode info.mode;
  symlink_target = [];
}

-- The position behind the last separator of a path.
unfoldable pub split_at : Bytes → ℕ
split_at [] = 0
split_at (c ∷ path) =
    let rest = split_at path in if ltb 0 rest then 1 + rest else if c == b'/' then 1 else 0

-- The directory of `filepath.Split`, or "." where it is empty.
abbrev pub dir_of : Bytes → Bytes
dir_of path = if split_at path == 0 then codes "." else take (split_at path) path

-- The base of `filepath.Split`.
abbrev pub base_of : Bytes → Bytes
base_of path = drop (split_at path) path

-- `<` on strings.
unfoldable pub less : Bytes → Bytes → Bool
less b [] = false
less [] (y ∷ c) = true
less (x ∷ b) (y ∷ c) = if x == y then less b c else ltb x y

-- `sort.Slice` by name.
unfoldable pub insert_entry : StatData → List StatData → List StatData
insert_entry e [] = e ∷ []
insert_entry e (f ∷ fs) =
    let rest = insert_entry e fs in if less f.name e.name then f ∷ rest else e ∷ f ∷ fs

unfoldable pub sort_entries : List StatData → List StatData
sort_entries [] = []
sort_entries (e ∷ es) = insert_entry e (sort_entries es)

module _ {S : Type 0} (os : Os S) (codec : ArgsCodec) where
  -- The build's system and architecture are part of the version's text.
  abbrev pub handle_ping : Bytes → Handler S
  handle_ping agent_version raw =
      return
        (some (ping_data version agent_version (codes "v1" ∷ codes "one-shot" ∷ codes "repl" ∷ [])))

  abbrev pub handle_bye : Handler S
  handle_bye raw = return none

  unfoldable pub handle_read : Handler S
  handle_read raw = lift (unmarshal_args codec.path_args raw) >>= λ path.
      os.read_file path >>= λ bytes. return (some (read_data bytes))

  -- `_ = tmp.Close()` before an error is returned.
  abbrev pub close_after : {A : Type 0} → Bytes → S → Failure ⊎ A → S × (Failure ⊎ A)
  close_after tmp s (inl e) = ((os.close_temp tmp s).0, inl e)
  close_after tmp s (inr a) = (s, inr a)

  abbrev pub or_close : {A : Type 0} → Bytes → M S A → M S A
  or_close tmp m s = let (t, r) = m s in close_after tmp t r

  -- The deferred clean-up: the file goes if an error is returned.
  abbrev pub clean_up : {A : Type 0} → Bytes → S → Failure ⊎ A → S × (Failure ⊎ A)
  clean_up tmp s (inl e) = ((os.remove tmp s).0, inl e)
  clean_up tmp s (inr a) = (s, inr a)

  abbrev pub or_clean_up : {A : Type 0} → Bytes → M S A → M S A
  or_clean_up tmp m s = let (t, r) = m s in clean_up tmp t r

  -- `handleWrite` from the temporary file on.
  unfoldable pub fill_and_rename : Bytes → Bytes → ℕ → Bytes → M S (Option Data)
  fill_and_rename path bytes mode tmp =
      or_close tmp (os.write_temp tmp bytes)
      >> or_close tmp (os.chmod_temp tmp (perm mode))
      >> os.close_temp tmp
      >> os.rename tmp path
      >> return none

  unfoldable pub handle_write : Handler S
  handle_write raw = lift (unmarshal_args codec.write_args raw) >>= λ (path, bytes, mode).
      os.create_temp (dir_of path) (base_of path ++ codes ".tmp.*") >>= λ tmp.
      or_clean_up tmp (fill_and_rename path bytes mode tmp)

  abbrev pub with_target : StatData → S → Failure ⊎ Bytes → S × (Failure ⊎ StatData)
  with_target out s (inl e) = (s, inr out)
  with_target out s (inr target) = (s, inr (record out { symlink_target = target }))

  -- The link's target, where it can be read.
  abbrev pub read_target : Bytes → StatData → M S StatData
  read_target path out s =
      if out.is_symlink
      then (let (t, r) = os.readlink path s in with_target out t r)
      else (s, inr out)

  -- `statImpl`.
  unfoldable pub stat_impl : Bool → Handler S
  stat_impl follow raw = lift (unmarshal_args codec.path_args raw) >>= λ path.
      (if follow then os.stat path else os.lstat path) >>= λ info.
      (if follow then return (file_info_to info) else read_target path (file_info_to info))
      >>= λ out. return (some (stat_data out))

  -- An entry of `handleList`; one that cannot be read is passed over.
  abbrev pub list_entry : Bytes → S → Failure ⊎ FileInfo → S × (Failure ⊎ List StatData)
  list_entry full s (inl e) = (s, inr [])
  list_entry full s (inr info) =
      (read_target full (file_info_to info) >>= λ out. return (out ∷ [])) s

  unfoldable pub list_entries : Bytes → List Bytes → M S (List StatData)
  list_entries dir [] = return []
  list_entries dir (name ∷ names) =
      (λ s. let (t, r) = os.lstat (os.join dir name) s in list_entry (os.join dir name) t r)
      >>= λ out. list_entries dir names >>= λ rest. return (out ++ rest)

  unfoldable pub handle_list : Handler S
  handle_list raw = lift (unmarshal_args codec.path_args raw) >>= λ path.
      os.read_dir path >>= λ names.
      list_entries path names >>= λ entries. return (some (list_data (sort_entries entries)))

  unfoldable pub handle_remove : Handler S
  handle_remove raw =
      lift (unmarshal_args codec.path_args raw) >>= λ path. os.remove path >> return none

  unfoldable pub handle_rename : Handler S
  handle_rename raw = lift (unmarshal_args codec.rename_args raw) >>= λ (old_path, new_path).
      os.rename old_path new_path >> return none

  unfoldable pub handle_mkdir_all : Handler S
  handle_mkdir_all raw = lift (unmarshal_args codec.mkdir_all_args raw) >>= λ (path, mode).
      os.mkdir_all path (perm mode) >> os.chmod path (perm mode) >> return none

  abbrev pub ran : S → Ran → S × (Failure ⊎ Option Data)
  ran s (exited out err code) =
      (s, inr (some (run_data (record { stdout = out; stderr = err; exit_code = code }))))
  ran s (not_run e) = (s, inl e)

  unfoldable pub handle_run : Handler S
  handle_run raw = lift (unmarshal_args codec.run_args raw) >>= λ (cmd, stdin). λ s.
      let (t, r) = os.run_sh cmd (if ltb 0 (length stdin) then some stdin else none) s in ran t r
