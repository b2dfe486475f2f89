-- ===== src/Shell/Stat.antt =====
-- `buildStatCmd`, `parseStatLine` and the lines of `List` in pkg/backend/shell/fs.go. The time of a
-- file is left out; whether `strconv.ParseFloat` accepts its text is a parameter.
pub mod Line
use ptyrelay.Base.{
  ℕ, ◌+◌, ◌%◌, Bool, true, false, Bytes, List, [], ◌∷◌, ◌++◌, Option, none, some, ◌⊎◌, inl, inr,
  if◌then◌else◌, codes, not, ℤ,
}
use ptyrelay.Bytes.{same_bytes, join}
use ptyrelay.Bytes.Text.{trim_space, atoi}
use ptyrelay.Bytes.Split.{split, cut, trim_right, behind_last, parse_octal, is_empty}
use ptyrelay.Quote.{quote}
use ptyrelay.Shell.State.{ShellError, malformed}

-- `backend.FileInfo`, less its time.
pub record FileInfo : Type 0 where
  pub name : Bytes
  pub size : ℤ
  pub mode : ℕ
  pub is_dir : Bool
  pub is_symlink : Bool
  pub symlink_target : Bytes

abbrev pub is_gnu : Bytes → Bool
is_gnu style = same_bytes style (codes "gnu")

abbrev pub follow_flag : Bool → Bytes
follow_flag follow = if follow then codes "-L " else []

unfoldable pub build_stat_cmd : Bytes → Bytes → Bool → Bytes
build_stat_cmd style path follow =
    if is_gnu style
    then codes "stat " ++ (follow_flag follow ++ (codes "-c '%s|%Y|%a|%F' -- " ++ quote path))
    else codes "stat " ++ (follow_flag follow ++ (codes "-f '%z|%m|%Lp|%HT' " ++ quote path))

abbrev pub from_last : Bytes → Option Bytes → Bytes
from_last path none = path
from_last path (some name) = name

-- `lastPathSegment`.
unfoldable pub last_path_segment : Bytes → Bytes
last_path_segment path = from_last path (behind_last b'/' path)

-- The bits of `fs.ModeDir` and `fs.ModeSymlink`.
abbrev pub mode_dir : ℕ
mode_dir = 2147483648

abbrev pub mode_symlink : ℕ
mode_symlink = 134217728

-- `switch style`: what the text of the type says.
abbrev pub says_dir : Bytes → Bytes → Bool
says_dir style text =
    same_bytes text (if is_gnu style then codes "directory" else codes "Directory")

abbrev pub says_symlink : Bytes → Bytes → Bool
says_symlink style text =
    same_bytes text (if is_gnu style then codes "symbolic link" else codes "Symbolic Link")

abbrev pub with_type : Bytes → Bytes → ℤ → ℕ → Bytes → FileInfo
with_type style path size bits text =
    let is_dir = says_dir style text in
    let is_link = says_symlink style text in
    record {
      name = last_path_segment path;
      size = size;
      mode = bits + (if is_dir then mode_dir else if is_link then mode_symlink else 0);
      is_dir = is_dir;
      is_symlink = is_link;
      symlink_target = [];
    }

module _ (is_float : Bytes → Bool) where
  abbrev pub parsed :
      Bytes → Bytes → Bytes → Option ℤ → Bool → Option ℕ → Bytes → ShellError ⊎ FileInfo
  parsed style line path (some size) true (some bits) text =
      inr (with_type style path size (bits % 4096) text)
  parsed style line path (some size) true none text = inl (malformed line)
  parsed style line path (some size) false bits text = inl (malformed line)
  parsed style line path none float bits text = inl (malformed line)

  -- `parseStatLine`, at the parts of the line; parts behind the fourth are not looked at.
  abbrev pub parse_parts : Bytes → Bytes → Bytes → List Bytes → ShellError ⊎ FileInfo
  parse_parts style line path (size ∷ mtime ∷ mode ∷ text ∷ _) =
      parsed style line path (atoi size) (is_float mtime) (parse_octal mode) text
  parse_parts style line path (size ∷ mtime ∷ mode ∷ []) = inl (malformed line)
  parse_parts style line path (size ∷ mtime ∷ []) = inl (malformed line)
  parse_parts style line path (size ∷ []) = inl (malformed line)
  parse_parts style line path [] = inl (malformed line)

  unfoldable pub parse_stat_line : Bytes → Bytes → Bytes → ShellError ⊎ FileInfo
  parse_stat_line style line path = parse_parts style line path (split line b'|')

  -- A line of `List`, cut at its first separator as `SplitN(line, "|", 5)` with its rest joined
  -- again; fewer than four separators are an error.
  abbrev pub list_parts : Bytes → Bytes → List Bytes → ShellError ⊎ FileInfo
  list_parts style line (path ∷ a ∷ b ∷ c ∷ d ∷ rest) =
      parse_stat_line style (join (a ∷ b ∷ c ∷ d ∷ rest) (b'|' ∷ [])) path
  list_parts style line (path ∷ a ∷ b ∷ c ∷ []) = inl (malformed line)
  list_parts style line (path ∷ a ∷ b ∷ []) = inl (malformed line)
  list_parts style line (path ∷ a ∷ []) = inl (malformed line)
  list_parts style line (path ∷ []) = inl (malformed line)
  list_parts style line [] = inl (malformed line)

  abbrev pub list_line : Bytes → Bytes → ShellError ⊎ FileInfo
  list_line style line = list_parts style line (split line b'|')

  abbrev pub entry_then :
      ShellError ⊎ List FileInfo → ShellError ⊎ FileInfo → ShellError ⊎ List FileInfo
  entry_then rest (inl e) = inl e
  entry_then (inl e) (inr info) = inl e
  entry_then (inr infos) (inr info) = inr (info ∷ infos)

  -- The loop of `List` over the lines; an error ends it.
  unfoldable pub list_lines : Bytes → List Bytes → ShellError ⊎ List FileInfo
  list_lines style [] = inr []
  list_lines style (raw ∷ lines) =
      let line = trim_space raw in
      let rest = list_lines style lines in
      if is_empty line then rest else entry_then rest (list_line style line)

  -- `List`, at the output of its command.
  abbrev pub parse_list : Bytes → Bytes → ShellError ⊎ List FileInfo
  parse_list style output = list_lines style (split (trim_right output b'\n') b'\n')

unfoldable pub build_list_cmd : Bytes → Bytes → Bytes
build_list_cmd style path =
    codes "find "
    ++ (quote path
        ++ (codes " -mindepth 1 -maxdepth 1 -print0 2>/dev/null | xargs -0 -n 32 "
            ++ (if is_gnu style
                then codes "stat -c '%n|%s|%Y|%a|%F' --"
                else codes "stat -f '%N|%z|%m|%Lp|%HT'")))
