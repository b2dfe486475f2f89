-- ===== src/Bootstrap/Fetch.antt =====
-- The script and the command of `fetchOnRemote`, pkg/bootstrap/fetch.go.
use ptyrelay.Base.{
  Bytes, [], ◌∷◌, ◌++◌, Bool, false, if◌then◌else◌, codes, flatten, leb, length, drop, ◌-◌,
}
use ptyrelay.Bytes.{same_bytes}
use ptyrelay.Bytes.Split.{is_empty, to_lower}
use ptyrelay.Quote.{quote}

-- `strings.HasSuffix`.
unfoldable pub has_suffix : Bytes → Bytes → Bool
has_suffix s suffix =
    if leb (length suffix) (length s)
    then same_bytes (drop (length s - length suffix) s) suffix
    else false

unfoldable pub gunzip_block : Bytes
gunzip_block = flatten (
    codes "\n"
    ∷ codes "  if ! command -v gunzip >/dev/null 2>&1; then\n"
    ∷ codes "    echo \"ptyrelay-fetch: gunzip required for .gz URL\" 1>&2\n"
    ∷ codes "    exit 1\n"
    ∷ codes "  fi\n"
    ∷ codes "  GZ=\"$TMP\".gz\n"
    ∷ codes "  mv \"$TMP\" \"$GZ\"\n"
    ∷ codes "  gunzip -c \"$GZ\" > \"$TMP\"\n"
    ∷ codes "  rm -f \"$GZ\"\n"
    ∷ [])

unfoldable pub verify_block : Bytes → Bytes
verify_block q_sha = flatten (
    codes "\n"
    ∷ codes "  HASHER=\"\"\n"
    ∷ codes "  if command -v sha256sum >/dev/null 2>&1; then HASHER=\"sha256sum\"\n"
    ∷ codes "  elif command -v shasum >/dev/null 2>&1; then HASHER=\"shasum -a 256\"\n"
    ∷ codes
        "  else echo \"ptyrelay-fetch: sha256sum/shasum missing for verification\" 1>&2; exit 1\n"
    ∷ codes "  fi\n"
    ∷ codes "  ACTUAL=$($HASHER \"$TMP\" | awk '{print $1}')\n"
    ∷ codes "  if [ \"$ACTUAL\" != "
    ∷ q_sha
    ∷ codes " ]; then\n"
    ∷ codes "    echo \"ptyrelay-fetch: sha256 mismatch: $ACTUAL vs expected\" 1>&2\n"
    ∷ codes "    exit 1\n"
    ∷ codes "  fi\n"
    ∷ [])

unfoldable pub fetch_script : Bytes → Bytes → Bytes → Bytes
fetch_script url sha install_path = flatten (
    codes "set -e\n"
    ∷ codes "TMP=$(mktemp 2>/dev/null || mktemp -t ptyrelay-agent)\n"
    ∷ codes "trap 'rm -f \"$TMP\" \"$TMP\".gz' EXIT\n"
    ∷ codes "if command -v curl >/dev/null 2>&1; then\n"
    ∷ codes "  curl -fsSL "
    ∷ quote url
    ∷ codes " -o \"$TMP\"\n"
    ∷ codes "elif command -v wget >/dev/null 2>&1; then\n"
    ∷ codes "  wget -q -O \"$TMP\" "
    ∷ quote url
    ∷ codes "\n"
    ∷ codes "else\n"
    ∷ codes "  echo \"ptyrelay-fetch: neither curl nor wget on PATH\" 1>&2\n"
    ∷ codes "  exit 1\n"
    ∷ codes "fi\n"
    ∷ (if has_suffix (to_lower url) (codes ".gz") then gunzip_block else [])
    ∷ (if is_empty sha then [] else verify_block (quote sha))
    ∷ codes "\n"
    ∷ codes "chmod 755 \"$TMP\"\n"
    ∷ codes "mv \"$TMP\" "
    ∷ quote install_path
    ∷ codes "\n"
    ∷ codes "trap - EXIT\n"
    ∷ [])

-- Where the script is written, at the random name.
unfoldable pub script_path : Bytes → Bytes
script_path nonce = codes "/tmp/ptyrelay-fetch." ++ (nonce ++ codes ".sh")

unfoldable pub fetch_cmd : Bytes → Bytes
fetch_cmd path =
    codes "( sh "
    ++ (quote path ++ (codes "; __rc=$?; rm -f " ++ (quote path ++ codes "; exit $__rc )")))
