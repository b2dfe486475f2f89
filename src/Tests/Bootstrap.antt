-- ===== src/Tests/Bootstrap.antt =====
-- An installation on a remote that has `uname`.
use ptyrelay.Base.{
  ◌≡◌, refl, ap, [], ◌∷◌, ◌==◌, Bytes, Bool, true, false, none, some, inr, ◌⊎◌, codes, pos,
  if◌then◌else◌, arith,
}
use ptyrelay.Bytes.{same_bytes, replace_loop}
use ptyrelay.Bytes.Text.{trim_space}
use ptyrelay.Base64.{encode, decode, pieces, sextet, value}
use ptyrelay.Quote.{quote}
use ptyrelay.Session.Streaming.{last_index_byte}
use ptyrelay.Shell.Probe.{ensure_probed}
use ptyrelay.Agent.Os.{Failure}
use ptyrelay.Shell.State.{ProbeResult, Shell, Session, run_must_succeed}
use ptyrelay.Shell.Ops.{remove_cmd, mkdir_all_cmd}
use ptyrelay.Shell.Write.{
  stage_cmd, empty_cmd, digest_cmd, finalize_cmd, write_file, store, stage_all,
}
use ptyrelay.Session.Drive.{RunResult}
use ptyrelay.Shell.Write.Remote.{Remote}
use ptyrelay.Bootstrap.{
  bootstrap, run_cmd, from_provider, detect_platform, resolve_install_path, parent_of,
}
use ptyrelay.Bootstrap.Platform.{fields_loop}
use ptyrelay.Bootstrap.Installed.{Names, bootstrap-installed}
use ptyrelay.Tests.Remote.{obey, obey_Remote, obey-plain, unquote, from_quote}
use ptyrelay.Tests.Disk.{Disk}

-- The remote of the writes, where a line that begins with a `u` is answered with a platform.
unfoldable named : Session Disk
named [] stdin d = obey [] stdin d
named (c ∷ b) stdin d =
    if c == b'u'
    then (d, inr (record { output = codes "Linux x86_64\n"; exit_code = pos 0 }))
    else obey (c ∷ b) stdin d

named_Remote : Remote named []
unfolding named stage_cmd empty_cmd digest_cmd remove_cmd finalize_cmd
named_Remote = record {
  content = obey_Remote.content;
  is_dir = obey_Remote.is_dir;
  stage_spares = obey_Remote.stage_spares;
  stage_first = obey_Remote.stage_first;
  stage_more = obey_Remote.stage_more;
  empty_spares = obey_Remote.empty_spares;
  emptied = obey_Remote.emptied;
  digest_keeps = obey_Remote.digest_keeps;
  remove_spares = obey_Remote.remove_spares;
  finalize_whole = obey_Remote.finalize_whole;
  finalized = obey_Remote.finalized;
}

abbrev tools : ProbeResult
tools = record {
  os_name = codes "Linux";
  has_base64 = true;
  base64_wrap = true;
  has_gzip = false;
  sha256_cmd = [];
  stat_style = codes "gnu";
  has_find_printf = false;
}

abbrev probed_shell : Shell
probed_shell = record {
  probe = some tools;
  closed_flag = false;
  chunk_size = 4;
  max_shell_file_size = 100;
}

abbrev binary : Bytes → Bytes → Failure ⊎ Bytes
binary os arch = inr (codes "agent")

abbrev path : Bytes
path = codes "/opt/a"

abbrev no_digest : Bytes → Bytes
no_digest b = []

abbrev any : Bytes → Bool
any b = true

abbrev empty_disk : Disk
empty_disk p = none

returned :
    (bootstrap named no_digest [] any
      (from_provider binary path)
      none
      (some (codes "7"))
      (probed_shell, empty_disk)).1
    ≡ inr path
unfolding bootstrap named detect_platform ensure_probed fields_loop trim_space resolve_install_path
    parent_of last_index_byte same_bytes run_must_succeed mkdir_all_cmd obey from_quote write_file
    store encode pieces stage_all stage_cmd quote replace_loop unquote finalize_cmd decode sextet
    value
returned = refl

bootstrap-installed_example :
    let run =
      bootstrap named no_digest [] any
        (from_provider binary path)
        none
        (some (codes "7"))
        (probed_shell, empty_disk) in
    (v : Shell × Disk) × (res : RunResult) × (os : Bytes) × (arch : Bytes) × (bin : Bytes)
    × (run_cmd named no_digest [] any (codes "uname -sm") (probed_shell, empty_disk) ≡ (v, inr res))
    × Names named no_digest [] any tools named_Remote res os arch
    × (binary os arch ≡ inr bin)
    × (named_Remote.content run.0.1 path ≡ some bin)
unfolding named_Remote
bootstrap-installed_example =
    let run =
      bootstrap named no_digest [] any (from_provider binary path) none (some (codes "7"))
        (probed_shell, empty_disk) in
    bootstrap-installed named no_digest [] any tools named_Remote binary path none
      (some (codes "7")) probed_shell run.0.0 empty_disk run.0.1 path refl (omega arith) refl
      (λ os. λ arch. λ bin. λ h. let same : codes "agent" ≡ bin = cc in rw⁻¹ same (omega arith))
      (ap (λ r. (run.0, r)) returned) (obey-plain run.0.1 path)
