-- ===== src/Tests/OneShot.antt =====
-- A one-shot call over a remote that reads its command lines.
use ptyrelay.Base.{
  ℕ, ◌≡◌, refl, ap, ◌∙◌, [], ◌∷◌, ◌++◌, ◌==◌, Bytes, Bool, true, false, Option, none, some, inl,
  inr, ◌⊎◌, codes, if◌then◌else◌, drop, flatten, map, arith,
}
use ptyrelay.Bytes.{same_bytes}
use ptyrelay.Base64.{decode}
use ptyrelay.Quote.{quote}
use ptyrelay.Proto.{read, Request, Response, version}
use ptyrelay.Session.Drive.{RunResult, SessionError}
use ptyrelay.Shell.State.{Session}
use ptyrelay.Agent.Os.{Failure, new_error}
use ptyrelay.Agent.Dispatch.{run_one_shot, dispatch, ok_with, exit_on_err}
use ptyrelay.Agent.Handlers.{handle_read}
use ptyrelay.Client.Repl.{format_hex}
use ptyrelay.Client.OneShot.{stage_request, agent_cmd, call_one_shot}
use ptyrelay.Client.OneShot.Served.{OneShotRemote, IsServed, call_one_shot-IsServed}
use ptyrelay.Tests.Remote.{first_quoted, first_quoted-space, first_quoted-end, finished}
use ptyrelay.Tests.Disk.{Disk, put, put_same}
use ptyrelay.Tests.Client.{env, client, as_text}

-- What the agent works on, and the request files.
record Far : Type 0 where
  work : ℕ
  files : Disk

abbrev sent_text : Bytes
sent_text = codes "read /f\n"

abbrev sent_request : Request
sent_request = record { v = version; id = format_hex 255; op = read; args = codes "/f" }

abbrev read_request : Bytes → Failure ⊎ Request
read_request b = if same_bytes b sent_text then inr sent_request else inl (new_error [])

abbrev write_request : Request → Bytes ⊎ Bytes
write_request req = inr sent_text

abbrev write_response : Response → Bytes
write_response resp = if resp.ok then codes "ok\n" else codes "error\n"

abbrev read_response : Bytes → Bytes ⊎ Response
read_response b =
    if same_bytes b (codes "ok\n") then inr (ok_with (format_hex 255) (codes "{}")) else inl []

abbrev appended : Option Bytes → Bytes → Option Bytes
appended none b = some b
appended (some old) b = some (old ++ b)

abbrev is_more : Bytes → Bool
is_more [] = false
is_more (c ∷ _) = c == b'>'

abbrev stage_line : Bytes × Bytes → Far → Far × (SessionError ⊎ RunResult)
stage_line (piece, rest) d =
    let more = is_more (drop 2 rest) in
    let temp = (first_quoted (drop (if more then 4 else 3) rest)).0 in
    (
      record d {
        files = put d.files temp (if more then appended (d.files temp) piece else some piece);
      },
      finished 0,
    )

abbrev no_eof : Failure → Bool
no_eof e = false

abbrev serve : Far → Bytes → Far × (SessionError ⊎ RunResult)
serve d stdin =
    let served = run_one_shot env [] (read_request stdin) d.work in
    (
      record d { work = served.state },
      inr (record {
        output = flatten (map write_response served.written);
        exit_code = (exit_on_err no_eof served.error).1;
      }),
    )

abbrev agent_line : Far → Option Bytes → Far × (SessionError ⊎ RunResult)
agent_line d none = (d, finished 1)
agent_line d (some stdin) = serve d stdin

abbrev decoded : Option Bytes → Option Bytes
decoded none = none
decoded (some text) = decode text

-- The lines of a call: they begin with printf, and with a parenthesis.
obey : Session Far
obey [] stdin d = (d, finished 0)
obey (c ∷ b) stdin d =
    if c == b'p'
    then stage_line (first_quoted (drop 11 b)) d
    else agent_line d (decoded (d.files (first_quoted (drop 13 b)).0))

abbrev Ran : Type 0
Ran = Far × (SessionError ⊎ RunResult)

obey-stage :
    (piece temp : Bytes) (first : Bool) (d : Far)
    → obey (stage_request piece first temp) [] d ≡ (
      record d {
        files = put d.files temp (if first then some piece else appended (d.files temp) piece);
      },
      finished 0,
    )
unfolding obey stage_request
obey-stage piece temp true d =
    ap (λ z. stage_line z d) (first_quoted-space piece (codes "> " ++ quote temp))
    ∙ ap (λ (z : Bytes × Bytes). (record d { files = put d.files z.0 (some piece) }, finished 0))
        (first_quoted-end temp)
obey-stage piece temp false d =
    ap (λ z. stage_line z d) (first_quoted-space piece (codes ">> " ++ quote temp))
    ∙ ap
        (λ (z : Bytes × Bytes).
          (record d { files = put d.files z.0 (appended (d.files z.0) piece) }, finished 0))
        (first_quoted-end temp)

obey-agent :
    (temp text stdin : Bytes) (d : Far)
    → d.files temp ≡ some text
    → decode text ≡ some stdin
    → obey (agent_cmd (codes "/a") temp) [] d ≡ serve d stdin
unfolding obey agent_cmd
obey-agent temp text stdin d h e =
    ap (λ (z : Bytes × Bytes). agent_line d (decoded (d.files z.0)))
      (first_quoted-space temp (
        codes "| "
        ++ (quote (codes "/a")
            ++ (codes " --mode=one-shot; rc=$?; rm -f " ++ (quote temp ++ codes "; exit $rc )")))))
    ∙ ap (λ o. agent_line d (decoded o)) h
    ∙ ap (agent_line d) e

-- The remote keeps what is relied on.
obey_OneShotRemote : OneShotRemote obey env (codes "/a") read_request write_response no_eof
obey_OneShotRemote = record {
  usable = λ p. true;
  state = λ d. d.work;
  content = λ d p. d.files p;
  stage_works = λ piece temp first d here. ap (λ (z : Ran). z.1) (obey-stage piece temp first d);
  stage_spares =
      λ piece temp first d here. ap (λ (z : Ran). z.0.work) (obey-stage piece temp first d);
  stage_first = λ piece temp d here.
      ap (λ (z : Ran). z.0.files temp) (obey-stage piece temp true d)
      ∙ put_same d.files temp (some piece);
  stage_more = λ piece temp old d here h.
      ap (λ (z : Ran). z.0.files temp) (obey-stage piece temp false d)
      ∙ put_same d.files temp (appended (d.files temp) piece)
      ∙ ap (λ o. appended o piece) h;
  agent_state =
      λ temp text stdin d h e. ap (λ (z : Ran). z.0.work) (obey-agent temp text stdin d h e);
  agent_prints =
      λ temp text stdin d h e calm. ap (λ (z : Ran). z.1) (obey-agent temp text stdin d h e);
}

abbrev far : Far
far = record { work = 5; files = λ p. none }

text_read : read_request sent_text ≡ inr sent_request
unfolding same_bytes
text_read = refl

response_read :
    let resp = (dispatch env sent_request 5).1 in read_response (write_response resp) ≡ inr resp
unfolding same_bytes dispatch handle_read
response_read = refl

call_one_shot-IsServed_example :
    let (d, t, r) =
      call_one_shot obey read_response as_text [] write_request
        (codes "/a")
        (codes "x")
        read
        (inr (codes "/f"))
        client
        far in
    IsServed obey env
      (codes "/a")
      read_request
      write_response
      no_eof
      obey_OneShotRemote
      read_response
      as_text
      []
      sent_request
      far
      (t, r)
    × (d.id_counter ≡ 255)
unfolding obey_OneShotRemote
call_one_shot-IsServed_example =
    call_one_shot-IsServed obey env (codes "/a") read_request write_response no_eof
      obey_OneShotRemote read_response as_text [] write_request (codes "x") read (codes "/f")
      sent_text client far refl text_read (omega arith) (omega arith) refl response_read
