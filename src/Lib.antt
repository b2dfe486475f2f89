-- ===== src/Lib.antt =====
-- ptyrelay: a remote shell behind a pseudo terminal, used as a file system and a command runner.
--
-- A session (pkg/session) writes a command between two marker lines and cuts the output out of the
-- byte stream that comes back. Backends (pkg/backend) turn that into file operations: one by shell
-- commands, one by a helper process on the remote (cmd/ptyrelay-agent, pkg/proto), and a router
-- prefers the helper and falls back to the shell.
--
-- Bytes and Go strings are lists of numbers, Go's int a number where the code keeps it from
-- overflow; a method that changes its receiver returns the new one; a call of the system, of the
-- session or of a backend is a field or a parameter that passes a state on.
--
-- Files and code:
--   Base, Bytes      shared names; what the code uses of bytes, strings and strconv (Index: laws)
--   Base64           encoding/base64 as the code uses it, and the cutting into pieces of io.go
--   Quote            internal/shellquote: Quote, QuoteAll; Words is the shell's reading of a line
--   Channel          pkg/channel/channel.go: Caps
--   Channel.Websocket pkg/channel/websocket/websocket.go: the read pump, attemptReconnect, Read, Write,
--     Resize, Close; Dial: Dial, dialWithRetry
--   Channel.Tmux     pkg/channel/tmux/tmux.go: New, Write, Resize, Close; Log: Read; Init: init.go
--   Channel.Subprocess pkg/channel/subprocess/subprocess.go: Start, Close
--   Session.Sentinel pkg/session/sentinel.go: newSentinelParser, feed, advance, appendOutput
--   Session.Ansi     pkg/session/ansi.go: StripANSI, NormalizeLineEndings
--   Session.Wrap     pkg/session/framed.go: wrapCommand, truncateForError
--   Session.Wire     pkg/session/framed.go: writeChannel, writeAll, channelWriter.Write
--   Session.Drive    pkg/session/framed.go: driveParser, its select as a list of events
--   Session.Framed   pkg/session/framed.go: RunFramed and its parts; pkg/session/prelude.go: Prelude
--   Session.Streaming pkg/session/streaming.go: the parser of a pipe's output
--   Session.Pump     pkg/session/framed.go: Pipe, pipePump
--   Proto            pkg/proto/proto.go: the messages; Proto.Frame: WriteFrame, ReadFrame of wire.go
--   Backend          pkg/backend/backend.go: Op, Class, the interface of a backend
--   Backend.Router   pkg/backend/router/router.go: route, the methods, Probe, Close
--   Agent.Os         the calls of packages os, os/exec and filepath, as an interface
--   Agent.Handlers   cmd/ptyrelay-agent/handlers.go: the handlers
--   Agent.Dispatch   dispatch of the same file; runOneShot and runREPL of main.go
--   Client.Errors    pkg/backend/agent/agent.go: mapErrKind
--   Client.Repl      pkg/backend/agent/repl.go: startREPL, callREPL; Close: closeREPL
--   Client.OneShot   pkg/backend/agent/agent.go: callOneShot, the outcome of Probe
--   Client.Files     pkg/backend/agent/agent.go: callOp; the methods of fs.go and exec.go
--   Shell.State      pkg/backend/shell/shell.go: the options, runShell, runMustSucceed
--   Shell.Probe      pkg/backend/shell/probe.go: detect; Probe, ensureProbed and Close of shell.go
--   Shell.Stat       pkg/backend/shell/fs.go: buildStatCmd, parseStatLine, the lines of List
--   Shell.Ops        the operations of fs.go and exec.go
--   Shell.Write      pkg/backend/shell/io.go: Read, Write, the buffered writer; Remote: what is relied on
--     of the tools of the remote
--   Bootstrap        pkg/bootstrap/bootstrap.go: Bootstrap; Platform: normalizeOS, normalizeArch; Fetch: fetch.go
--   Mcp              cmd/ptyrelay-mcp/main.go: the loop and handle; Tools: tools.go; Config: config.go
--   Cli              cmd/ptyrelay/connect.go: dial; Commands: cmd_exec.go, cmd_file.go, cmd_agent.go
--   Tests            runs and applications at concrete inputs
--
-- Bounds and fuel. The loop of feed has four rounds, as many as there are states to leave: it is
-- proved that they suffice. A loop that writes a payload in pieces has a round for each byte, and a
-- round takes one byte at least. An exit status has three digits at most, the hexadecimal text of a
-- 64-bit counter sixteen.
--
-- Not modelled: clocks, locks and goroutines (their effects are the order of the events), logging,
-- the random nonce and suffix (parameters), JSON (a codec is a parameter), the time of a file, the
-- keepalive of the WebSocket channel, the constant texts of the tools' descriptions, the providers of
-- pkg/bootstrap (a parameter), and the flag parsers and the printing of cmd/ptyrelay.
pub mod Base
pub mod Bytes
pub mod Quote
pub mod Channel
pub mod Session
pub mod Proto
pub mod Backend
pub mod Agent
pub mod Base64
pub mod Bootstrap
pub mod Cli
pub mod Client
pub mod Mcp
pub mod Shell
pub mod Tests
