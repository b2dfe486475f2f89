-- ===== src/Mcp.antt =====
-- The server of cmd/ptyrelay-mcp/main.go: JSON-RPC requests on lines, each of which may be a call of a tool.
-- The JSON codec, the dialling and the backend are parameters.
pub mod Tools
pub mod Answers
pub mod Config
use ptyrelay.Base.{
  ℕ, Bool, true, false, Bytes, List, [], ◌∷◌, ◌++◌, Option, none, some, ◌⊎◌, inl, inr,
  if◌then◌else◌, codes, ℤ, pos, negsuc,
}
use ptyrelay.Bytes.{same_bytes}
use ptyrelay.Bytes.Split.{is_empty}
use ptyrelay.Backend.{Call}
use ptyrelay.Mcp.Tools.{
  ToolResult, error_content, text_content, Args, Values, tool_read_file, tool_write_file,
  tool_run_command, tool_list_dir, tool_mkdir, tool_rename, tool_remove, tool_stat,
}

-- `rpcRequest`; the id of a notification is nil.
pub record RpcRequest : Type 0 where
  pub id : Option Bytes
  pub method : Bytes
  pub params : Bytes

-- The results of `rpcResponse`: those of `initialize`, of `tools/list`, of a tool, and the empty object.
pub data RpcResult : Type 0 where
  initialized tools_listed empty_object : RpcResult
  tool_done : ToolResult → RpcResult
  rpc_error : ℤ → Bytes → RpcResult

pub record RpcResponse : Type 0 where
  pub id : Bytes
  pub outcome : RpcResult

-- `reply` and `errReply`.
abbrev pub reply : Bytes → RpcResult → RpcResponse
reply id outcome = record { id = id; outcome = outcome }

abbrev pub err_reply : Bytes → ℤ → Bytes → RpcResponse
err_reply id code message = record { id = id; outcome = rpc_error code message }

-- `toolsCallParams`.
pub record ToolsCallParams : Type 0 where
  pub name : Bytes
  pub arguments : Bytes

-- What the server calls: the JSON codec (`parse_args` for the structure of the tool that is named), `dialFromConfig` with its teardown, the backend behind a connection
-- `C`, and what `toolAgentInfo` reports.
pub record Peer (W C V E : Type 0) : Type 0 where
  pub parse_request : Bytes → Bytes ⊎ RpcRequest
  pub parse_call : Bytes → Bytes ⊎ ToolsCallParams
  pub parse_args : Bytes → Bytes → Option Args
  pub dial_from_config : W → W × (Bytes ⊎ C)
  pub teardown : C → W → W
  pub call : C → Call → W → W × V × Option E
  pub agent_info : C → W → Bytes
  pub values : Values V
  pub error_text : E → Bytes

module _ {W C V E : Type 0} (peer : Peer W C V E) where
  abbrev pub is_tool : Bytes → ToolsCallParams → Bool
  is_tool tool p = same_bytes p.name tool

  -- The switch of `callTool`, on an open connection.
  unfoldable pub run_tool : C → ToolsCallParams → W → W × ToolResult
  run_tool c p w =
      let v = peer.values in
      let text = peer.error_text in
      let call = peer.call c in
      let a = peer.parse_args p.name p.arguments in
      if is_tool (codes "read_file") p
      then tool_read_file v text call a w
      else if is_tool (codes "write_file") p
      then tool_write_file v text call a w
      else if is_tool (codes "run_command") p
      then tool_run_command v text call a w
      else if is_tool (codes "list_dir") p
      then tool_list_dir v text call a w
      else if is_tool (codes "stat") p
      then tool_stat v text call a w
      else if is_tool (codes "mkdir") p
      then tool_mkdir v text call a w
      else if is_tool (codes "rename") p
      then tool_rename v text call a w
      else if is_tool (codes "remove") p
      then tool_remove v text call a w
      else if is_tool (codes "agent_info") p
      then (w, text_content (peer.agent_info c w))
      else (w, error_content (codes "unknown tool: " ++ p.name))

  -- `dial`: the connection is kept once it is there.
  abbrev pub dialled : W → Bytes ⊎ C → Option C × W × (Bytes ⊎ C)
  dialled w (inl e) = (none, w, inl e)
  dialled w (inr c) = (some c, w, inr c)

  unfoldable pub dial : Option C → W → Option C × W × (Bytes ⊎ C)
  dial (some c) w = (some c, w, inr c)
  dial none w = let (u, r) = peer.dial_from_config w in dialled u r

  abbrev pub on_dialled : ToolsCallParams → Option C → W → Bytes ⊎ C → Option C × W × ToolResult
  on_dialled p be w (inl e) = (be, w, error_content (codes "dial: " ++ e))
  on_dialled p be w (inr c) = let (u, r) = run_tool c p w in (be, u, r)

  -- `callTool`, whose error is always nil.
  unfoldable pub call_tool : ToolsCallParams → Option C → W → Option C × W × ToolResult
  call_tool p be w = let (be2, u, r) = dial be w in on_dialled p be2 u r

  abbrev pub on_call : Bytes → Bytes ⊎ ToolsCallParams → Option C → W → Option C × W × RpcResponse
  on_call id (inl e) be w = (be, w, err_reply id (negsuc 32601) (codes "invalid params: " ++ e))
  on_call id (inr p) be w = let (be2, u, r) = call_tool p be w in (be2, u, reply id (tool_done r))

  -- The switch of `handle`.
  unfoldable pub handle_method : Bytes → RpcRequest → Option C → W → Option C × W × RpcResponse
  handle_method id req be w =
      if same_bytes req.method (codes "initialize")
      then (be, w, reply id initialized)
      else if same_bytes req.method (codes "tools/list")
      then (be, w, reply id tools_listed)
      else if same_bytes req.method (codes "tools/call")
      then on_call id (peer.parse_call req.params) be w
      else if same_bytes req.method (codes "shutdown")
      then (be, w, reply id empty_object)
      else (be, w, err_reply id (negsuc 32600) (codes "method not found: " ++ req.method))

  abbrev pub answered : Option C × W × RpcResponse → Option C × W × Option RpcResponse
  answered (be, w, r) = (be, w, some r)

  -- `handle`, which has no response for a notification.
  abbrev pub handle_id :
      RpcRequest → Option Bytes → Option C → W → Option C × W × Option RpcResponse
  handle_id req none be w = (be, w, none)
  handle_id req (some id) be w = answered (handle_method id req be w)

  unfoldable pub handle : RpcRequest → Option C → W → Option C × W × Option RpcResponse
  handle req be w = handle_id req req.id be w

  abbrev pub on_parsed : Bytes ⊎ RpcRequest → Option C → W → Option C × W × Option RpcResponse
  on_parsed (inl e) be w = (be, w, none)
  on_parsed (inr req) be w = handle req be w

  -- A round of the loop of `run`, up to its write.
  unfoldable pub on_line : Bytes → Option C → W → Option C × W × Option RpcResponse
  on_line line be w =
      if is_empty line then (be, w, none) else on_parsed (peer.parse_request line) be w

  -- What `run` leaves: the connection, the world, the responses that were written, and the error of a write.
  pub record Run : Type 0 where
    pub connection : Option C
    pub world : W
    pub written : List RpcResponse
    pub error : Option Bytes

  abbrev pub ended : Option C → W → Run
  ended be w = record { connection = be; world = w; written = []; error = none }

  abbrev pub prepend : RpcResponse → Run → Run
  prepend r later = record later { written = r ∷ later.written }

  -- The write of a response, which may fail; `later` is the rest of the loop.
  abbrev pub after_write : RpcResponse → Option C → W → Option Bytes → Run → Run
  after_write r be w none later = prepend r later
  after_write r be w (some e) later = record {
    connection = be;
    world = w;
    written = [];
    error = some e;
  }

  abbrev pub next_fault : List (Option Bytes) → Option Bytes
  next_fault [] = none
  next_fault (f ∷ fs) = f

  abbrev pub later_faults : List (Option Bytes) → List (Option Bytes)
  later_faults [] = []
  later_faults (f ∷ fs) = fs

  -- The loop of `run` on the lines of the input, with the errors of its writes in turn.
  unfoldable pub run_lines : List Bytes → List (Option Bytes) → Option C → W → Run
  run_lines [] faults be w = ended be w
  run_lines (line ∷ lines) faults be w =
      let (be2, u, r) = on_line line be w in
      let silent = run_lines lines faults be2 u in
      let spoken = run_lines lines (later_faults faults) be2 u in
      elim r [ none ↦ silent | some resp ↦ after_write resp be2 u (next_fault faults) spoken ]

  -- `run`, with its deferred teardown; `scan_error` is that of the scanner behind the last line.
  abbrev pub torn_down : Option C → W → W
  torn_down none w = w
  torn_down (some c) w = peer.teardown c w

  abbrev pub or_scan_error : Option Bytes → Option Bytes → Option Bytes
  or_scan_error none scan_error = scan_error
  or_scan_error (some e) scan_error = some e

  unfoldable pub run : List Bytes → Option Bytes → List (Option Bytes) → W → Run
  run lines scan_error faults w =
      let end = run_lines lines faults none w in
      record end {
        world = torn_down end.connection end.world;
        error = or_scan_error end.error scan_error;
      }
