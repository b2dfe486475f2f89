-- ===== src/Tests.antt =====
-- The theorems at concrete inputs, and short runs of the code.
mod Disk
mod Session
mod Streaming
mod Tmux
mod Websocket
mod Quote
mod Router
mod Proto
mod Agent
mod Client
mod Shell
mod Cli
mod Mcp
mod Bootstrap
mod Remote
mod OneShot
mod Files
