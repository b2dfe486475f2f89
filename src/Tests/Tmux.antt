-- ===== src/Tests/Tmux.antt =====
-- The tmux channel on a pane that takes two chunks.
use ptyrelay.Base.{
  ℕ, zero, suc, true, false, Bytes, List, [], ◌∷◌, ◌++◌, codes, pos, Option, none, some, ◌≡◌, refl,
  arith, inr,
}
use ptyrelay.Bytes.{index_byte, replace_loop}
use ptyrelay.Bytes.Text.{trim_space}
use ptyrelay.Agent.Os.{Failure, new_error}
use ptyrelay.Channel.Tmux.{
  Options, Pane, Host, new, write, send_chunks, run_tmux, resolve_log_path, socket_args,
  shell_single_quote,
}
use ptyrelay.Channel.Tmux.Typed.{Sent, Plain, TypesLiterally, write-Sent}
use ptyrelay.Channel.Tmux.Log.{Event, ticked, shut}
use ptyrelay.Channel.Tmux.Init.{init_session}

-- What was typed, and how many more chunks the pane takes.
abbrev Screen : Type 0
Screen = Bytes × ℕ

abbrev type_chunk : Bytes → Screen → Screen × Bytes × Option Failure
type_chunk b (typed, zero) =
    ((typed, zero), codes "no server\n", some (new_error (codes "exit status 1")))
type_chunk b (typed, suc n) = ((typed ++ b, n), [], none)

-- `send-keys` has six arguments.
abbrev run_args : List Bytes → Screen → Screen × Bytes × Option Failure
run_args (_ ∷ _ ∷ _ ∷ _ ∷ _ ∷ b ∷ []) s = type_chunk b s
run_args args s = (s, [], none)

abbrev host : Host Screen
host = record {
  look_path = λ s. none;
  exec = run_args;
  output = λ args. λ s. (s, inr (codes "%7\n%8\n"));
  create_temp = λ s. (s, inr (codes "/tmp/log"));
  truncate = λ p. λ s. (s, none);
  open_file = λ p. λ s. (s, none);
  close_file = λ p. λ s. (s, none);
  remove = λ p. λ s. (s, none);
}

abbrev small : Options
small = record {
  pane = codes "%7";
  socket = [];
  socket_is_path = false;
  log_file = [];
  chunk_size = pos 2;
}

abbrev pane : Pane
pane = record {
  pane = codes "%7";
  log_path = codes "/tmp/log";
  log_is_temp = true;
  chunk_size = 2;
  tmux_args = [];
  closed = false;
}

abbrev blank : Screen
blank = ([], 2)

attached : new host small blank ≡ (blank, inr pane)
unfolding new run_tmux resolve_log_path socket_args
attached = refl

types : TypesLiterally host pane (λ s. s.0)
types b (typed, zero) plain = refl
types b (typed, suc n) plain = refl

no_separator : Plain 2 (codes "abcde")
no_separator zero h = refl
no_separator (suc zero) h = refl
no_separator (suc (suc zero)) h = refl
no_separator (suc (suc (suc k))) h = absurd (omega arith)

-- The third chunk fails, and four bytes are reported.
partial : (write host pane (codes "abcde") blank).0 ≡ (codes "abcd", 0)
unfolding write send_chunks run_tmux
partial = refl

partial_count : (write host pane (codes "abcde") blank).1 ≡ 4
unfolding write send_chunks run_tmux
partial_count = refl

quoted : shell_single_quote (codes "a'b") ≡ codes "'a'\\''b'"
unfolding shell_single_quote replace_loop
quoted = refl

-- The options of the first pane.
first_pane :
    init_session host
      (λ n. [])
      (record {
        socket = [];
        socket_is_path = false;
        session_name = codes "s";
        command = [];
        width = pos 0;
        height = pos 0;
      })
      blank
    ≡ (
      blank,
      inr (record {
        pane = codes "%7";
        socket = [];
        socket_is_path = false;
        log_file = [];
        chunk_size = pos 0;
      }),
    )
unfolding init_session run_tmux socket_args trim_space index_byte
first_pane = refl

write-Sent_example :
    let (t, n, e) = write host pane (codes "abcde") blank in Sent [] t.0 (codes "abcde") 0 n e
write-Sent_example =
    write-Sent host small pane (λ s. s.0) blank blank attached types (codes "abcde") blank
      no_separator

-- Two empty polls, then some bytes.
abbrev waiting : List Event
waiting = ticked [] ∷ ticked [] ∷ ticked (codes "abc") ∷ shut ∷ []
