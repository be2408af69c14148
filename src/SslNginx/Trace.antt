-- ===== src/SslNginx/Trace.antt =====
-- The trace preflight: what an sslsniff run printed, and whether it shows that events were seen.
use bpftime_benchmark.Prelude.{
  ℕ, ltb, ◌&&◌, ◌||◌, not, Bool, true, false, Option, none, some, List, [], ◌∷◌, ◌++◌, ◌⊎◌, inl,
  inr, length, keep,
}
use bpftime_benchmark.Text.Base.{Text, codes, starts_with, contains}
use bpftime_benchmark.Text.Lines.{splitlines, encoded_length}
use bpftime_benchmark.Python.Exec.{
  Exec, Exn, error, pure, raise, try_except, on_exception, attempt, ◌>>=◌, ◌>>◌,
}
use bpftime_benchmark.Python.World.{World, Proc, Status, Command}
use bpftime_benchmark.Python.Run.{Run, io, modify}
use bpftime_benchmark.Python.Floats.{Floats}
use bpftime_benchmark.SslNginx.Book.{
  Config, TestName, baseline, kernel_sslsniff, bpftime_sslsniff, attach_failures, Summary, Book,
  mark_failed,
}

-- A truthy list.
abbrev pub nonempty {ℓ} : {A : Type ℓ} → List A → Bool
nonempty [] = false
nonempty (x ∷ xs) = true

abbrev pub event_prefixes : List Text
event_prefixes = codes "READ/RECV" ∷ codes "WRITE/SEND" ∷ codes "HANDSHAKE" ∷ []

abbrev pub attach_marker_texts : List Text
attach_marker_texts = codes "OpenSSL path:" ∷ codes "GnuTLS path:" ∷ codes "NSS path:" ∷ []

abbrev pub error_marker_texts : List Text
error_marker_texts =
    codes "no program attached"
    ∷ codes "failed to open perf buffer"
    ∷ codes "ERROR:"
    ∷ codes "Error:"
    ∷ []

-- `line.startswith((a, b, ...))`.
unfoldable pub starts_with_any : Text → List Text → Bool
starts_with_any line [] = false
starts_with_any line (p ∷ ps) = starts_with line p || starts_with_any line ps

unfoldable pub count_events : Text → ℕ
unfolding keep starts_with_any splitlines
count_events stdout =
    length (keep (λ line. starts_with_any line event_prefixes) (splitlines stdout))

unfoldable pub find_attach_markers : Text → List Text
unfolding keep contains
find_attach_markers stdout = keep (contains stdout) attach_marker_texts

unfoldable pub find_error_markers : Text → Text → List Text
unfolding keep contains
find_error_markers stdout stderr =
    keep (λ marker. contains stdout marker || contains stderr marker) error_marker_texts

unfoldable pub summarize_trace_output : Text → Text → Option Status → Summary
unfolding count_events find_attach_markers find_error_markers encoded_length
summarize_trace_output stdout stderr code =
    let attached = find_attach_markers stdout in
    let errors = find_error_markers stdout stderr in
    record {
      returncode = code;
      event_count = count_events stdout;
      attach_markers = attached;
      attach_started = nonempty attached;
      attach_success = nonempty attached && not (nonempty errors);
      error_markers = errors;
      stdout_bytes = encoded_length stdout;
      stderr_bytes = encoded_length stderr;
    }

-- What stands for a preflight that raised.
unfoldable pub failed_summary : Option Status → Text → Summary
failed_summary code e = record {
  returncode = code;
  event_count = 0;
  attach_markers = [];
  attach_started = false;
  attach_success = false;
  error_markers = e ∷ [];
  stdout_bytes = 0;
  stderr_bytes = 0;
}

unfoldable pub trace_is_effective : Summary → Bool
trace_is_effective s = s.attach_success && ltb 0 s.event_count

module _ {F : Floats} {W : World} where
  -- `trace_observability[t].append(s)`; that dict has no key `baseline`.
  unfoldable pub append_trace : TestName → Summary → Exec (Run (Book F) W) (Unit {0})
  append_trace baseline x = raise (error (codes "'baseline'"))
  append_trace kernel_sslsniff x =
      modify λ b. record b { kernel_traces = b.kernel_traces ++ x ∷ [] }
  append_trace bpftime_sslsniff x =
      modify λ b. record b { bpftime_traces = b.bpftime_traces ++ x ∷ [] }

  -- The call with its effect on `trace_observability`.
  unfoldable pub summarize : TestName → Text × Text → Option Status → Exec (Run (Book F) W) Summary
  summarize t (stdout, stderr) code = do
    let s = summarize_trace_output stdout stderr code
    append_trace t s
    pure s

  unfoldable pub mark_trace_preflight_failed : TestName → Exec (Run (Book F) W) (Unit {0})
  mark_trace_preflight_failed t = mark_failed t attach_failures

  unfoldable pub terminate_process : Option Proc → Exec (Run (Book F) W) (Unit {0})
  terminate_process none = pure tt
  terminate_process (some proc) = try_except (io W (W.terminate proc) >> io W (W.wait proc 5)) (
      on_exception
        λ _. try_except (io W (W.kill proc) >> io W (W.wait proc 5)) (on_exception λ _. pure tt))

  unfoldable pub poll_of : Option Proc → Exec (Run (Book F) W) (Option Status)
  poll_of none = pure none
  poll_of (some proc) = io W (W.poll proc)

unfoldable pub test_url : Text
test_url = codes "https://127.0.0.1:4043/index.html"

-- The request that gives the tracer something to see.
unfoldable pub curl : Config → Command
unfolding test_url
curl c = record {
  argv = codes "curl" ∷ codes "-k" ∷ codes "-s" ∷ codes "-o" ∷ codes "/dev/null" ∷ test_url ∷ [];
  preload = none;
  timeout = some c.trace_check_timeout;
}

module _ {F : Floats} {W : World} (c : Config) (t : TestName) where
  -- What `proc.poll()` says decides whether the page is requested first.
  unfoldable pub observe_polled : Proc → Option Status → Exec (Run (Book F) W) Summary
  observe_polled proc (some _) = do
    texts ← io W (W.communicate proc (some 1))
    code ← io W (W.returncode proc)
    summarize t texts code
  observe_polled proc none = do
    io W (W.run (curl c))
    terminate_process (some proc)
    texts ← io W (W.communicate proc (some c.trace_check_timeout))
    code ← io W (W.returncode proc)
    summarize t texts code

  -- The body of the `try` once the process runs.
  unfoldable pub observe : Proc → Exec (Run (Book F) W) Summary
  observe proc = do io W (W.sleep 2000); ended ← io W (W.poll proc); observe_polled proc ended

  -- The handler, which is reached with or without a process.
  unfoldable pub preflight_raised : Option Proc → Text → Exec (Run (Book F) W) Summary
  preflight_raised proc e = do
    terminate_process proc
    code ← poll_of proc
    append_trace t (failed_summary code e)
    pure (failed_summary code e)

  unfoldable pub preflight_started : Exn ⊎ Proc → Exec (Run (Book F) W) Summary
  preflight_started (inl e) = on_exception (preflight_raised none) e
  preflight_started (inr proc) =
      try_except (observe proc) (on_exception (preflight_raised (some proc)))

  unfoldable pub collect_trace_preflight : Command → Exec (Run (Book F) W) Summary
  collect_trace_preflight cmd = do started ← attempt (io W (W.popen cmd)); preflight_started started
