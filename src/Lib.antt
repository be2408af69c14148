-- ===== src/Lib.antt =====
-- Verification of the benchmark harness of bpftime: Python scripts that start servers, tracers and
-- load generators, collect what they print, and report, and the scripts that run an example in the
-- workflows.
--
-- The parts and their files:
--   SslNginx models benchmark/ssl-nginx/benchmark.py. SslNginx/Book has its global variables
--   (`results`, `run_stats`, `trace_observability`) with `mark_valid` and `mark_failed`;
--   SslNginx/Trace the trace preflight (`summarize_trace_output`, `collect_trace_preflight`);
--   SslNginx/Process the helpers on files, commands and processes and `parse_wrk_output`;
--   SslNginx/Ready `wait_for_nginx_ready`; SslNginx/Phase `run_baseline` and
--   `run_kernel_sslsniff`; SslNginx/Bpftime `run_bpftime_sslsniff`; SslNginx/Main `main`, its
--   dispatch over SSL_NGINX_BENCH_ORDER, `benchmark_failed` and the exit status.
--   Script models the two scripts of .github/script that run an example with two child processes.
--   Script/Process has what both keep: where `main` is suspended, its two events, the processes and
--   the tasks that follow their output, and the `finally` block. Script/Monitor models
--   `handle_stdout` of run_example.py and Script/Command its arguments and command lines;
--   Script/Example is its `main`, and Script/Nginx that of run_nginx_attach_example.py, whose
--   `handle_stdout`, with what it prints, is in Script/Nginx/Monitor. Between two `await`s a coroutine
--   runs by itself, so that a run is a list of events: a task takes a turn, a process ends, a response
--   comes, or `main` is resumed or what it awaits raises. The theorems are about every such list.
--   Script/Example/Contract has what run_example.py promises at each of its events, as a step relation
--   without processes.
--   Script/Winding is the interface by which both scripts end: the events that the `finally` block
--   waits for and what they do, from which its end is proved once.
--   Monitors models `handle_stdout` of benchmark/uprobe/benchmark.py and benchmark/mpk/benchmark.py:
--   one round of its loop is a function of what `asyncio.wait` came back with, and the loop runs over
--   the list of these. Victim models `parse_victim_output` of
--   benchmark/uprobe/benchmark.py and how its runs are collected.
--   Syscall models `init_safe_pids` and `cleanup_processes` of benchmark/syscall/benchmark.py, and
--   Syscall/Runs its `run_native`, `run_kernel_tracepoint` and `run_userspace_syscall`.
--   Perf models the sizes, the generated page and `parse_perf_csv` of
--   benchmark/ssl-nginx/perf_stat_sslsniff.py.
--   Python has what the scripts take from their language: exceptions, `try`, `finally` and `for`
--   over a state (Python/Exec), the operating system (Python/World) and floating-point numbers
--   (Python/Floats). Text has the methods of `str`, `os.path` and the regular expression that the
--   scripts use, over lists of code points.
--
-- The operating system is a parameter: a `World` is any state with the calls that the scripts make,
-- each of which may change that state and raise. Where a theorem needs more of it, a record names
-- what it relies on: that the clock goes on and that `time.sleep` advances it (IsTimely), and that
-- process numbers stay below a limit (IsBounded). A local variable that a
-- `finally` block reads is passed to the functions that the statement is cut into. The names of
-- those functions say which part of the statement they are. Times are in milliseconds.
--
-- Fuel: `wait_for_nginx_ready` sleeps half a second in every round and stops at its deadline, so
-- that twice the timeout in seconds and one round more are enough.
--
-- The loop of `init_safe_pids` adds a process number in every round, so that the kernel's limit on
-- them and one round more are enough.
--
-- A timeout of `wait_for` and the failure of a creation or of a request are events of the run of a
-- script, which may come at any time at which they are awaited, so that no clock is needed there.
--
-- Not modelled: in the scripts of .github/script, an interrupt of the script itself and, but for
-- `handle_stdout` of the nginx script, what is printed; elsewhere what is printed or logged, the JSON
-- text of the result files, and the C sources. The handlers of signals are not modelled either: that of
-- benchmark/ssl-nginx/benchmark.py exits with 0 between any two steps of the interpreter, so also
-- between `results[...].append` and `mark_valid` or between the two counters of `mark_failed`, while
-- the model has no exit but those that a statement or a call of the system raises, as an exception of
-- that call.
-- Of the digits that `\d` and `str.isdigit` know, those of ASCII are modelled; the white space is all
-- that Python knows.
pub mod Prelude
pub mod Text
pub mod Python
pub mod SslNginx
pub mod Monitors
pub mod Victim
pub mod Syscall
pub mod Perf
pub mod Script
mod Tests
