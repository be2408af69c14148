-- ===== src/SslNginx/Ready.antt =====
-- `wait_for_nginx_ready`: poll the process and the page until a deadline.
pub mod Timely
use bpftime_benchmark.Prelude.{
  ℕ, zero, suc, ◌+◌, ◌*◌, ltb, Bool, true, false, Option, none, some, [], ◌∷◌, if◌then◌else◌,
}
use bpftime_benchmark.Text.Base.{Text, codes, text_eq}
use bpftime_benchmark.Text.Lines.{strip}
use bpftime_benchmark.Python.Exec.{Exec, pure, try_except, on_exception, ◌>>=◌, ◌>>◌}
use bpftime_benchmark.Python.World.{World, Proc, Status, Command}
use bpftime_benchmark.Python.Run.{Run, io}
use bpftime_benchmark.Python.Floats.{Floats}
use bpftime_benchmark.SslNginx.Book.{Config, Book}
use bpftime_benchmark.SslNginx.Trace.{test_url}

-- curl, printing the status code of the answer.
unfoldable pub curl_code : ℕ → Command
curl_code seconds = record {
  argv =
      codes "curl"
      ∷ codes "-k"
      ∷ codes "-s"
      ∷ codes "-o"
      ∷ codes "/dev/null"
      ∷ codes "-w"
      ∷ codes "%{http_code}"
      ∷ test_url
      ∷ [];
  preload = none;
  timeout = some seconds;
}

abbrev pub is_ready : Option Bool → Bool
is_ready none = false
is_ready (some b) = b

-- A round sleeps for half a second, so that the fuel is enough where time passes.
abbrev pub ready_fuel : Config → ℕ
ready_fuel c = 2 * c.ready_timeout + 1

module _ {F : Floats} {W : World} where
  -- `true` if the page came with the status 200.
  unfoldable pub page_answers : Exec (Run (Book F) W) Bool
  page_answers =
      try_except
        (do check ← io W (W.run (curl_code 3)); pure (text_eq (strip check.stdout) (codes "200")))
        (on_exception λ _. pure false)

  abbrev pub after_page :
      Bool → Exec (Run (Book F) W) (Option Bool) → Exec (Run (Book F) W) (Option Bool)
  after_page true rest = pure (some true)
  after_page false rest = io W (W.sleep 500) >> rest

  abbrev pub after_poll :
      Proc
      → Option Status
      → Exec (Run (Book F) W) (Option Bool)
      → Exec (Run (Book F) W) (Option Bool)
  after_poll proc (some _) rest = io W (W.communicate proc none) >> pure (some false)
  after_poll proc none rest = page_answers >>= λ answers. after_page answers rest

  -- The rounds of the loop; `none` means that the fuel ran out.
  unfoldable pub ready_rounds : ℕ → Proc → ℕ → Exec (Run (Book F) W) (Option Bool)
  ready_rounds zero proc deadline = pure none
  ready_rounds (suc fuel) proc deadline =
      let rest = ready_rounds fuel proc deadline in
      do
        now ← io W W.time
        if ltb now deadline
            then (io W (W.poll proc) >>= λ ended. after_poll proc ended rest)
            else pure (some false)

  unfoldable pub wait_for_nginx_ready : Config → Proc → Exec (Run (Book F) W) Bool
  wait_for_nginx_ready c proc = do
    start ← io W W.time
    result ← ready_rounds (ready_fuel c) proc (start + c.ready_timeout * 1000)
    pure (is_ready result)
