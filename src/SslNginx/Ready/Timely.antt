-- ===== src/SslNginx/Ready/Timely.antt =====
-- The loop of `wait_for_nginx_ready` ends by its deadline where time passes.
use bpftime_benchmark.Prelude.{
  ℕ, zero, suc, ◌+◌, ◌*◌, ◌≤◌, ◌<◌, ◌≡◌, ◌≢◌, ltb, ltb→lt, Bool, true, false, Option, none, some,
  arith, Bool-cases, inl, inr, if◌then◌else◌,
}
use bpftime_benchmark.Text.Base.{Text}
use bpftime_benchmark.Python.Exec.{
  Exec, Exn, timeout_expired, error, keyboard_interrupt, system_exit, Result, ok, raised, pure,
  raise, try_except, on_exception, recover, continue, ◌>>=◌,
}
use bpftime_benchmark.Python.World.{World, Proc, Status, Command}
use bpftime_benchmark.Python.Run.{Run, io}
use bpftime_benchmark.Python.Floats.{Floats}
use bpftime_benchmark.SslNginx.Book.{Config, Book}
use bpftime_benchmark.SslNginx.Ready.{
  ready_fuel, page_answers, after_page, after_poll, ready_rounds,
}

-- `time.time()` reads a clock, which `time.sleep` advances by what it is asked for at least, and
-- which no other call that the loop makes sets back.
pub record IsTimely (W : World) : Type 0 where
  pub clock : W.State → ℕ
  pub time_reads : (w : W.State) → W.time w ≡ (ok (clock w), w)
  pub sleep_advances : (n : ℕ) (w : W.State) → clock w + n ≤ clock (W.sleep n w).1
  pub poll_goes_on : (p : Proc) (w : W.State) → clock w ≤ clock (W.poll p w).1
  pub run_goes_on : (c : Command) (w : W.State) → clock w ≤ clock (W.run c w).1

module _ {B : Type 0} {W : World} (timely : IsTimely W) (deadline : ℕ) where
  -- At most `k` half seconds are left.
  pub record Left (k : ℕ) (s : Run B W) : Type 0 where
    pub soon : deadline ≤ timely.clock s.world + 500 * k

  -- From such a state the action ends in such another one.
  record Moves {A : Type 0} (k j : ℕ) (m : Exec (Run B W) A) : Type 0 where
    go : (s : Run B W) → Left k s → Left j (m s).1

  -- From such a state the action does not run out of fuel.
  record Ends (k : ℕ) (m : Exec (Run B W) (Option Bool)) : Type 0 where
    ends : (s : Run B W) → Left k s → (m s).0 ≢ ok none

  Moves-pure : {A : Type 0} (k : ℕ) (a : A) → Moves k k (pure a)
  unfolding pure
  Moves-pure k a = record { go = λ s h. h }

  Moves-raise : {A : Type 0} (k : ℕ) (e : Exn) → Moves {A = A} k k (raise e)
  unfolding raise
  Moves-raise k e = record { go = λ s h. h }

  Moves-io :
      {A : Type 0} (k : ℕ) (m : Exec W.State A)
      → ((w : W.State) → timely.clock w ≤ timely.clock (m w).1)
      → Moves k k (io W m)
  unfolding io
  Moves-io k m later = record { go = λ s h. record { soon = omega (arith, later s.world, h.soon) } }

  Moves-sleep : (k : ℕ) → Moves (suc k) k (io W (W.sleep 500))
  unfolding io
  Moves-sleep k = record {
    go = λ s h. record { soon = omega (arith, timely.sleep_advances 500 s.world, h.soon) };
  }

  Moves-bind :
      {A C : Type 0} (k : ℕ) (m : Exec (Run B W) A) (f : A → Exec (Run B W) C)
      → Moves k k m
      → ((a : A) → Moves k k (f a))
      → Moves k k (m >>= f)
  unfolding ◌>>=◌
  Moves-bind {A} {C} k m f hm hf = record { go = λ s h. next (m s).0 (m s).1 (hm.go s h) }
    where
      next : (r : Result A) (s : Run B W) → Left k s → Left k (continue r f s).1
      next (ok a) s h = (hf a).go s h
      next (raised e) s h = h

  Moves-try :
      {A : Type 0} (k : ℕ) (m : Exec (Run B W) A) (handler : Text → Exec (Run B W) A)
      → Moves k k m
      → ((e : Text) → Moves k k (handler e))
      → Moves k k (try_except m (on_exception handler))
  unfolding try_except on_exception raise
  Moves-try {A} k m handler hm hh = record { go = λ s h. next (m s).0 (m s).1 (hm.go s h) }
    where
      next : (r : Result A) (s : Run B W) → Left k s → Left k (recover r (on_exception handler) s).1
      next (ok a) s h = h
      next (raised (timeout_expired e)) s h = (hh e).go s h
      next (raised (error e)) s h = (hh e).go s h
      next (raised keyboard_interrupt) s h = h
      next (raised (system_exit n)) s h = h

  Ends-bind :
      {A : Type 0} (k j : ℕ) (m : Exec (Run B W) A) (f : A → Exec (Run B W) (Option Bool))
      → Moves k j m
      → ((a : A) → Ends j (f a))
      → Ends k (m >>= f)
  unfolding ◌>>=◌
  Ends-bind {A} k j m f hm hf = record { ends = λ s h. next (m s).0 (m s).1 (hm.go s h) }
    where
      next : (r : Result A) (s : Run B W) → Left j s → (continue r f s).0 ≢ ok none
      next (ok a) s h = (hf a).ends s h
      next (raised e) s h = λ q. cc

  -- An action that never returns `none` does so from everywhere.
  Ends-return :
      {A : Type 0} (k : ℕ) (m : Exec (Run B W) A) (b : Bool) → Ends k (m >>= λ _. pure (some b))
  unfolding ◌>>=◌ pure
  Ends-return {A} k m b = record { ends = λ s h. next (m s).0 (m s).1 }
    where
      next : (r : Result A) (s : Run B W) → (continue r (λ _. pure (some b)) s).0 ≢ ok none
      next (ok a) s = λ q. cc
      next (raised e) s = λ q. cc

module _ {F : Floats} {W : World} (timely : IsTimely W) (deadline : ℕ) where
  page_answers-Moves : (k : ℕ) → Moves {B = Book F} timely deadline k k page_answers
  unfolding page_answers
  page_answers-Moves k =
      Moves-try timely deadline k _ _
        (Moves-bind timely deadline k _ _ (Moves-io timely deadline k _ (timely.run_goes_on _))
          (λ r. Moves-pure timely deadline k _))
        (λ e. Moves-pure timely deadline k _)

  after_page-Ends :
      (k : ℕ) (b : Bool) (rest : Exec (Run (Book F) W) (Option Bool))
      → Ends timely deadline k rest
      → Ends timely deadline (suc k) (after_page b rest)
  unfolding pure
  after_page-Ends k true rest h = record { ends = λ s l q. cc }
  after_page-Ends k false rest h =
      Ends-bind timely deadline (suc k) k _ _ (Moves-sleep timely deadline k) (λ _. h)

  after_poll-Ends :
      (k : ℕ) (p : Proc) (e : Option Status) (rest : Exec (Run (Book F) W) (Option Bool))
      → Ends timely deadline k rest
      → Ends timely deadline (suc k) (after_poll p e rest)
  after_poll-Ends k p (some x) rest h = Ends-return timely deadline (suc k) _ false
  after_poll-Ends k p none rest h =
      Ends-bind timely deadline (suc k) (suc k) _ _ (page_answers-Moves (suc k))
        (λ b. after_page-Ends k b rest h)

  -- The test of the loop: the body runs only before the deadline.
  timed-Ends :
      (k : ℕ) (body : Exec (Run (Book F) W) (Option Bool))
      → ((s : Run (Book F) W)
          → Left timely deadline k s
          → timely.clock s.world < deadline
          → (body s).0 ≢ ok none)
      → Ends timely deadline k
          (io W W.time >>= λ now. if ltb now deadline then body else pure (some false))
  unfolding ◌>>=◌ io pure
  timed-Ends k body h = record {
    ends = λ s l.
        let t = timely.clock s.world in
        rw (timely.time_reads s.world) (elim (Bool-cases (ltb t deadline)) [
          | inl early ↦ rw early (h s l (ltb→lt t deadline early))
          | inr late ↦ rw late (λ q. cc)
        ]);
  }

  ready_rounds-Ends :
      (k : ℕ) (p : Proc) → Ends {B = Book F} timely deadline k (ready_rounds (suc k) p deadline)
  unfolding ready_rounds
  ready_rounds-Ends zero p =
      timed-Ends zero _ (λ s l early. absurd (impossible (timely.clock s.world) l.soon early))
    where
      impossible : (t : ℕ) → deadline ≤ t + 500 * 0 → t < deadline → ⊥
      impossible t h k = omega arith
  ready_rounds-Ends (suc k) p = timed-Ends (suc k) _ (λ s l early.
      (Ends-bind timely deadline (suc k) (suc k) _ _
          (Moves-io timely deadline (suc k) _ (timely.poll_goes_on p))
          (λ e. after_poll-Ends k p e _ (ready_rounds-Ends k p))).ends
        s l)

-- Where time passes, the fuel that `wait_for_nginx_ready` gives to its loop is enough: counted from
-- the clock that the deadline was computed from, the loop ends with an answer or an exception.
pub ready_rounds_end :
    (F : Floats) (W : World) (timely : IsTimely W) (c : Config) (p : Proc) (s : Run (Book F) W)
    → (ready_rounds (ready_fuel c) p (timely.clock s.world + c.ready_timeout * 1000) s).0 ≢ ok none
ready_rounds_end F W timely c p s =
    let fuel : ready_fuel c ≡ suc (2 * c.ready_timeout) = omega arith in
    rw fuel (
      (ready_rounds-Ends timely (timely.clock s.world + c.ready_timeout * 1000)
          (2 * c.ready_timeout) p).ends
        s (record { soon = omega arith }))
