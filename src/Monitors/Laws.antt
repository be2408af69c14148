-- ===== src/Monitors/Laws.antt =====
-- When the monitors stop, and what they have heard by then.
use bpftime_benchmark.Prelude.{
  ◌≡◌, refl, ◌||◌, Bool, true, Option, some, List, [], ◌∷◌, ◌++◌, All, Bool-cases, ◌⊎◌, inl, inr,
}
use bpftime_benchmark.Text.Base.{Text, contains}
use bpftime_benchmark.Script.Monitor.{Read, pending, line, unreadable}
use bpftime_benchmark.Monitors.{
  Wake, Heard, Step, continued, stopped, failed, hear, finish_round, uprobe_line, uprobe_round,
  mpk_line, mpk_round, listen,
}

-- At the end of the output every read is done, with an empty line.
abbrev pub AtEnd : Wake → Type 0
AtEnd w = (w.read ≡ line []) × (w.at_eof ≡ true)

-- Once the process has closed its output, the monitor of mpk never stops, however many rounds it
-- makes and whether it is notified or not, and hears nothing more.
pub mpk_never_stops :
    (title : Text) (log_output : Bool) (callback : Option Text) (ws : List Wake) (h : Heard)
    → All AtEnd ws
    → listen (mpk_round title log_output callback) ws h ≡ continued h
unfolding listen mpk_round mpk_line
mpk_never_stops title log_output callback [] h ended = refl
mpk_never_stops title log_output callback (w ∷ ws) h ((e, _), ended) =
    rw (e, mpk_never_stops title log_output callback ws h ended)

-- A loop that still waits is stopped.
abbrev pub ended : Step → Step
ended (continued h) = stopped h
ended (stopped h) = stopped h
ended (failed h) = failed h

-- Whatever the rounds before, the monitor of uprobe goes on no further than the first round after the
-- process has closed its output, and has heard then what it heard in the rounds before.
pub uprobe_stops :
    (title : Text) (log_output : Bool) (callback : Option Text) (before : List Wake) (w : Wake)
    (after : List Wake) (h : Heard)
    → AtEnd w
    → listen (uprobe_round title log_output callback) (before ++ w ∷ after) h
      ≡ ended (listen (uprobe_round title log_output callback) before h)
unfolding listen uprobe_round uprobe_line
uprobe_stops title log_output callback [] w after h (e, _) = rw e
uprobe_stops title log_output callback (v ∷ before) w after h end =
    go (uprobe_line title log_output callback v h v.read)
      (λ k. uprobe_stops title log_output callback before w after k end)
  where
    go :
        (r : Step)
        → ((k : Heard)
            → listen (uprobe_round title log_output callback) (before ++ w ∷ after) k
              ≡ ended (listen (uprobe_round title log_output callback) before k))
        → elim r [
          | stopped k ↦ stopped k
          | failed k ↦ failed k
          | continued k ↦ listen (uprobe_round title log_output callback) (before ++ w ∷ after) k
        ]
          ≡ ended (elim r [
            | stopped k ↦ stopped k
            | failed k ↦ failed k
            | continued k ↦ listen (uprobe_round title log_output callback) before k
          ])
    go (stopped k) later = refl
    go (failed k) later = refl
    go (continued k) later = later k

-- What a step has heard.
abbrev pub heard : Step → Heard
heard (continued h) = h
heard (stopped h) = h
heard (failed h) = h

-- Some round brings a line that holds the signal.
abbrev pub Brings : Text → Wake → Type 0
Brings sig w = (s : Text) × (w.read ≡ line s) × (contains s sig ≡ true)

abbrev pub SomeBrings : Text → List Wake → Type 0
SomeBrings sig [] = ⊥
SomeBrings sig (w ∷ ws) = Brings sig w ⊎ SomeBrings sig ws

finish_round-heard : (w : Wake) (h : Heard) → heard (finish_round w h) ≡ h
unfolding finish_round
finish_round-heard w h = elim (Bool-cases (w.notified || w.at_eof)) [
  | inl over ↦ rw over refl
  | inr goes_on ↦ rw goes_on refl
]

module _ (title : Text) (log_output : Bool) (sig : Text) where
  hear-called :
      (s : Text) (h : Heard)
      → (hear title log_output (some sig) s h).called ≡ true
      → (h.called ≡ true) ⊎ (contains s sig ≡ true)
  unfolding hear
  hear-called s h e = elim (Bool-cases h.called) [
    | inl before ↦ inl before
    | inr not_yet ↦ inr (rw not_yet at e)
  ]

  line-called :
      (w : Wake) (h : Heard) (r : Read)
      → w.read ≡ r
      → (heard (uprobe_line title log_output (some sig) w h r)).called ≡ true
      → (h.called ≡ true) ⊎ Brings sig w
  unfolding uprobe_line
  line-called w h unreadable e c = inl c
  line-called w h pending e c = inl (rw (finish_round-heard w h) at c)
  line-called w h (line []) e c = inl c
  line-called w h (line (x ∷ s)) e c =
      elim (hear-called (x ∷ s) h (rw (finish_round-heard w _) at c)) [
        | inl before ↦ inl before
        | inr now ↦ inr (x ∷ s, e, now)
      ]

  step-called :
      (r : Step) (h : Heard) (w : Wake) (ws : List Wake)
      → ((heard r).called ≡ true → (h.called ≡ true) ⊎ Brings sig w)
      → ((k : Heard)
          → (heard (listen (uprobe_round title log_output (some sig)) ws k)).called ≡ true
          → (k.called ≡ true) ⊎ SomeBrings sig ws)
      → (heard (elim r [
        | stopped k ↦ stopped k
        | failed k ↦ failed k
        | continued k ↦ listen (uprobe_round title log_output (some sig)) ws k
      ])).called
        ≡ true
      → (h.called ≡ true) ⊎ SomeBrings sig (w ∷ ws)
  step-called (stopped k) h w ws first rest c = elim (first c) [
    | inl before ↦ inl before
    | inr here ↦ inr (inl here)
  ]
  step-called (failed k) h w ws first rest c = elim (first c) [
    | inl before ↦ inl before
    | inr here ↦ inr (inl here)
  ]
  step-called (continued k) h w ws first rest c = elim (rest k c) [
    | inl so_far ↦ elim (first so_far) [ inl before ↦ inl before | inr here ↦ inr (inl here) ]
    | inr later ↦ inr (inr later)
  ]

  -- The event of the callback is set only if it was set before, or some line that was read holds
  -- the signal.
  pub uprobe_called :
      (ws : List Wake) (h : Heard)
      → (heard (listen (uprobe_round title log_output (some sig)) ws h)).called ≡ true
      → (h.called ≡ true) ⊎ SomeBrings sig ws
  unfolding listen uprobe_round
  uprobe_called [] h c = inl c
  uprobe_called (w ∷ ws) h c =
      step-called (uprobe_line title log_output (some sig) w h w.read) h w ws
        (line-called w h w.read refl) (uprobe_called ws) c
