-- ===== src/Syscall/Climb.antt =====
-- The loop of `init_safe_pids` ends: every round but the last adds a process number, and there are
-- only so many.
use bpftime_benchmark.Prelude.{
  ℕ, zero, suc, ◌+◌, ◌≤◌, ◌<◌, ◌≡◌, ◌≢◌, refl, ◌==◌, ◌||◌, true, false, Option, none, some, List,
  [], ◌∷◌, inl, inr, arith, Bool-cases, ==_iff, if◌then◌else◌,
}
use mathlib.Core.Path.{subst}
use bpftime_benchmark.Text.Base.{Text}
use bpftime_benchmark.Text.Lines.{strip}
use bpftime_benchmark.Python.Exec.{
  Result, ok, raised, pure, raise, gets, try_except, continue, attempt, ◌>>=◌,
}
use bpftime_benchmark.Python.World.{World, Completed}
use bpftime_benchmark.Python.Run.{Run, io, modify}
use bpftime_benchmark.Syscall.{
  Numerals, Guard, mem, ps_parent, add_safe, or_value_error, read_parent, parent_of, climb_on,
  climb,
}

-- The numbers below `n` that are not in the list.
abbrev pub missing : ℕ → List ℕ → ℕ
missing zero qs = 0
missing (suc n) qs = (if mem n qs then 0 else 1) + missing n qs

missing-outside : (n x : ℕ) (qs : List ℕ) → n ≤ x → missing n (x ∷ qs) ≡ missing n qs
unfolding mem
missing-outside zero x qs h = refl
missing-outside (suc n) x qs h = ground (arith, missing-outside n x qs)

-- A number that is added is missing no more.
missing-add :
    (n x : ℕ) (qs : List ℕ) → x < n → mem x qs ≡ false → missing n qs ≡ missing n (x ∷ qs) + 1
unfolding mem
missing-add zero x qs h new = omega arith
missing-add (suc n) x qs h new = elim (Bool-cases (x == n)) [
  | inl last ↦
      let e : x ≡ n = (==_iff x n).0 last in
      let new' : mem n qs ≡ false = rw e at new in
      let self : (n == n) ≡ true = (==_iff n n).1 refl in
      let out : missing n (n ∷ qs) ≡ missing n qs = missing-outside n n qs (omega arith) in
      rw (e, new', self, out) (omega arith)
  | inr earlier ↦
      let less : x < n = ground arith in
      let differ : (n == x) ≡ false = ground arith in
      let ih : missing n qs ≡ missing n (x ∷ qs) + 1 = missing-add n x qs less new in
      rw (differ, ih) (omega arith)
]

-- The process numbers that `ps` reports stay below the kernel's limit.
pub record IsBounded (W : World) (N : Numerals) (limit : ℕ) : Type 0 where
  pub positive : 0 < limit
  pub reported :
      (pid : ℕ) (w : W.State) (r : Completed) (n : ℕ)
      → (W.run (ps_parent N pid) w).0 ≡ ok r
      → N.int (strip r.stdout) ≡ some n
      → n < limit

module _ {W : World} (N : Numerals) (limit : ℕ) (bounded : IsBounded W N limit) where
  -- A parent that is read leaves the safe list alone, and is below the limit.
  record FoundParent (s : Run Guard W) (r : Result ℕ) (s' : Run Guard W) : Type 0 where
    same_book : s'.book ≡ s.book
    below : (n : ℕ) → r ≡ ok n → n < limit

  int-found :
      (o : Option ℕ) (s : Run Guard W)
      → ((m : ℕ) → o ≡ some m → m < limit)
      → FoundParent s (or_value_error N o s).0 (or_value_error N o s).1
  unfolding pure raise
  int-found none s h = record { same_book = refl; below = λ n e. cc }
  int-found (some m) s h = record { same_book = refl; below = λ n e. h n (ok-some m n e) }
    where
      ok-some : (m n : ℕ) → ok m ≡ ok n → some m ≡ some n
      ok-some m n e = cc

  read_parent-found :
      (t : Text) (s : Run Guard W)
      → ((m : ℕ) → N.int t ≡ some m → m < limit)
      → FoundParent s (read_parent N t s).0 (read_parent N t s).1
  unfolding read_parent pure
  read_parent-found [] s h = record { same_book = refl; below = λ n e. small n e }
    where
      small : (n : ℕ) → ok 0 ≡ ok n → n < limit
      small n e = let z : 0 ≡ n = cc in subst (λ x. x < limit) z bounded.positive
  read_parent-found (c ∷ t) s h = int-found (N.int (c ∷ t)) s h

  -- What `ps` answers, or its exception.
  answered-found :
      (s : Run Guard W) (r : Result Completed) (w : W.State)
      → ((a : Completed) → r ≡ ok a → (m : ℕ) → N.int (strip a.stdout) ≡ some m → m < limit)
      → let x = continue r (λ a. read_parent N (strip a.stdout)) (record s { world = w }) in
        FoundParent s x.0 x.1
  answered-found s (ok a) w h =
      let f = read_parent-found (strip a.stdout) (record s { world = w }) (h a refl) in
      record { same_book = f.same_book; below = f.below }
  answered-found s (raised e) w h = record { same_book = refl; below = λ n q. cc }

  parent_of-found :
      (pid : ℕ) (s : Run Guard W) → FoundParent s (parent_of N pid s).0 (parent_of N pid s).1
  unfolding parent_of io ◌>>=◌
  parent_of-found pid s =
      answered-found s (W.run (ps_parent N pid) s.world).0 (W.run (ps_parent N pid) s.world).1
        (λ a e m q. bounded.reported pid s.world a m e q)

  -- The rest of a round, once the parent was looked for.
  after-parent :
      (fuel : ℕ) (s : Run Guard W) (r : Result ℕ) (s' : Run Guard W)
      → FoundParent s r s'
      → ((p : ℕ) (z : Run Guard W) → p < limit → z.book ≡ s.book → (climb N fuel p z).0 ≢ ok false)
      → ((try_except (λ t. continue r (λ a. pure (inr a)) s') (λ e. pure (inl e)) >>= λ x.
            climb_on N x (climb N fuel))
          s).0
        ≢ ok false
  unfolding pure try_except ◌>>=◌
  after-parent fuel s (ok p) s' f h = h p s' (f.below p refl) f.same_book
  after-parent fuel s (raised e) s' f h = λ q. cc

  climb-ends :
      (fuel pid : ℕ) (s : Run Guard W)
      → pid < limit
      → missing limit s.book.safe < fuel
      → (climb N fuel pid s).0 ≢ ok false
  unfolding climb gets add_safe modify attempt pure ◌>>=◌ try_except
  climb-ends zero pid s h k = absurd (omega arith)
  climb-ends (suc fuel) pid s h k = elim (Bool-cases (pid == 0 || mem pid s.book.safe)) [
    | inl over ↦ rw over (λ q. cc)
    | inr goes_on ↦
        let new : mem pid s.book.safe ≡ false = ground arith in
        let e : missing limit s.book.safe ≡ missing limit (pid ∷ s.book.safe) + 1 =
          missing-add limit pid s.book.safe h new in
        let z : Run Guard W = record s { book = record s.book { safe = pid ∷ s.book.safe } } in
        rw goes_on (
          after-parent fuel z (parent_of N pid z).0 (parent_of N pid z).1 (parent_of-found pid z)
            (λ p z' hp same. climb-ends fuel p z' hp (
              let e' : missing limit z'.book.safe ≡ missing limit z.book.safe = rw same refl in
              omega arith)))
  ]

missing-bound : (n : ℕ) (qs : List ℕ) → missing n qs ≤ n
missing-bound zero qs = omega arith
missing-bound (suc n) qs = elim (Bool-cases (mem n qs)) [
  | inl found ↦ rw found (omega (arith, missing-bound n qs))
  | inr absent ↦ rw absent (omega (arith, missing-bound n qs))
]

-- Where every process number is below a limit, the loop from a process to its ancestors ends, with
-- an exception or without: a fuel of one round more than the limit is enough, whatever `ps` answers
-- and whatever is safe already.
pub climb_terminates :
    (W : World) (N : Numerals) (limit : ℕ)
    → IsBounded W N limit
    → (pid : ℕ) (s : Run Guard W) → pid < limit
    → (climb N (suc limit) pid s).0 ≢ ok false
climb_terminates W N limit bounded pid s h =
    let few : missing limit s.book.safe ≤ limit = missing-bound limit s.book.safe in
    climb-ends N limit bounded (suc limit) pid s h (omega arith)
