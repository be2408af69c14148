-- ===== src/Python/Exec.antt =====
-- Actions that change a state and may raise, and Python's compound statements over them. What was
-- written before a raise stays written, so the state comes back beside the exception too.
use bpftime_benchmark.Prelude.{ℕ, zero, suc, ◌+◌, Bool, true, false, List, [], ◌∷◌, ◌⊎◌, inl, inr}
use bpftime_benchmark.Text.Base.{Text}

-- `timeout_expired` is `subprocess.TimeoutExpired`, `error` any other `Exception`; both carry their
-- `str`. The other two are no `Exception`s: `except Exception` lets them pass.
pub data Exn : Type 0 where
  timeout_expired error : Text → Exn
  keyboard_interrupt : Exn
  system_exit : ℕ → Exn

pub data Result {ℓ} (A : Type ℓ) : Type ℓ where
  ok : A → Result A
  raised : Exn → Result A

abbrev pub Exec {ℓ} : Type ℓ → Type ℓ → Type ℓ
Exec S A = S → Result A × S

-- A `finally` block that raises replaces the result; one that ends lets it stand.
abbrev pub settle {ℓ κ} : {A : Type ℓ} {B : Type κ} → Result A → Result B → Result A
settle r (ok b) = r
settle r (raised e) = raised e

module _ {ℓ} {S A : Type ℓ} where
  unfoldable pub pure : A → Exec S A
  pure a s = (ok a, s)

  unfoldable pub raise : Exn → Exec S A
  raise e s = (raised e, s)

  unfoldable pub gets : (S → A) → Exec S A
  gets f s = (ok (f s), s)

  -- What happens after the body of a `try`.
  abbrev pub recover : Result A → (Exn → Exec S A) → Exec S A
  recover (ok a) h s = (ok a, s)
  recover (raised e) h s = h e s

  -- `try: m` with handlers `h`, which raise again what they do not take.
  unfoldable pub try_except : Exec S A → (Exn → Exec S A) → Exec S A
  try_except m h s = let (r, s') = m s in recover r h s'

  -- `except Exception as e: h(str(e))`.
  unfoldable pub on_exception : (Text → Exec S A) → Exn → Exec S A
  unfolding raise
  on_exception h (timeout_expired m) = h m
  on_exception h (error m) = h m
  on_exception h e = raise e

  -- `except subprocess.TimeoutExpired: t`, then `except Exception: h`.
  unfoldable pub on_timeout : Exec S A → Exec S A → Exn → Exec S A
  unfolding raise
  on_timeout t h (timeout_expired m) = t
  on_timeout t h (error m) = h
  on_timeout t h e = raise e

  unfoldable pub try_finally : {B : Type ℓ} → Exec S A → Exec S B → Exec S A
  try_finally m fin s = let (r, s') = m s in let (f, s'') = fin s' in (settle r f, s'')

module _ {ℓ} {S A B : Type ℓ} where
  abbrev pub continue : Result A → (A → Exec S B) → Exec S B
  continue (ok a) f s = f a s
  continue (raised e) f s = (raised e, s)

  infixl 10 ◌>>=◌ ◌>>◌
  unfoldable pub ◌>>=◌ : Exec S A → (A → Exec S B) → Exec S B
  ◌>>=◌ m f s = let (r, s') = m s in continue r f s'

  abbrev pub ◌>>◌ : Exec S A → Exec S B → Exec S B
  m >> n = m >>= λ _. n

-- Where a local variable that `m` sets is read by the handlers and the `finally` block of a `try`,
-- the rest of that statement is written once for each way in which `m` ends.
unfoldable pub attempt : {S A : Type 0} → Exec S A → Exec S (Exn ⊎ A)
attempt m = try_except (m >>= λ a. pure (inr a)) (λ e. pure (inl e))

module _ {S : Type 0} where
  -- `for i in range(i, i + rounds): body(i)`. A body that returns `true` is a `break`; the result
  -- says whether there was one, and a loop's `else` clause runs where it is `false`.
  unfoldable pub for_range : ℕ → ℕ → (ℕ → Exec S Bool) → Exec S Bool
  for_range zero i body = pure false
  for_range (suc rounds) i body =
      let rest = for_range rounds (i + 1) body in
      body i >>= elim [ true ↦ pure true | false ↦ rest ]

  -- The same loop where no body breaks.
  unfoldable pub repeat : ℕ → ℕ → (ℕ → Exec S (Unit {0})) → Exec S (Unit {0})
  repeat zero i body = pure tt
  repeat (suc rounds) i body = let rest = repeat rounds (i + 1) body in body i >> rest

  -- `for x in xs: body(x)`, with no `break`.
  unfoldable pub for_each {ℓ} : {X : Type ℓ} → List X → (X → Exec S (Unit {0})) → Exec S (Unit {0})
  for_each [] body = pure tt
  for_each (x ∷ xs) body = let rest = for_each xs body in body x >> rest
