-- ===== src/Victim/Laws.antt =====
-- Where the collected times come from.
use bpftime_benchmark.Prelude.{
  ◌≡◌, refl, ap, ◌∙◌, sym, true, Option, none, some, List, [], ◌∷◌, ◌++◌, inl, inr, Bool-cases,
  Option-cases, All,
}
use mathlib.Core.Option.{some-injective}
use mathlib.Core.Path.{subst}
use bpftime_benchmark.Text.Base.{Text, text_eq, text_eq→eq, starts_with}
use bpftime_benchmark.Text.Scan.{bind}
use bpftime_benchmark.Text.Lines.{strip, splitlines, words}
use bpftime_benchmark.Python.Floats.{Floats}
use bpftime_benchmark.Victim.{
  Dict, insert, second, fourth, benchmarking, entry, parse_lines, parse_victim_output, append_time,
  append_times, append_runs, singletons, collect_runs,
}

bind-some :
    {A C : Type 0} (o : Option A) (f : A → Option C) (c : C)
    → bind o f ≡ some c
    → (a : A) × (o ≡ some a) × (f a ≡ some c)
bind-some none f c h = cc
bind-some (some a) f c h = (a, refl, h)

module _ (F : Floats) where
  -- The name is the second word of one line, and the time the value of the fourth word of the other.
  pub record ReadsPair (curr_line next_line : Text) (e : Text × F.Float) : Type 0 where
    pub label : Text
    pub more : List Text
    pub one : Text
    pub two : Text
    pub three : Text
    pub four : Text
    pub others : List Text
    pub name_words : words curr_line ≡ label ∷ e.0 ∷ more
    pub time_words : words next_line ≡ one ∷ two ∷ three ∷ four ∷ others
    pub time : F.of_text four ≡ some e.1

  entry_sound : (l m : Text) (e : Text × F.Float) → entry F l m ≡ some e → ReadsPair l m e
  unfolding entry
  entry_sound l m e h = go (words l) (words m) refl refl h
    where
      go :
          (us vs : List Text)
          → words l ≡ us
          → words m ≡ vs
          → bind (second us) (λ name. bind (bind (fourth vs) F.of_text) (λ time. some (name, time)))
            ≡ some e
          → ReadsPair l m e
      go [] vs p q h = cc
      go (u ∷ []) vs p q h = cc
      go (u ∷ name ∷ us) [] p q h = cc
      go (u ∷ name ∷ us) (a ∷ []) p q h = cc
      go (u ∷ name ∷ us) (a ∷ b ∷ []) p q h = cc
      go (u ∷ name ∷ us) (a ∷ b ∷ c ∷ []) p q h = cc
      go (u ∷ name ∷ us) (a ∷ b ∷ c ∷ d ∷ vs) p q h =
          let (time, read, made) = bind-some (F.of_text d) _ e h in
          let same = some-injective _ _ made in
          record {
            label = u;
            more = us;
            one = a;
            two = b;
            three = c;
            four = d;
            others = vs;
            name_words = p ∙ ap (λ (x : Text × F.Float). u ∷ x.0 ∷ us) same;
            time_words = q;
            time = read ∙ ap (λ (x : Text × F.Float). some x.1) same;
          }

  -- The pair is read from two adjacent lines, the first of which begins with `Benchmarking`.
  pub record ReadFrom (lines : List Text) (e : Text × F.Float) : Type 0 where
    pub before : List Text
    pub curr_line : Text
    pub next_line : Text
    pub rest : List Text
    pub shape : lines ≡ before ++ (curr_line ∷ next_line ∷ rest)
    pub begins : starts_with curr_line benchmarking ≡ true
    pub reads : ReadsPair curr_line next_line e

  ReadFrom-cons :
      (l : Text) (lines : List Text) (e : Text × F.Float)
      → ReadFrom lines e
      → ReadFrom (l ∷ lines) e
  ReadFrom-cons l lines e r = record {
    before = l ∷ r.before;
    curr_line = r.curr_line;
    next_line = r.next_line;
    rest = r.rest;
    shape = ap (λ t. l ∷ t) r.shape;
    begins = r.begins;
    reads = r.reads;
  }

  All-map :
      (P Q : Text × F.Float → Type 0) (d : Dict F.Float)
      → ((e : Text × F.Float) → P e → Q e)
      → All P d
      → All Q d
  All-map P Q [] f h = tt
  All-map P Q (e ∷ d) f (h, hs) = (f e h, All-map P Q d f hs)

  All-insert :
      (P : Text × F.Float → Type 0) (k : Text) (v : F.Float) (d : Dict F.Float)
      → P (k, v)
      → All P d
      → All P (insert k v d)
  unfolding insert
  All-insert P k v [] h hs = (h, tt)
  All-insert P k v ((k', v') ∷ d) h (h', hs) = elim (Bool-cases (text_eq k k')) [
    | inl hit ↦ rw hit (rw (text_eq→eq k k' hit) at h, hs)
    | inr miss ↦ rw miss (h', All-insert P k v d h hs)
  ]

  parse_lines_sound :
      (P : Text × F.Float → Type 0) (lines : List Text) (result d : Dict F.Float)
      → ((e : Text × F.Float) → ReadFrom lines e → P e)
      → All P result
      → parse_lines F lines result ≡ some d
      → All P d
  unfolding parse_lines
  parse_lines_sound P [] result d f hs h = subst (All P) (some-injective _ _ h) hs
  parse_lines_sound P (l ∷ []) result d f hs h = elim (Bool-cases (starts_with l benchmarking)) [
    | inl bad ↦ cc (rw bad at h)
    | inr other ↦ subst (All P) (some-injective _ _ (rw other at h)) hs
  ]
  parse_lines_sound P (l ∷ m ∷ ls) result d f hs h =
      elim (Bool-cases (starts_with l benchmarking)) [
        | inl taken ↦ elim (Option-cases (entry F l m)) [
          | inl bad ↦ cc (rw (taken, bad) at h)
          | inr ((k, v), read) ↦
              parse_lines_sound P ls (insert k v result) d
                (λ e r. f e (ReadFrom-cons l (m ∷ ls) e (ReadFrom-cons m ls e r)))
                (All-insert P k v result
                  (f (k, v)
                    (record {
                      before = [];
                      curr_line = l;
                      next_line = m;
                      rest = ls;
                      shape = refl;
                      begins = taken;
                      reads = entry_sound l m (k, v) read;
                    }))
                  hs)
                (rw (taken, read) at h)
        ]
        | inr skipped ↦
            parse_lines_sound P (m ∷ ls) result d (λ e r. f e (ReadFrom-cons l (m ∷ ls) e r)) hs
              (rw skipped at h)
      ]

  -- Every time in the result of a parse that does not raise stands in the output: a line begins with
  -- `Benchmarking` and has the name as its second word, and the next line has the time as its
  -- fourth word.
  pub parse_victim_output_sound :
      (v : Text) (d : Dict F.Float)
      → parse_victim_output F v ≡ some d
      → All (ReadFrom (splitlines (strip v))) d
  unfolding parse_victim_output
  parse_victim_output_sound v d h =
      parse_lines_sound (ReadFrom (splitlines (strip v))) (splitlines (strip v)) [] d (λ e r. r) tt
        h

-- The keys of a dict.
abbrev pub keys {ℓ} : {V : Type ℓ} → Dict V → List Text
keys [] = []
keys ((k, v) ∷ d) = k ∷ keys d

module _ (F : Floats) where
  append_time-keys :
      (k : Text) (v : F.Float) (result r : Dict (List F.Float))
      → append_time F k v result ≡ some r
      → keys r ≡ keys result
  unfolding append_time
  append_time-keys k v [] r h = cc
  append_time-keys k v ((k', vs) ∷ d) r h = elim (Bool-cases (text_eq k k')) [
    | inl hit ↦ rw (← some-injective _ _ (rw hit at h)) refl
    | inr miss ↦
        let (r', e, e') = bind-some (append_time F k v d) _ r (rw miss at h) in
        rw (← some-injective _ _ e') (ap (λ ks. k' ∷ ks) (append_time-keys k v d r' e))
  ]

  append_times-keys :
      (curr : Dict F.Float) (result r : Dict (List F.Float))
      → append_times F curr result ≡ some r
      → keys r ≡ keys result
  unfolding append_times
  append_times-keys [] result r h = ap keys (sym (some-injective _ _ h))
  append_times-keys ((k, v) ∷ curr) result r h =
      let (r', e, e') = bind-some (append_time F k v result) _ r h in
      append_times-keys curr r' r e' ∙ append_time-keys k v result r' e

  append_runs-keys :
      (runs : List (Dict F.Float)) (result r : Dict (List F.Float))
      → append_runs F runs result ≡ some r
      → keys r ≡ keys result
  unfolding append_runs
  append_runs-keys [] result r h = ap keys (sym (some-injective _ _ h))
  append_runs-keys (curr ∷ runs) result r h =
      let (r', e, e') = bind-some (append_times F curr result) _ r h in
      append_runs-keys runs r' r e' ∙ append_times-keys curr result r' e

  singletons-keys : (d : Dict F.Float) → keys (singletons F d) ≡ keys d
  unfolding singletons
  singletons-keys [] = refl
  singletons-keys ((k, v) ∷ d) = ap (λ ks. k ∷ ks) (singletons-keys d)

  -- Where the runs are collected without an exception, the names reported are those of the first
  -- run, in its order.
  pub collect_runs-keys :
      (curr : Dict F.Float) (runs : List (Dict F.Float)) (r : Dict (List F.Float))
      → collect_runs F (curr ∷ runs) ≡ some (some r)
      → keys r ≡ keys curr
  unfolding collect_runs
  collect_runs-keys curr runs r h =
      let (r', e, e') = bind-some (append_runs F runs (singletons F curr)) _ (some r) h in
      let same : r' ≡ r = some-injective _ _ (some-injective _ _ e') in
      rw same at (append_runs-keys runs (singletons F curr) r' e) ∙ singletons-keys curr
