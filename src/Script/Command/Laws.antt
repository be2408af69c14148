-- ===== src/Script/Command/Laws.antt =====
-- The command lines are read back as they were joined, unless a part has a space in it.
use bpftime_benchmark.Prelude.{
  ◌≡◌, ◌≢◌, refl, ap, ◌∙◌, sym, Bool, true, false, List, [], ◌∷◌, ◌++◌, All, append_assoc,
  append-nil, if◌then◌else◌,
}
use mathlib.Core.List.{cons-ne-nil}
use bpftime_benchmark.Text.Base.{Text, codes, is_space, text_eq}
use bpftime_benchmark.Text.Lines.{words_from, words}
use bpftime_benchmark.Script.Command.{
  Args, join, server_parts, agent_parts, command_line, server_command, agent_command,
}

-- A text that `split` takes for one word.
abbrev pub IsWord : Text → Type 0
IsWord w = (w ≢ []) × All (λ c. is_space c ≡ false) w

-- The characters of a word are added to the word that is being read.
words_from-word :
    (w v s : Text)
    → All (λ c. is_space c ≡ false) v
    → w ≢ []
    → words_from w (v ++ s) ≡ words_from (w ++ v) s
unfolding words_from
words_from-word w [] s h ne = rw (append-nil w) refl
words_from-word [] (c ∷ v) s h ne = absurd (ne refl)
words_from-word (d ∷ w) (c ∷ v) s (hc, hv) ne = rw hc (
    words_from-word ((d ∷ w) ++ (c ∷ [])) v s hv (cons-ne-nil _ _)
    ∙ ap (λ x. words_from x s) (append_assoc (d ∷ w) (c ∷ []) v))

words_from-start : (p s : Text) → IsWord p → words_from [] (p ++ s) ≡ words_from p s
unfolding words_from
words_from-start [] s (ne, h) = absurd (ne refl)
words_from-start (c ∷ v) s (ne, (hc, hv)) =
    ap (λ b. words_from (if b then [] else c ∷ []) (v ++ s)) hc
    ∙ words_from-word (c ∷ []) v s hv (cons-ne-nil _ _)

words_from-space : (p s : Text) → p ≢ [] → words_from p (b' ' ∷ s) ≡ p ∷ words_from [] s
unfolding words_from
words_from-space [] s ne = absurd (ne refl)
words_from-space (d ∷ p) s ne = refl

words_from-end : (p : Text) → p ≢ [] → words_from p [] ≡ p ∷ []
unfolding words_from
words_from-end [] ne = absurd (ne refl)
words_from-end (d ∷ p) ne = refl

-- A command line that is joined of words is split into the same words.
pub command_line_lem : (ws : List Text) → All IsWord ws → command_line ws ≡ ws
unfolding command_line join words words_from
command_line_lem [] h = refl
command_line_lem (p ∷ []) (hp, _) =
    ap (words_from []) (sym (append-nil p)) ∙ words_from-start p [] hp ∙ words_from-end p hp.0
command_line_lem (p ∷ q ∷ ws) (hp, hs) =
    words_from-start p (b' ' ∷ join (q ∷ ws)) hp
    ∙ words_from-space p (join (q ∷ ws)) hp.0
    ∙ ap (λ x. p ∷ x) (command_line_lem (q ∷ ws) hs)

-- If the path of the command line tool, the executable and the victim are words, the server is
-- created as `bpftime load executable`, and the agent as `bpftime start victim`, with `-s` before the
-- victim just where the last argument is `1`.
pub commands_lem :
    (a : Args)
    → IsWord a.bpftime_cli
    → IsWord a.executable
    → IsWord a.victim
    → (server_command a ≡ a.bpftime_cli ∷ codes "load" ∷ a.executable ∷ [])
      × (agent_command a ≡ (
          if text_eq a.syscall_trace (codes "1")
          then a.bpftime_cli ∷ codes "start" ∷ codes "-s" ∷ a.victim ∷ []
          else a.bpftime_cli ∷ codes "start" ∷ a.victim ∷ []))
unfolding server_command agent_command server_parts agent_parts
commands_lem a hc he hv = (
  command_line_lem (server_parts a) (hc, (load, (he, tt))),
  agent (text_eq a.syscall_trace (codes "1")),
)
  where
    load : IsWord (codes "load")
    load = (cons-ne-nil _ _, (refl, (refl, (refl, (refl, tt)))))

    start : IsWord (codes "start")
    start = (cons-ne-nil _ _, (refl, (refl, (refl, (refl, (refl, tt))))))

    flag : IsWord (codes "-s")
    flag = (cons-ne-nil _ _, (refl, (refl, tt)))

    agent :
        (traced : Bool)
        → command_line (
            (a.bpftime_cli ∷ codes "start" ∷ [])
            ++ (if traced then codes "-s" ∷ a.victim ∷ [] else a.victim ∷ []))
          ≡ (if traced
              then a.bpftime_cli ∷ codes "start" ∷ codes "-s" ∷ a.victim ∷ []
              else a.bpftime_cli ∷ codes "start" ∷ a.victim ∷ [])
    agent true =
        command_line_lem (a.bpftime_cli ∷ codes "start" ∷ codes "-s" ∷ a.victim ∷ [])
          (hc, (start, (flag, (hv, tt))))
    agent false =
        command_line_lem (a.bpftime_cli ∷ codes "start" ∷ a.victim ∷ []) (hc, (start, (hv, tt)))
