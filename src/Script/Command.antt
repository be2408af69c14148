-- ===== src/Script/Command.antt =====
-- The arguments of .github/script/run_example.py, and the command lines that it makes of them, which
-- are joined by spaces and split again.
pub mod Laws
use bpftime_benchmark.Prelude.{Bool, Option, none, some, List, [], ◌∷◌, ◌++◌, if◌then◌else◌}
use bpftime_benchmark.Text.Base.{Text, codes, text_eq, contains}
use bpftime_benchmark.Text.Lines.{words}

pub record Args : Type 0 where
  pub executable : Text
  pub victim : Text
  pub expected_str : Text
  pub bpftime_cli : Text
  pub syscall_trace : Text

-- `(...) = sys.argv[1:]`; `none` is a `ValueError`.
unfoldable pub unpack : List Text → Option Args
unpack (executable ∷ victim ∷ expected_str ∷ bpftime_cli ∷ syscall_trace ∷ []) = some (record {
  executable = executable;
  victim = victim;
  expected_str = expected_str;
  bpftime_cli = bpftime_cli;
  syscall_trace = syscall_trace;
})
unpack args = none

-- `" ".join(parts)`.
unfoldable pub join : List Text → Text
join [] = []
join (p ∷ []) = p
join (p ∷ q ∷ parts) = p ++ (b' ' ∷ join (q ∷ parts))

unfoldable pub server_parts : Args → List Text
server_parts a = a.bpftime_cli ∷ codes "load" ∷ a.executable ∷ []

unfoldable pub agent_parts : Args → List Text
agent_parts a =
    (a.bpftime_cli ∷ codes "start" ∷ [])
    ++ (if text_eq a.syscall_trace (codes "1") then codes "-s" ∷ a.victim ∷ [] else a.victim ∷ [])

unfoldable pub command_line : List Text → List Text
unfolding join words
command_line parts = words (join parts)

-- `bashreadline_patch`.
unfoldable pub skips_check : Args → Bool
unfolding contains
skips_check a = contains a.executable (codes "readline")

-- What the two processes are created with.
unfoldable pub server_command : Args → List Text
unfolding server_parts command_line
server_command a = command_line (server_parts a)

unfoldable pub agent_command : Args → List Text
unfolding agent_parts command_line
agent_command a = command_line (agent_parts a)
