-- ===== src/Command/Tests.antt =====
-- `echo {{.msg}}`, over a rendering that knows no other reference.
use go_auto_mcp.Prelude.{
  suc, ℕ, pos, ◌≡◌, ◌≢◌, refl, ◌↔◌, false, Option, none, some, [], ◌∷◌, ◌++◌, Text, codes, text_eq,
  text_beq, ◌==◌, if◌then◌else◌, Result, ok, err, All, Distinct, map, take, length, ◌≤◌, arith,
  is_space, contains, has_prefix, has_suffix, cut_prefix,
}
use go_auto_mcp.Command.Quote.{
  shell_quote, escape_quotes, read_word, plain, prepend, read_word-shell_quote,
}
use go_auto_mcp.Command.Expand.{
  expand_braced, expand_loop, round, cut_brace, done, failed, unclosed, out_of_fuel,
}
use go_auto_mcp.Command.Expand.Meaning.{Expands}
use go_auto_mcp.Command.Expand.Ends.{expand_braced_ends, expand_braced_iff}
use go_auto_mcp.Command.Writer.{write_all, write, max_out, write_all-eq-take}
use go_auto_mcp.Command.Tokens.{
  validate_non_shell_tokens, check_tokens, check_token, fields_from, dangling, glued_refused,
}
use go_auto_mcp.Command.Build.{CommandConfig, Def, build_tools, tool_with}
use go_auto_mcp.Command.Build.Accepted.{Sound, names_of, build_tools_iff}
use go_auto_mcp.Command.Run.{
  str, quoted, object, Fields, no_fields, field, Process, Ended, execute, shell_safe_value,
}

read_word-shell_quote_example :
    read_word plain (shell_quote (codes "a'; rm b") ++ codes " c")
    ≡ prepend (codes "a'; rm b") (read_word plain (codes " c"))
read_word-shell_quote_example = read_word-shell_quote (codes "a'; rm b") (codes " c")

quoted_word : shell_quote (codes "it's") ≡ codes "'it'\\''s'"
unfolding shell_quote escape_quotes
quoted_word = refl

abbrev home : Text → Option Text
home name = if name == codes "HOME" then some (codes "/root") else none

expands_home : expand_braced home (codes "${HOME}/x") ≡ done (codes "/root/x")
unfolding expand_braced expand_loop round cut_brace contains text_beq
expands_home = refl

not_closed : expand_braced home (codes "${HOME") ≡ failed unclosed
unfolding expand_braced expand_loop round cut_brace contains
not_closed = refl

expand_braced_ends_example : expand_braced home (codes "${HOME") ≢ out_of_fuel
expand_braced_ends_example = expand_braced_ends home (codes "${HOME")

expand_braced_iff_example :
    (expand_braced home (codes "${HOME}/x") ≡ done (codes "/root/x"))
    ↔ Expands home (codes "${HOME}/x") (codes "/root/x")
expand_braced_iff_example = expand_braced_iff home (codes "${HOME}/x") (codes "/root/x")

write_all-eq-take_example :
    (let w =
        write_all
          (codes "abc" ∷ (codes "de" ∷ []))
          (record { written = []; remaining = max_out (pos 4) }) in
      (w.written ≡ take (max_out (pos 4)) (codes "abcde"))
      × (length w.written ≤ max_out (pos 4))
      × ((write (codes "f") w).0 ≡ length (codes "f")))
write_all-eq-take_example = write_all-eq-take (pos 4) (codes "abc" ∷ (codes "de" ∷ [])) (codes "f")

glued_refused_example :
    validate_non_shell_tokens (codes "--name={{.name}}") ≡ err (dangling (codes "--name={{.name}}"))
unfolding is_space
glued_refused_example =
    glued_refused b'-' (codes "-name=") (codes "name") (omega arith) refl
      (refl, (refl, (refl, (refl, (refl, (refl, tt)))))) (refl, (refl, (refl, (refl, tt))))

-- tokens that no template has are accepted
split_accepted : validate_non_shell_tokens (codes "echo a={{ .x }}b") ≡ ok tt
unfolding validate_non_shell_tokens check_tokens check_token fields_from is_space has_prefix
    has_suffix cut_prefix text_beq
split_accepted = refl

-- the keys of an object stay as they are
keys_kept :
    shell_safe_value (object (field (codes "; rm") (str (codes "v")) no_fields))
    ≡ object (field (codes "; rm") (quoted (codes "v")) no_fields)
unfolding shell_safe_value
keys_kept = refl

abbrev echo : Def
echo = record {
  command = codes "echo {{.msg}}";
  env = (codes "H", codes "${HOME}") ∷ [];
  working_dir = [];
  timeout = pos 0;
  max_output = pos 4;
  shell = false;
}

abbrev echo_config : CommandConfig
echo_config = record {
  tool_name = codes "echo";
  description = [];
  input_schema = record { kind = []; properties = []; required = [] };
  def = echo;
}

abbrev parses : Text → Result Text Text
parses s = ok s

build_tools_iff_example :
    (build_tools parses (ok tt) (codes "x") (codes "_") (echo_config ∷ [])
      ≡ ok (tool_with (codes "x") (codes "_") echo_config tt ∷ []))
    ↔ (All (Sound parses) (echo_config ∷ [])
        × Distinct (names_of (codes "x") (codes "_") (echo_config ∷ []))
        × (tool_with (codes "x") (codes "_") echo_config tt ∷ []
            ≡ map (λ c. tool_with (codes "x") (codes "_") c tt) (echo_config ∷ [])))
build_tools_iff_example =
    build_tools_iff parses (codes "x") (codes "_") tt (echo_config ∷ [])
      (tool_with (codes "x") (codes "_") echo_config tt ∷ [])

abbrev msg_of : Fields → Result Text Text
msg_of no_fields = err (codes "no value")
msg_of (field k (str s) fs) = ok s
msg_of (field k v fs) = err (codes "no string")

abbrev render : Text → Fields → Result Text Text
render t args = if t == codes "{{.msg}}" then msg_of args else ok t

-- the world counts processes; a process writes its arguments
abbrev run : Process → ℕ → Ended × ℕ
run p n = (record { stdout = p.argv; stderr = []; failure = none }, suc n)

abbrev args : Fields
args = field (codes "msg") (str (codes "a; rm b")) no_fields

one_argument :
    execute render home [] run echo args 0
    ≡ (record { stdout = codes "a; r"; stderr = []; failure = none }, 1)
unfolding execute fields_from is_space text_beq contains write_all max_out
one_argument = refl
