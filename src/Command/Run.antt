-- ===== src/Command/Run.antt =====
-- pkg/upstream/command/command.go, Def.Execute, and Executor.Execute of executor.go; the templates,
-- the process and its environment are parameters.
pub mod Words
use go_auto_mcp.Prelude.{
  ℕ, ◌+◌, ℤ, Bool, true, false, Option, none, some, List, [], ◌∷◌, ◌++◌, Text, codes, text_eq,
  nat_eq, ◌==◌, if◌then◌else◌, Result, ok, err, ◌>>=◌,
}
use go_auto_mcp.Command.Tokens.{fields}
use go_auto_mcp.Command.Quote.{shell_quote}
use go_auto_mcp.Command.Expand.{Expanded, ExpandError, expand_braced, done, failed, out_of_fuel}
use go_auto_mcp.Command.Writer.{write_all, max_out}
use go_auto_mcp.Command.Build.{Def, wrap}

-- the values of a call's arguments; `quoted` is shellSafeString
mutual
  pub data Value : Type 0 where
    str quoted other : Text → Value
    array : Items → Value
    object : Fields → Value

  pub data Items : Type 0 where
    no_items : Items
    item : Value → Items → Items

  pub data Fields : Type 0 where
    no_fields : Fields
    field : Text → Value → Fields → Fields

-- what a template prints for a text, and for a shellSafeString by its method String
unfoldable pub printed : Value → Option Text
unfolding shell_quote
printed (str s) = some s
printed (quoted s) = some (shell_quote s)
printed (other s) = some s
printed (array is) = none
printed (object fs) = none

-- shellSafeValue
unfoldable mutual
  pub shell_safe_value : Value → Value
  shell_safe_value (str s) = quoted s
  shell_safe_value (quoted s) = quoted s
  shell_safe_value (other s) = other s
  shell_safe_value (array is) = array (shell_safe_items is)
  shell_safe_value (object fs) = object (shell_safe_fields fs)

  pub shell_safe_items : Items → Items
  shell_safe_items no_items = no_items
  shell_safe_items (item v is) = item (shell_safe_value v) (shell_safe_items is)

  pub shell_safe_fields : Fields → Fields
  shell_safe_fields no_fields = no_fields
  shell_safe_fields (field k v fs) = field k (shell_safe_value v) (shell_safe_fields fs)

-- exec.Cmd, with the timeout of its context
pub record Process : Type 0 where
  pub path : Text
  pub argv : List Text
  pub env : List Text
  pub dir : Text
  pub timeout : ℤ

-- what a process leaves: the chunks that it wrote, and the error of Run
pub record Ended : Type 0 where
  pub stdout : List Text
  pub stderr : List Text
  pub failure : Option Text

pub data RunError : Type 0 where
  template_error shell_error : Text → RunError
  empty_command : RunError
  env_error : Text → ExpandError → RunError
  no_end : RunError
  process_error : Text → RunError

-- stdout, stderr and the error of Def.Execute
pub record Output : Type 0 where
  pub stdout : Text
  pub stderr : Text
  pub failure : Option RunError

abbrev pub failed_with : RunError → Output
failed_with e = record { stdout = []; stderr = []; failure = some e }

abbrev pub expanded : Text → Expanded → Result RunError Text
expanded k (done v) = ok (k ++ (codes "=" ++ v))
expanded k (failed e) = err (env_error k e)
expanded k out_of_fuel = err no_end

abbrev pub captured : ℤ → List Text → Text
captured max chunks = (write_all chunks (record { written = []; remaining = max_out max })).written

abbrev pub output_of : ℤ → Ended → Output
output_of max e = record {
  stdout = captured max e.stdout;
  stderr = captured max e.stderr;
  failure = elim e.failure [ none ↦ none | some m ↦ some (process_error m) ];
}

abbrev pub words_of : List Text → Result RunError (Text × List Text)
words_of [] = err empty_command
words_of (w ∷ ws) = ok (w, ws)

abbrev pub through_shell : Text → Result RunError (Text × List Text)
through_shell rendered = ok (codes "sh", codes "-c" ∷ (rendered ∷ []))

module _ (render : Text → Fields → Result Text Text) where
  -- the loop over the tokens
  unfoldable pub render_all : List Text → Fields → Result RunError (List Text)
  render_all [] args = ok []
  render_all (t ∷ ts) args =
      wrap template_error (render t args) >>= λ r. render_all ts args >>= λ rest. ok (r ∷ rest)

  -- Def.buildCmd: the program and its arguments
  unfoldable pub build_cmd : Def → Fields → Result RunError (Text × List Text)
  unfolding render_all shell_safe_fields
  build_cmd d args =
      if d.shell
      then wrap shell_error (render d.command (shell_safe_fields args)) >>= through_shell
      else render_all (fields d.command) args >>= words_of

module _ (lookup_env : Text → Option Text) where
  -- `for k, v := range d.Env`
  unfoldable pub add_env : List (Text × Text) → List Text → Result RunError (List Text)
  unfolding expand_braced
  add_env [] env = ok env
  add_env ((k, v) ∷ vars) env =
      expanded k (expand_braced lookup_env v) >>= λ e. add_env vars (env ++ (e ∷ []))

module _ (render : Text → Fields → Result Text Text) (lookup_env : Text → Option Text)
    (environ : List Text) where
  -- the process that Execute builds
  unfoldable pub process_for : Def → Fields → Result RunError Process
  unfolding build_cmd add_env
  process_for d args = build_cmd render d args >>= λ (path, argv).
      add_env lookup_env d.env environ >>= λ env.
      ok (record { path = path; argv = argv; env = env; dir = d.working_dir; timeout = d.timeout })

module _ {W : Type 0} (run : Process → W → Ended × W) where
  abbrev pub run_process : Def → Result RunError Process → W → Output × W
  run_process d (err e) w = (failed_with e, w)
  run_process d (ok p) w = let (ended, w') = run p w in (output_of d.max_output ended, w')

module _ (render : Text → Fields → Result Text Text) (lookup_env : Text → Option Text)
    (environ : List Text) {W : Type 0} (run : Process → W → Ended × W) where
  -- Def.Execute
  unfoldable pub execute : Def → Fields → W → Output × W
  unfolding process_for
  execute d args w = run_process run d (process_for render lookup_env environ d args) w

-- the result of a call, as text
pub record TextResult : Type 0 where
  pub is_error : Bool
  pub text : Text

-- strings.TrimRight(s, "\n")
abbrev pub cons_line : ℕ → Text → Text
cons_line c [] = if c == b'\n' then [] else c ∷ []
cons_line c (d ∷ s) = c ∷ (d ∷ s)

unfoldable pub trim_newlines : Text → Text
trim_newlines [] = []
trim_newlines (c ∷ s) = cons_line c (trim_newlines s)

-- ToErrorResult, with the text of the error
unfoldable pub to_error_result : Text → Text → TextResult
unfolding trim_newlines
to_error_result stderr message =
    let msg = trim_newlines stderr in
    record { is_error = true; text = if msg == [] then message else msg }

abbrev pub or_this : Text → Option Text → Text
or_this text none = text
or_this text (some encoded) = encoded

module _ {J : Type 0} (encode : J → Option Text) where
  abbrev pub recoded : Text → Option J → Text
  recoded text none = text
  recoded text (some v) = or_this text (encode v)

module _ {J : Type 0} (decode : Text → Option J) (encode : J → Option Text) where
  -- ToTextResult
  unfoldable pub to_text_result : Text → TextResult
  unfolding trim_newlines
  to_text_result stdout =
      let trimmed = trim_newlines stdout in
      let text = if trimmed == [] then stdout else trimmed in
      record { is_error = false; text = recoded encode text (decode stdout) }

module _ {J : Type 0} (decode : Text → Option J) (encode : J → Option Text)
    (message : RunError → Text) where
  -- Executor.Execute
  unfoldable pub result_of : Output → TextResult
  unfolding to_text_result to_error_result
  result_of out = elim out.failure [
    | none ↦ to_text_result decode encode out.stdout
    | some e ↦ to_error_result out.stderr (message e)
  ]
