-- ===== src/Command/Build.antt =====
-- pkg/upstream/command/command.go, BuildTools; text/template and gojq are parameters.
pub mod Accepted
use go_auto_mcp.Prelude.{
  ℕ, suc, ◌+◌, ℤ, Bool, true, false, not, List, [], ◌∷◌, ◌++◌, Text, codes, text_eq, ◌==◌,
  if◌then◌else◌, Result, ok, err, ◌>>=◌, check, contains,
}
use go_auto_mcp.Command.Tokens.{TokenError, validate_non_shell_tokens}

-- CommandSchemaProperty, CommandInputSchema; jsonschema.Schema has the same parts
pub record SchemaProperty : Type 0 where
  pub kind : Text
  pub description : Text

pub record CommandSchema : Type 0 where
  pub kind : Text
  pub properties : List (Text × SchemaProperty)
  pub required : List Text

-- buildJSONSchema
unfoldable pub build_json_schema : CommandSchema → CommandSchema
build_json_schema s = record s { kind = if s.kind == [] then codes "object" else s.kind }

-- Def
pub record Def : Type 0 where
  pub command : Text
  pub env : List (Text × Text)
  pub working_dir : Text
  pub timeout : ℤ
  pub max_output : ℤ
  pub shell : Bool

pub record CommandConfig : Type 0 where
  pub tool_name : Text
  pub description : Text
  pub input_schema : CommandSchema
  pub def : Def

pub record CommandTool (Transforms : Type 0) : Type 0 where
  pub prefixed_name : Text
  pub original_name : Text
  pub description : Text
  pub input_schema : CommandSchema
  pub def : Def
  pub transforms : Transforms

pub data BuildError : Type 0 where
  no_tool_name : ℕ → BuildError
  no_command bad_template duplicate bad_transforms : Text → BuildError
  bad_token : Text → TokenError → BuildError

-- `fmt.Errorf` around an error
abbrev pub wrap : {E F A : Type 0} → (E → F) → Result E A → Result F A
wrap f (err e) = err (f e)
wrap f (ok a) = ok a

abbrev pub tokens_of : Bool → Text → Result TokenError Unit
tokens_of true command = ok tt
tokens_of false command = validate_non_shell_tokens command

module _ (prefix separator : Text) where
  abbrev pub prefixed : CommandConfig → Text
  prefixed cfg = prefix ++ (separator ++ cfg.tool_name)

  abbrev pub tool_with : {T : Type 0} → CommandConfig → T → CommandTool T
  tool_with cfg transforms = record {
    prefixed_name = prefixed cfg;
    original_name = cfg.tool_name;
    description = cfg.description;
    input_schema = build_json_schema cfg.input_schema;
    def = cfg.def;
    transforms = transforms;
  }

module _ {Template Transforms : Type 0} (parse : Text → Result Text Template)
    (compiled : Result Text Transforms) (prefix separator : Text) where
  -- the body of the loop
  unfoldable pub build_tool :
      ℕ → List Text → CommandConfig → Result BuildError (CommandTool Transforms)
  unfolding build_json_schema
  build_tool i seen cfg = check (no_tool_name i) (not (cfg.tool_name == [])) >>= λ _.
      check (no_command cfg.tool_name) (not (cfg.def.command == [])) >>= λ _.
      wrap (λ e. bad_template cfg.tool_name) (parse cfg.def.command) >>= λ _.
      wrap (bad_token cfg.tool_name) (tokens_of cfg.def.shell cfg.def.command) >>= λ _.
      check (duplicate cfg.tool_name) (not (contains (prefixed prefix separator cfg) seen)) >>= λ _.
      wrap (λ e. bad_transforms cfg.tool_name) compiled >>= λ transforms.
      ok (tool_with prefix separator cfg transforms)

  unfoldable pub build_from :
      ℕ → List Text → List CommandConfig → Result BuildError (List (CommandTool Transforms))
  unfolding build_tool
  build_from i seen [] = ok []
  build_from i seen (cfg ∷ cfgs) = build_tool i seen cfg >>= λ tool.
      build_from (suc i) (prefixed prefix separator cfg ∷ seen) cfgs >>= λ tools. ok (tool ∷ tools)

  -- BuildTools
  unfoldable pub build_tools :
      List CommandConfig → Result BuildError (List (CommandTool Transforms))
  unfolding build_from
  build_tools = build_from 0 []
