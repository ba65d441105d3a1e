-- ===== src/Command/Run/Words.antt =====
-- pkg/upstream/command/command.go, Def.Execute: which process a call starts.
use go_auto_mcp.Prelude.{
  ◌≡◌, refl, true, false, Option, some, List, [], ◌∷◌, ◌++◌, Text, codes, Result, ok,
}
use go_auto_mcp.Command.Tokens.{fields}
use go_auto_mcp.Command.Expand.Meaning.{Expands}
use go_auto_mcp.Command.Build.{Def}
use go_auto_mcp.Command.Quote.{shell_quote}
use go_auto_mcp.Command.Run.{
  Value, str, quoted, other, array, object, Items, no_items, item, no_fields, field, printed,
  shell_safe_value, shell_safe_items, Fields, Process, shell_safe_fields,
}

-- The same value, in which every string, at any depth, is printed as its quoted form.
mutual
  pub data SafeValue : Value → Value → Type 0 where
    safe_string : {s : Text} {v : Value} → printed v ≡ some (shell_quote s) → SafeValue (str s) v
    safe_quoted : {s : Text} {v : Value} → printed v ≡ some (shell_quote s) → SafeValue (quoted s) v
    safe_other : {s : Text} → SafeValue (other s) (other s)
    safe_array : {is js : Items} → SafeItems is js → SafeValue (array is) (array js)
    safe_object : {fs gs : Fields} → SafeFields fs gs → SafeValue (object fs) (object gs)

  pub data SafeItems : Items → Items → Type 0 where
    safe_end : SafeItems no_items no_items
    safe_item :
        {v w : Value} {is js : Items}
        → SafeValue v w
        → SafeItems is js
        → SafeItems (item v is) (item w js)

  pub data SafeFields : Fields → Fields → Type 0 where
    safe_empty : SafeFields no_fields no_fields
    safe_field :
        {k : Text} {v w : Value} {fs gs : Fields}
        → SafeValue v w
        → SafeFields fs gs
        → SafeFields (field k v fs) (field k w gs)

mutual
  unfolding shell_safe_value shell_safe_items shell_safe_fields printed

  shell_safe_value-Safe : (v : Value) → SafeValue v (shell_safe_value v)
  shell_safe_value-Safe (str s) = safe_string refl
  shell_safe_value-Safe (quoted s) = safe_quoted refl
  shell_safe_value-Safe (other s) = safe_other
  shell_safe_value-Safe (array is) = safe_array (shell_safe_items-Safe is)
  shell_safe_value-Safe (object fs) = safe_object (shell_safe_fields-Safe fs)

  shell_safe_items-Safe : (is : Items) → SafeItems is (shell_safe_items is)
  shell_safe_items-Safe no_items = safe_end
  shell_safe_items-Safe (item v is) = safe_item (shell_safe_value-Safe v) (shell_safe_items-Safe is)

  shell_safe_fields-Safe : (fs : Fields) → SafeFields fs (shell_safe_fields fs)
  shell_safe_fields-Safe no_fields = safe_empty
  shell_safe_fields-Safe (field k v fs) =
      safe_field (shell_safe_value-Safe v) (shell_safe_fields-Safe fs)

module _ (render : Text → Fields → Result Text Text) where
  -- each token rendered by itself
  pub data Rendered (args : Fields) : List Text → List Text → Type 0 where
    no_tokens : Rendered args [] []
    token :
        {t r : Text} {ts rs : List Text}
        → render t args ≡ ok r
        → Rendered args ts rs
        → Rendered args (t ∷ ts) (r ∷ rs)

  -- the words of a process: the rendered tokens, or a shell with the command, in which the strings
  -- among the arguments are quoted
  pub data Words (d : Def) (args : Fields) : Text → List Text → Type 0 where
    direct :
        {path : Text} {argv : List Text}
        → d.shell ≡ false
        → Rendered args (fields d.command) (path ∷ argv)
        → Words d args path argv
    by_shell :
        (line : Text) (safe : Fields) {path : Text} {argv : List Text}
        → d.shell ≡ true
        → SafeFields args safe
        → render d.command safe ≡ ok line
        → path ≡ codes "sh"
        → argv ≡ codes "-c" ∷ (line ∷ [])
        → Words d args path argv

module _ (lookup_env : Text → Option Text) where
  -- an entry for each variable, with what its value stands for
  pub data Added : List (Text × Text) → List Text → Type 0 where
    no_more : Added [] []
    variable :
        (k : Text) {v out : Text} {vars : List (Text × Text)} {env : List Text}
        → Expands lookup_env v out
        → Added vars env
        → Added ((k, v) ∷ vars) ((k ++ (codes "=" ++ out)) ∷ env)

module _ (render : Text → Fields → Result Text Text) (lookup_env : Text → Option Text)
    (environ : List Text) where
  -- the process that a call of a command stands for
  pub record Starts (d : Def) (args : Fields) (p : Process) : Type 0 where
    pub words : Words render d args p.path p.argv
    pub added : List Text
    pub environment : p.env ≡ environ ++ added
    pub variables : Added lookup_env d.env added
    pub directory : p.dir ≡ d.working_dir
    pub limit : p.timeout ≡ d.timeout
