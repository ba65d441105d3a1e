-- ===== src/Command/Build/Accepted.antt =====
-- pkg/upstream/command/command.go, BuildTools: which configurations it accepts.
use go_auto_mcp.Prelude.{
  ℕ, suc, ◌≡◌, refl, sym, ap, ◌∙◌, ◌↔◌, Bool, true, false, not, List, [], ◌∷◌, Text, text_eq, ◌==◌,
  Result, ok, err, check, contains, Distinct, All, map, arith, >>=-eq-ok, check-ok, ok-injective,
}
use go_auto_mcp.Command.Build.{
  CommandConfig, CommandTool, no_tool_name, no_command, bad_template, duplicate, bad_token, wrap,
  tokens_of, prefixed, tool_with, build_tool, build_from, build_tools,
}

pub wrap-ok : {E F A : Type 0} (f : E → F) (r : Result E A) {a : A} → wrap f r ≡ ok a → r ≡ ok a
wrap-ok f (err e) h = absurd cc
wrap-ok f (ok a) h = cc

not_eq : (b : Bool) → not b ≡ true → b ≡ false
not_eq b h = ground arith

module _ (prefix separator : Text) where
  abbrev pub names_of : List CommandConfig → List Text
  names_of [] = []
  names_of (c ∷ cs) = prefixed prefix separator c ∷ names_of cs

-- no name of the list is among those that were seen
abbrev Apart : List Text → List Text → Type 0
Apart seen [] = Unit
Apart seen (n ∷ ns) = (contains n seen ≡ false) × Apart seen ns

Apart-nil : (ns : List Text) → Apart [] ns
unfolding contains
Apart-nil [] = tt
Apart-nil (n ∷ ns) = (refl, Apart-nil ns)

Apart-cons :
    (n : Text) (seen ns : List Text)
    → Apart (n ∷ seen) ns ↔ ((contains n ns ≡ false) × Apart seen ns)
unfolding contains
Apart-cons n seen [] = (λ h. (refl, tt), λ h. tt)
Apart-cons n seen (x ∷ ns) =
    ground (arith, Apart-cons n seen ns, text_eq.beq_iff n x, text_eq.beq_iff x n)

module _ (prefix separator : Text) where
  -- each name is new when its turn comes
  abbrev Fresh : List Text → List CommandConfig → Type 0
  Fresh seen [] = Unit
  Fresh seen (c ∷ cs) =
      (contains (prefixed prefix separator c) seen ≡ false)
      × Fresh (prefixed prefix separator c ∷ seen) cs

  Fresh-iff :
      (seen : List Text) (cs : List CommandConfig)
      → Fresh seen cs
        ↔ (Apart seen (names_of prefix separator cs) × Distinct (names_of prefix separator cs))
  Fresh-iff seen [] = (λ h. (tt, tt), λ h. tt)
  Fresh-iff seen (c ∷ cs) =
      let name = prefixed prefix separator c in
      ground
        (arith, Fresh-iff (name ∷ seen) cs, Apart-cons name seen (names_of prefix separator cs))

module _ {Template : Type 0} (parse : Text → Result Text Template) where
  -- a configuration that stands for a command
  pub record Sound (cfg : CommandConfig) : Type 0 where
    pub named : (cfg.tool_name == []) ≡ false
    pub has_command : (cfg.def.command == []) ≡ false
    pub template : Template
    pub parses : parse cfg.def.command ≡ ok template
    pub tokens : tokens_of cfg.def.shell cfg.def.command ≡ ok tt

module _ {Template Transforms : Type 0} (parse : Text → Result Text Template)
    (prefix separator : Text) (transforms : Transforms) where
  build_tool-Sound :
      (i : ℕ) (seen : List Text) (cfg : CommandConfig) (tool : CommandTool Transforms)
      → build_tool parse (ok transforms) prefix separator i seen cfg ≡ ok tool
      → Sound parse cfg
        × (contains (prefixed prefix separator cfg) seen ≡ false)
        × (tool ≡ tool_with prefix separator cfg transforms)
  unfolding build_tool
  build_tool-Sound i seen cfg tool h =
      let (u, named, h1) = >>=-eq-ok (check (no_tool_name i) (not (cfg.tool_name == []))) _ h in
      let (v, given, h2) =
        >>=-eq-ok (check (no_command cfg.tool_name) (not (cfg.def.command == []))) _ h1 in
      let (t, parsed, h3) =
        >>=-eq-ok (wrap (λ e. bad_template cfg.tool_name) (parse cfg.def.command)) _ h2 in
      let (w, split, h4) =
        >>=-eq-ok (wrap (bad_token cfg.tool_name) (tokens_of cfg.def.shell cfg.def.command)) _ h3 in
      let (x, new, h5) =
        >>=-eq-ok
          (check (duplicate cfg.tool_name) (not (contains (prefixed prefix separator cfg) seen))) _
          h4 in
      let made : ok (tool_with prefix separator cfg transforms) ≡ ok tool = h5 in
      (
        record {
          named = not_eq (cfg.tool_name == []) (check-ok (no_tool_name i) _ named);
          has_command =
              not_eq (cfg.def.command == []) (check-ok (no_command cfg.tool_name) _ given);
          template = t;
          parses = wrap-ok (λ e. bad_template cfg.tool_name) (parse cfg.def.command) parsed;
          tokens =
              wrap-ok (bad_token cfg.tool_name) (tokens_of cfg.def.shell cfg.def.command) split;
        },
        not_eq (contains (prefixed prefix separator cfg) seen)
            (check-ok (duplicate cfg.tool_name) _ new),
        sym (ok-injective made),
      )

  build_tool_complete :
      (i : ℕ) (seen : List Text) (cfg : CommandConfig)
      → Sound parse cfg
      → contains (prefixed prefix separator cfg) seen ≡ false
      → build_tool parse (ok transforms) prefix separator i seen cfg
        ≡ ok (tool_with prefix separator cfg transforms)
  unfolding build_tool
  build_tool_complete i seen cfg s new = simp (s.named, s.has_command, s.parses, s.tokens, new)

  build_from-Sound :
      (i : ℕ) (seen : List Text) (cfgs : List CommandConfig) (tools : List (CommandTool Transforms))
      → build_from parse (ok transforms) prefix separator i seen cfgs ≡ ok tools
      → All (Sound parse) cfgs
        × Fresh prefix separator seen cfgs
        × (tools ≡ map (λ c. tool_with prefix separator c transforms) cfgs)
  unfolding build_from
  build_from-Sound i seen [] tools h = (tt, tt, sym (ok-injective h))
  build_from-Sound i seen (c ∷ cs) tools h =
      let (tool, built, h1) =
        >>=-eq-ok (build_tool parse (ok transforms) prefix separator i seen c) _ h in
      let (rest, others, h2) =
        >>=-eq-ok
          (build_from parse (ok transforms) prefix separator (suc i)
            (prefixed prefix separator c ∷ seen) cs)
          _ h1 in
      let (sound, new, made) = build_tool-Sound i seen c tool built in
      let (all, fresh, more) =
        build_from-Sound (suc i) (prefixed prefix separator c ∷ seen) cs rest others in
      let here : tool ∷ rest ≡ tools = ok-injective h2 in
      (
        (sound, all),
        (new, fresh),
        sym here
            ∙ (ap (λ x. x ∷ rest) made
                ∙ ap (λ xs. tool_with prefix separator c transforms ∷ xs) more),
      )

  build_from_complete :
      (i : ℕ) (seen : List Text) (cfgs : List CommandConfig)
      → All (Sound parse) cfgs
      → Fresh prefix separator seen cfgs
      → build_from parse (ok transforms) prefix separator i seen cfgs
        ≡ ok (map (λ c. tool_with prefix separator c transforms) cfgs)
  unfolding build_from
  build_from_complete i seen [] all fresh = refl
  build_from_complete i seen (c ∷ cs) (sound, all) (new, fresh) = simp (
    build_tool_complete i seen c sound new,
    build_from_complete (suc i) (prefixed prefix separator c ∷ seen) cs all fresh,
  )

  -- Where the identity transforms compile, the configurations are accepted exactly if each has a
  -- name, a command that parses and tokens that may be split, and no two have the same prefixed
  -- name; then there is one tool for each, in their order.
  pub build_tools_iff :
      (cfgs : List CommandConfig) (tools : List (CommandTool Transforms))
      → (build_tools parse (ok transforms) prefix separator cfgs ≡ ok tools) ↔ (
          All (Sound parse) cfgs
          × Distinct (names_of prefix separator cfgs)
          × (tools ≡ map (λ c. tool_with prefix separator c transforms) cfgs))
  unfolding build_tools
  build_tools_iff cfgs tools = (
    λ h.
        let (all, fresh, made) = build_from-Sound 0 [] cfgs tools h in
        (all, ((Fresh-iff prefix separator [] cfgs).0 fresh).1, made),
    λ (all, distinct, made).
        build_from_complete 0 [] cfgs all (
          (Fresh-iff prefix separator [] cfgs).1
            (Apart-nil (names_of prefix separator cfgs), distinct))
        ∙ ap ok (sym made),
  )
