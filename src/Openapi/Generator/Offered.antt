-- ===== src/Openapi/Generator/Offered.antt =====
-- pkg/openapi/generator.go: the input schema of a generated tool comes from its operation, the names
-- of its arguments from the operation with the path's parameters merged in.
use mathlib.Core.List.{Memᴰ, append_assoc, append-nil}
use mathlib.Core.Path.{subst}
use go_auto_mcp.Prelude.{
  ◌≡◌, refl, sym, ap, ◌∙◌, Bool, true, false, ◌||◌, Option, none, some, List, [], ◌∷◌, ◌++◌, Text,
  text_eq, contains, keys, Bool-cases, inl, inr,
}
use go_auto_mcp.Openapi.{Location, Parameter, Operation}
use go_auto_mcp.Openapi.Arguments.{
  Occurrence, occurrences, parameter_occurrences, body_occurrences, cons_at, location_of, map_names,
  collect, derive_arg_mapping, arg_name,
}
use go_auto_mcp.Openapi.Schema.{derive_input_schema}
use go_auto_mcp.Openapi.Agreed.{body_resolved, arg_name-Has}
use go_auto_mcp.Openapi.Generator.{
  same_parameter, put_param, merge_params, merged_operation, tool_of, UpstreamConfig, NamingConfig,
  PathItem, ApiOperation,
}

-- whether a parameter with the name and the place of another is there
abbrev pub has_same : Parameter → List (Option Parameter) → Bool
has_same p [] = false
has_same p (none ∷ ps) = has_same p ps
has_same p (some q ∷ ps) = same_parameter q p || has_same p ps

-- no parameter has the name and the place of an earlier one, or of one of those before
abbrev pub NoRepeats : List (Option Parameter) → List (Option Parameter) → Type 0
NoRepeats before [] = Unit
NoRepeats before (none ∷ ps) = NoRepeats before ps
NoRepeats before (some p ∷ ps) =
    (has_same p before ≡ false) × NoRepeats (before ++ (some p ∷ [])) ps

put_param_new :
    (p : Parameter) (ps : List (Option Parameter))
    → has_same p ps ≡ false
    → put_param p ps ≡ ps ++ (some p ∷ [])
unfolding put_param
put_param_new p [] h = refl
put_param_new p (none ∷ ps) h = ap (λ t. none ∷ t) (put_param_new p ps h)
put_param_new p (some q ∷ ps) h = elim (Bool-cases (same_parameter q p)) [
  | inl same ↦ absurd (let e : true ≡ false = sym (simp same) ∙ h in cc)
  | inr other ↦ rw other (ap (λ t. some q ∷ t) (put_param_new p ps (sym (simp other) ∙ h)))
]

cons_at-append :
    (o : Option Location) (name : Text) (os more : List Occurrence)
    → cons_at o name (os ++ more) ≡ cons_at o name os ++ more
cons_at-append none name os more = refl
cons_at-append (some l) name os more = refl

parameter_occurrences-append :
    (before ps : List (Option Parameter))
    → parameter_occurrences (before ++ ps)
      ≡ parameter_occurrences before ++ parameter_occurrences ps
unfolding parameter_occurrences
parameter_occurrences-append [] ps = refl
parameter_occurrences-append (none ∷ before) ps = parameter_occurrences-append before ps
parameter_occurrences-append (some p ∷ before) ps =
    ap (cons_at (location_of p.place) p.name) (parameter_occurrences-append before ps)
    ∙ cons_at-append (location_of p.place) p.name (parameter_occurrences before)
        (parameter_occurrences ps)

parameter_occurrences-merge_params :
    (before ps : List (Option Parameter))
    → NoRepeats before ps
    → parameter_occurrences (merge_params before ps)
      ≡ parameter_occurrences before ++ parameter_occurrences ps
unfolding merge_params parameter_occurrences
parameter_occurrences-merge_params before [] h = sym (append-nil (parameter_occurrences before))
parameter_occurrences-merge_params before (none ∷ ps) h =
    parameter_occurrences-merge_params before ps h
parameter_occurrences-merge_params before (some p ∷ ps) (new, h) =
    ap (λ ms. parameter_occurrences (merge_params ms ps)) (put_param_new p before new)
    ∙ (parameter_occurrences-merge_params (before ++ (some p ∷ [])) ps h
        ∙ (ap (λ os. os ++ parameter_occurrences ps)
              (parameter_occurrences-append before (some p ∷ []))
            ∙ (append_assoc (parameter_occurrences before) (parameter_occurrences (some p ∷ []))
                  (parameter_occurrences ps)
                ∙ ap (λ os. parameter_occurrences before ++ os)
                    (sym (
                      cons_at-append (location_of p.place) p.name [] (parameter_occurrences ps))))))

occurrences-merged_operation :
    (op : Operation)
    → NoRepeats [] op.parameters
    → occurrences (merged_operation [] op) ≡ occurrences op
unfolding occurrences parameter_occurrences
occurrences-merged_operation op h =
    ap (λ os. os ++ body_occurrences op.json_body)
      (parameter_occurrences-merge_params [] op.parameters h)

-- Where the path has no parameters of its own, the operation's parameters differ in name or place,
-- and the properties of the body resolve, each argument that a generated tool reads is offered: the
-- name under which it is read is a property of the tool's input schema.
pub arg_name-tool_of :
    (upstream : UpstreamConfig) (naming : NamingConfig) (item : PathItem) (method : Text)
    (op : ApiOperation) (l : Location) (name : Text)
    → item.parameters ≡ []
    → NoRepeats [] op.call.parameters
    → body_resolved op.call.json_body ≡ true
    → Memᴰ (l, name) (occurrences (tool_of upstream naming item method op).operation)
    → contains
        (arg_name (derive_arg_mapping (tool_of upstream naming item method op).operation) l name)
        (keys (tool_of upstream naming item method op).input_schema.properties)
      ≡ true
unfolding tool_of derive_arg_mapping
arg_name-tool_of upstream naming item method op l name bare distinct resolved at =
    let merged = merged_operation item.parameters op.call in
    let same : occurrences merged ≡ occurrences op.call =
      ap (λ ps. occurrences (merged_operation ps op.call)) bare
      ∙ occurrences-merged_operation op.call distinct in
    let there = subst (λ os. Memᴰ (l, name) os) same at in
    let mapping : derive_arg_mapping merged ≡ derive_arg_mapping op.call =
      ap (λ os. map_names (collect os []) []) same in
    ap (λ m. contains (arg_name m l name) (keys (derive_input_schema op.call).properties)) mapping
    ∙ arg_name-Has op.call l name resolved there
