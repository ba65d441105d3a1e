-- ===== src/Openapi/Generator/Merged.antt =====
-- pkg/openapi/generator.go, mergeParams: which parameter of a name and place is there afterwards.
use go_auto_mcp.Prelude.{
  ◌≡◌, refl, ap, ◌∙◌, Bool, true, false, ◌&&◌, Option, none, some, List, [], ◌∷◌, Text, text_eq,
  ◌==◌, if◌then◌else◌, arith,
}
use go_auto_mcp.Openapi.{Parameter}
use go_auto_mcp.Openapi.Generator.{put_param, merge_params}

abbrev is_at : Text → Text → Parameter → Bool
is_at name place p = p.name == name && p.place == place

-- the first parameter of a name and a place
abbrev pub find_param : Text → Text → List (Option Parameter) → Option Parameter
find_param name place [] = none
find_param name place (none ∷ ps) = find_param name place ps
find_param name place (some p ∷ ps) =
    if is_at name place p then some p else find_param name place ps

abbrev or_this : Option Parameter → Option Parameter → Option Parameter
or_this none o = o
or_this (some p) o = some p

-- the last one
abbrev pub last_param : Text → Text → List (Option Parameter) → Option Parameter
last_param name place [] = none
last_param name place (none ∷ ps) = last_param name place ps
last_param name place (some p ∷ ps) =
    or_this (last_param name place ps) (if is_at name place p then some p else none)

find-put :
    (name place : Text) (p : Parameter) (ps : List (Option Parameter))
    → find_param name place (put_param p ps)
      ≡ (if is_at name place p then some p else find_param name place ps)
unfolding put_param
find-put name place p [] = refl
find-put name place p (none ∷ ps) = find-put name place p ps
find-put name place p (some q ∷ ps) =
    let rest = find-put name place p ps in
    ground (
      arith,
      rest,
      text_eq.beq_iff q.name p.name,
      text_eq.beq_iff q.place p.place,
      text_eq.beq_iff q.name name,
      text_eq.beq_iff q.place place,
      text_eq.beq_iff p.name name,
      text_eq.beq_iff p.place place,
    )

or_this_step :
    (o : Option Parameter) (b : Bool) (p : Parameter) (last : Option Parameter)
    → or_this o (if b then some p else last) ≡ or_this (or_this o (if b then some p else none)) last
or_this_step (some q) b p last = refl
or_this_step none true p last = refl
or_this_step none false p last = refl

-- A name and place has, after the merge, the last parameter that the operation gives it, and else
-- the first of the path.
pub find-merge_params :
    (name place : Text) (item_params op_params : List (Option Parameter))
    → find_param name place (merge_params item_params op_params)
      ≡ or_this (last_param name place op_params) (find_param name place item_params)
unfolding merge_params
find-merge_params name place ps [] = refl
find-merge_params name place ps (none ∷ qs) = find-merge_params name place ps qs
find-merge_params name place ps (some q ∷ qs) =
    find-merge_params name place (put_param q ps) qs
    ∙ (ap (or_this (last_param name place qs)) (find-put name place q ps)
        ∙ or_this_step (last_param name place qs) (is_at name place q) q (find_param name place ps))
