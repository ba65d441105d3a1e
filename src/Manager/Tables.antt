-- ===== src/Manager/Tables.antt =====
-- Servers that are association lists from names to handlers: the interface of a server can be met.
use go_auto_mcp.Prelude.{
  String, ◌≡◌, refl, none, [], ◌∷◌, string_eq, Dict, lookup, insert, lookup-insert, contains,
  if◌then◌else◌, arith, eq_iff,
}
use go_auto_mcp.Manager.{List, ServerOps, Handler}

abbrev pub Tools : Type 0
Tools = Dict String Handler

unfoldable pub drop_names : List String → Tools → Tools
unfolding contains
drop_names names [] = []
drop_names names ((n, h) ∷ s) =
    let rest = drop_names names s in if contains n names then rest else (n, h) ∷ rest

pub lookup-drop_names :
    (names : List String) (s : Tools) (n : String)
    → lookup n (drop_names names s) ≡ (if contains n names then none else lookup n s)
unfolding drop_names lookup
lookup-drop_names names [] n = ground arith
lookup-drop_names names ((k, h) ∷ s) n = ground (arith, lookup-drop_names names s n, eq_iff k n)

pub lookup-empty : (n : String) → lookup n (let s : Tools = [] in s) ≡ none
unfolding lookup
lookup-empty n = refl

abbrev pub ops : ServerOps Tools
ops = record {
  new_server = [];
  add_tool = λ t h s. insert t.name h s;
  remove_tools = drop_names;
  add_resource = λ x s. s;
  remove_resources = λ names s. s;
  tool_of = λ s n. lookup n s;
  tool_of-new = lookup-empty;
  tool_of-add = λ t h s n. lookup-insert t.name n h s;
  tool_of-remove = λ names s n. lookup-drop_names names s n;
  tool_of-add_resource = λ x s n. refl;
  tool_of-remove_resources = λ names s n. refl;
}
