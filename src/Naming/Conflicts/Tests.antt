-- ===== src/Naming/Conflicts/Tests.antt =====
-- Three tools, two of them with one name.
use go_auto_mcp.Prelude.{◌≡◌, refl, [], ◌∷◌, codes, contains, insert, lookup, text_beq, text_eq}
use go_auto_mcp.Naming.Conflicts.{PrefixedTool, ok, detect_conflicts}

abbrev get_a : PrefixedTool
get_a = record {
  prefixed_name = codes "x_get";
  original_path = codes "/a";
  original_method = codes "GET";
}

abbrev get_b : PrefixedTool
get_b = record {
  prefixed_name = codes "x_get";
  original_path = codes "/b";
  original_method = codes "GET";
}

abbrev list_a : PrefixedTool
list_a = record {
  prefixed_name = codes "x_list";
  original_path = codes "/a";
  original_method = codes "GET";
}

first : detect_conflicts (get_a ∷ list_a ∷ get_b ∷ []) "first_wins" ≡ ok (get_a ∷ list_a ∷ [])
unfolding detect_conflicts insert lookup contains text_beq
first = refl

skipped : detect_conflicts (get_a ∷ list_a ∷ get_b ∷ []) "skip" ≡ ok (list_a ∷ [])
unfolding detect_conflicts insert lookup contains text_beq
skipped = refl
