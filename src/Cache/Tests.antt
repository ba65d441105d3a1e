-- ===== src/Cache/Tests.antt =====
-- Keys of calls, with the identity for the hash.
use go_auto_mcp.Prelude.{◌≡◌, refl, true, Text, codes, ◌++◌, text_eq, text_beq}
use go_auto_mcp.Cache.{Json, scalar, object, no_fields, field, compute_key}
use go_auto_mcp.Cache.Canonical.{same_object, swapped, compute_key-Same}

abbrev quoted : Text → Text
quoted t = codes "'" ++ (t ++ codes "'")

abbrev identity : Text → Text
identity t = t

abbrev two_fields : Text → Text → Json
two_fields k l = object (field k (scalar (codes "1")) (field l (scalar (codes "1")) no_fields))

sorted_key :
    compute_key quoted identity (codes "t") (two_fields (codes "ab") (codes "a")) true (codes "u")
    ≡ codes "t:u:{'a':1,'ab':1}"
unfolding compute_key text_beq
sorted_key = refl

compute_key-Same_example :
    compute_key quoted identity (codes "t") (two_fields (codes "ab") (codes "a")) true (codes "u")
    ≡ compute_key quoted identity (codes "t") (two_fields (codes "a") (codes "ab")) true (codes "u")
compute_key-Same_example =
    compute_key-Same quoted identity (codes "t") (two_fields (codes "ab") (codes "a"))
      (two_fields (codes "a") (codes "ab")) true (codes "u") (same_object (swapped (λ e. cc)))
