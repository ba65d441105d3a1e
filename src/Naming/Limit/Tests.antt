-- ===== src/Naming/Limit/Tests.antt =====
-- Names and descriptions at their limits.
use go_auto_mcp.Prelude.{◌≡◌, refl, codes, pos, negsuc}
use go_auto_mcp.Naming.Limit.{prefixed_name}

cut_name : prefixed_name (codes "list_pets") (codes "shop") (codes "__") (pos 9) ≡ codes "shop__lis"
unfolding prefixed_name
cut_name = refl

tiny_limit : prefixed_name (codes "list_pets") (codes "shop") (codes "__") (pos 3) ≡ codes "sho"
unfolding prefixed_name
tiny_limit = refl

no_limit : prefixed_name (codes "x") (codes "a") (codes "_") (negsuc 0) ≡ codes "a_x"
unfolding prefixed_name
no_limit = refl
