-- ===== src/Cache/Canonical.antt =====
-- pkg/cache/cache.go: the key does not depend on the order of an object's members.
use go_auto_mcp.Prelude.{◌≡◌, ◌≢◌, refl, ap, ◌∙◌, Bool, ◌∷◌, ◌++◌, Text, codes}
use go_auto_mcp.Cache.{
  Json, scalar, array, object, Items, no_items, item, Fields, no_fields, field, insert_key, commas,
  members, marshal_sorted, item_texts, sorted_fields, compute_key,
}
use go_auto_mcp.Cache.Order.{insert_swap}

-- the same value but for the order of the members of objects, at any depth
mutual
  pub data Same : Json → Json → Type 0 where
    same_scalar : {t : Text} → Same (scalar t) (scalar t)
    same_array : {is js : Items} → SameItems is js → Same (array is) (array js)
    same_object : {fs gs : Fields} → SameFields fs gs → Same (object fs) (object gs)

  pub data SameItems : Items → Items → Type 0 where
    both_end : SameItems no_items no_items
    both_item :
        {v w : Json} {is js : Items}
        → Same v w
        → SameItems is js
        → SameItems (item v is) (item w js)

  pub data SameFields : Fields → Fields → Type 0 where
    both_empty : SameFields no_fields no_fields
    both_field :
        {k : Text} {v w : Json} {fs gs : Fields}
        → Same v w
        → SameFields fs gs
        → SameFields (field k v fs) (field k w gs)
    swapped :
        {k l : Text} {v w : Json} {fs : Fields}
        → k ≢ l
        → SameFields (field k v (field l w fs)) (field l w (field k v fs))
    in_steps : {fs gs hs : Fields} → SameFields fs gs → SameFields gs hs → SameFields fs hs

module _ (string_text : Text → Text) where
  mutual
    unfolding marshal_sorted item_texts sorted_fields

    marshal_sorted-Same :
        {v w : Json} → Same v w → marshal_sorted string_text v ≡ marshal_sorted string_text w
    marshal_sorted-Same same_scalar = refl
    marshal_sorted-Same (same_array s) =
        ap (λ ts. codes "[" ++ (commas ts ++ codes "]")) (item_texts-Same s)
    marshal_sorted-Same (same_object s) =
        ap (λ ps. codes "{" ++ (commas (members string_text ps) ++ codes "}"))
          (sorted_fields-Same s)

    item_texts-Same :
        {is js : Items} → SameItems is js → item_texts string_text is ≡ item_texts string_text js
    item_texts-Same both_end = refl
    item_texts-Same (both_item s rest) = λ i. marshal_sorted-Same s i ∷ item_texts-Same rest i

    sorted_fields-Same :
        {fs gs : Fields}
        → SameFields fs gs
        → sorted_fields string_text fs ≡ sorted_fields string_text gs
    sorted_fields-Same both_empty = refl
    sorted_fields-Same (both_field {k} s rest) =
        λ i. insert_key k (marshal_sorted-Same s i) (sorted_fields-Same rest i)
    sorted_fields-Same (swapped {k} {l} {v} {w} {fs} ne) =
        insert_swap k l (marshal_sorted string_text v) (marshal_sorted string_text w)
          (sorted_fields string_text fs) ne
    sorted_fields-Same (in_steps s t) = sorted_fields-Same s ∙ sorted_fields-Same t

-- Calls whose arguments are the same but for the order of the members of objects, at any depth,
-- have the same key.
pub compute_key-Same :
    (string_text hash : Text → Text) (tool_name : Text) (args others : Json) (per_user : Bool)
    (subject : Text)
    → Same args others
    → compute_key string_text hash tool_name args per_user subject
      ≡ compute_key string_text hash tool_name others per_user subject
unfolding compute_key
compute_key-Same string_text hash tool_name args others per_user subject s =
    simp (marshal_sorted-Same string_text s)
