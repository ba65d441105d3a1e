-- ===== src/Cache.antt =====
-- pkg/cache/cache.go, ComputeKey: the key under which a call's result is kept. The texts of JSON
-- strings and of the other scalars are parameters, and so is the hash.
pub mod Order
pub mod Canonical
mod Tests
use go_auto_mcp.Prelude.{
  ℕ, Bool, true, false, not, ◌&&◌, ◌||◌, List, [], ◌∷◌, ◌++◌, Text, codes, text_eq, nat_eq, ◌==◌,
  ltb, if◌then◌else◌,
}

-- a value that json.Unmarshal gives: a scalar with the text that json.Marshal gives for it
mutual
  pub data Json : Type 0 where
    scalar : Text → Json
    array : Items → Json
    object : Fields → Json

  pub data Items : Type 0 where
    no_items : Items
    item : Json → Items → Items

  pub data Fields : Type 0 where
    no_fields : Fields
    field : Text → Json → Fields → Fields

-- the order of strings
unfoldable pub less : Text → Text → Bool
less [] [] = false
less [] (d ∷ t) = true
less (c ∷ s) [] = false
less (c ∷ s) (d ∷ t) = ltb c d || (c == d && less s t)

-- sort.Strings, with the text of the value kept beside its key
unfoldable pub insert_key : Text → Text → List (Text × Text) → List (Text × Text)
unfolding less
insert_key k v [] = (k, v) ∷ []
insert_key k v ((l, w) ∷ ps) =
    let rest = insert_key k v ps in if less l k then (l, w) ∷ rest else (k, v) ∷ ((l, w) ∷ ps)

abbrev pub commas : List Text → Text
commas [] = []
commas (t ∷ []) = t
commas (t ∷ (u ∷ ts)) = t ++ (codes "," ++ commas (u ∷ ts))

module _ (string_text : Text → Text) where
  abbrev pub members : List (Text × Text) → List Text
  members [] = []
  members ((k, v) ∷ ps) = (string_text k ++ (codes ":" ++ v)) ∷ members ps

  -- marshalSorted
  unfoldable mutual
    unfolding insert_key

    pub marshal_sorted : Json → Text
    marshal_sorted (scalar t) = t
    marshal_sorted (array is) = codes "[" ++ (commas (item_texts is) ++ codes "]")
    marshal_sorted (object fs) = codes "{" ++ (commas (members (sorted_fields fs)) ++ codes "}")

    pub item_texts : Items → List Text
    item_texts no_items = []
    item_texts (item v is) = marshal_sorted v ∷ item_texts is

    pub sorted_fields : Fields → List (Text × Text)
    sorted_fields no_fields = []
    sorted_fields (field k v fs) = insert_key k (marshal_sorted v) (sorted_fields fs)

-- strings.Join of the parts
abbrev pub colons : List Text → Text
colons [] = []
colons (t ∷ []) = t
colons (t ∷ (u ∷ ts)) = t ++ (codes ":" ++ colons (u ∷ ts))

module _ (string_text : Text → Text) (hash : Text → Text) where
  -- ComputeKey
  unfoldable pub compute_key : Text → Json → Bool → Text → Text
  unfolding marshal_sorted
  compute_key tool_name args per_user subject =
      let subjects = if per_user && not (subject == []) then subject ∷ [] else [] in
      hash (colons (tool_name ∷ (subjects ++ (marshal_sorted string_text args ∷ []))))
