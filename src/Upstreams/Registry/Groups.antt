-- ===== src/Upstreams/Registry/Groups.antt =====
-- What a group shows: the entries of its upstreams that its filter selects.
use mathlib.Core.Path.{subst}
use mathlib.Core.List.{Memᴰ}
use go_auto_mcp.Prelude.{
  ℕ, String, ◌≡◌, refl, sym, ◌∙◌, ◌↔◌, true, Option, List, [], ◌∷◌, string_eq, ◌==◌, contains,
  contains-append, arith, eq_iff, Bool-cases, inl, inr,
}
use go_auto_mcp.Upstreams.Registry.{
  Entry, ValidatedUpstream, JsonPath, selected, selected_names, member_names,
}

-- The entry that puts a name into a group.
pub record Shown (jp : Option JsonPath) (listed : List String) (vus : List ValidatedUpstream)
    (name : String) : Type 0 where
  pub source : ValidatedUpstream
  pub given : Memᴰ source vus
  pub in_group : contains source.name listed ≡ true
  pub entry : Entry
  pub owned : Memᴰ entry source.entries
  pub named : entry.prefixed_name ≡ name
  pub passes : selected jp source.spec_root entry.operation_node ≡ true

module _ (jp : Option JsonPath) where
  -- the same inside one upstream
  record Selected (root : Option ℕ) (es : List Entry) (name : String) : Type 0 where
    entry : Entry
    owned : Memᴰ entry es
    named : entry.prefixed_name ≡ name
    passes : selected jp root entry.operation_node ≡ true

  Selected-cons :
      {root : Option ℕ} {es : List Entry} {name : String} (e : Entry)
      → Selected root es name
      → Selected root (e ∷ es) name
  Selected-cons e s = record {
    entry = s.entry;
    owned = Memᴰ.tail s.owned;
    named = s.named;
    passes = s.passes;
  }

  selected_names_sound :
      (root : Option ℕ) (es : List Entry) (name : String)
      → contains name (selected_names jp root es) ≡ true
      → Selected root es name
  unfolding selected_names contains
  selected_names_sound root [] name h = cc
  selected_names_sound root (e ∷ es) name h =
      elim (Bool-cases (selected jp root e.operation_node)) [
        | inr out ↦ Selected-cons e (selected_names_sound root es name (rw out at h))
        | inl pass ↦ elim (Bool-cases (e.prefixed_name == name)) [
          | inl same ↦ record {
            entry = e;
            owned = Memᴰ.head refl;
            named = (eq_iff e.prefixed_name name).0 same;
            passes = pass;
          }
          | inr other ↦ Selected-cons e (selected_names_sound root es name (rw (pass, other) at h))
        ]
      ]

  selected_names_complete :
      (root : Option ℕ) (es : List Entry) (name : String) (e : Entry)
      → Memᴰ e es
      → e.prefixed_name ≡ name
      → selected jp root e.operation_node ≡ true
      → contains name (selected_names jp root es) ≡ true
  unfolding selected_names contains
  selected_names_complete root [] name e m named pass = elim m [ ]
  selected_names_complete root (x ∷ es) name e (Memᴰ.head here) named pass =
      subst (λ y. contains name (selected_names jp root (y ∷ es)) ≡ true) here
        (ground (arith, eq_iff e.prefixed_name name))
  selected_names_complete root (x ∷ es) name e (Memᴰ.tail later) named pass =
      ground (arith, selected_names_complete root es name e later named pass)

module _ (jp : Option JsonPath) (listed : List String) where
  Shown-cons :
      {vus : List ValidatedUpstream} {name : String} (vu : ValidatedUpstream)
      → Shown jp listed vus name
      → Shown jp listed (vu ∷ vus) name
  Shown-cons vu s = record {
    source = s.source;
    given = Memᴰ.tail s.given;
    in_group = s.in_group;
    entry = s.entry;
    owned = s.owned;
    named = s.named;
    passes = s.passes;
  }

  member_names_sound :
      (vus : List ValidatedUpstream) (name : String)
      → contains name (member_names jp listed vus) ≡ true
      → Shown jp listed vus name
  unfolding member_names
  member_names_sound [] name h = absurd (unfold contains in cc)
  member_names_sound (vu ∷ vus) name h = elim (Bool-cases (contains vu.name listed)) [
    | inr out ↦ Shown-cons vu (member_names_sound vus name (rw out at h))
    | inl in_group ↦
        let own = selected_names jp vu.spec_root vu.entries in
        elim (Bool-cases (contains name own)) [
          | inl mine ↦
              let s = selected_names_sound jp vu.spec_root vu.entries name mine in
              record {
                source = vu;
                given = Memᴰ.head refl;
                in_group = in_group;
                entry = s.entry;
                owned = s.owned;
                named = s.named;
                passes = s.passes;
              }
          | inr other ↦ Shown-cons vu (
              member_names_sound vus name (
                rw other at (
                  sym (contains-append name own (member_names jp listed vus))
                  ∙ (rw in_group at h))))
        ]
  ]

  member_names_complete :
      (vus : List ValidatedUpstream) (name : String) (source : ValidatedUpstream)
      → Memᴰ source vus
      → contains source.name listed ≡ true
      → contains name (selected_names jp source.spec_root source.entries) ≡ true
      → contains name (member_names jp listed vus) ≡ true
  unfolding member_names
  member_names_complete [] name source m g h = elim m [ ]
  member_names_complete (vu ∷ vus) name source (Memᴰ.head here) g h =
      subst (λ y. contains name (member_names jp listed (y ∷ vus)) ≡ true) here
        (rw g (
          contains-append name (selected_names jp source.spec_root source.entries)
            (member_names jp listed vus)
          ∙ rw h refl))
  member_names_complete (vu ∷ vus) name source (Memᴰ.tail later) g h = ground (
    arith,
    member_names_complete vus name source later g h,
    contains-append name (selected_names jp vu.spec_root vu.entries) (member_names jp listed vus),
  )

  -- A name is in the group's set exactly if some entry puts it there.
  pub member_names_iff :
      (vus : List ValidatedUpstream) (name : String)
      → (contains name (member_names jp listed vus) ≡ true) ↔ Shown jp listed vus name
  member_names_iff vus name = (
    member_names_sound vus name,
    λ s. member_names_complete vus name s.source s.given s.in_group (
        selected_names_complete jp s.source.spec_root s.source.entries name s.entry s.owned s.named
          s.passes),
  )
