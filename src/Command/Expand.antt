-- ===== src/Command/Expand.antt =====
-- pkg/upstream/command/command.go, expandBraced: ${VAR} references in a value.
pub mod Meaning
pub mod Rounds
pub mod Ends
use go_auto_mcp.Prelude.{
  ℕ, zero, suc, ◌+◌, ◌<◌, ◌≡◌, ◌≢◌, refl, sym, ap, ◌∙◌, ◌↔◌, Bool, true, false, not, Option, none,
  some, List, [], ◌∷◌, ◌++◌, Text, nat_eq, text_eq, ◌==◌, if◌then◌else◌, arith, Bool-cases,
  Option-cases, inl, inr, length, length-append, All, contains,
}
use mathlib.Core.Path.{subst}
use mathlib.Core.List.{append_assoc, append-nil}

pub data ExpandError : Type 0 where
  unbraced : ℕ → ExpandError
  unclosed empty_name : ExpandError
  not_set : Text → ExpandError

pub data Expanded : Type 0 where
  done : Text → Expanded
  failed : ExpandError → Expanded
  out_of_fuel : Expanded

abbrev pub in_name : ℕ → Option (Text × Text) → Option (Text × Text)
in_name c none = none
in_name c (some (name, after)) = some (c ∷ name, after)

-- strings.IndexByte: what stands before and after the first closing brace
unfoldable pub cut_brace : Text → Option (Text × Text)
cut_brace [] = none
cut_brace (c ∷ s) = let rest = cut_brace s in if c == b'}' then some ([], s) else in_name c rest

-- what one round of the loop does: it returns, or goes on with i, the result and the rest
pub data Round : Type 0 where
  stop : ExpandError → Round
  next : ℕ → Text → Text → Round

abbrev pub go_on : Round → (ℕ → Text → Text → Expanded) → Expanded
go_on (stop e) loop = failed e
go_on (next i out s) loop = loop i out s

abbrev pub look_up : ℕ → Text → Text → Text → Option Text → Round
look_up i out name after none = stop (not_set name)
look_up i out name after (some v) = next (i + 2 + length name + 1) (out ++ v) after

module _ (lookup_env : Text → Option Text) where
  abbrev pub variable : ℕ → Text → Option (Text × Text) → Round
  variable i out none = stop unclosed
  variable i out (some (name, after)) =
      if name == [] then stop empty_name else look_up i out name after (lookup_env name)

  -- behind a dollar sign
  abbrev pub dollar : ℕ → Text → Text → Round
  dollar i out [] = next (i + 1) (out ++ (b'$' ∷ [])) []
  dollar i out (d ∷ rest) = if d == b'{' then variable i out (cut_brace rest) else stop (unbraced i)

  unfoldable pub round : ℕ → Text → ℕ → Text → Round
  unfolding cut_brace
  round i out c s = if c == b'$' then dollar i out s else next (i + 1) (out ++ (c ∷ [])) s

  unfoldable pub expand_loop : ℕ → ℕ → Text → Text → Expanded
  unfolding round
  expand_loop zero i out s = out_of_fuel
  expand_loop (suc f) i out [] = done out
  expand_loop (suc f) i out (c ∷ s) = go_on (round i out c s) (expand_loop f)

  -- expandBraced, with its fast path
  unfoldable pub expand_braced : Text → Expanded
  unfolding expand_loop
  expand_braced value =
      if contains b'$' value then expand_loop (length value + 1) 0 [] value else done value
