-- ===== src/Modules.antt =====
-- internal/module: the compiled modules, which of them a configuration selects, and which provider
-- serves a port. The factories are a list in the order of registration. A Go map is a list too:
-- its iteration order is arbitrary, so a loop over it is run in the order of that list.
pub mod Selection
pub mod Cascade
pub mod Order
pub mod Resolve
pub mod Ports
mod Tests
use dyson_fs.Base.{
  Bool, List, Option, Result, Text, [], contains, err, false, find_first, if◌then◌else◌, is_blank,
  is_some, keep, length, ltb, map, none, not, ok, some, suc, trim_space, zero, ℕ, ◌++◌, ◌==◌, ◌||◌,
  ◌∷◌, nat_eq, text_equality,
}

pub data Kind : Type 0 where
  feature : Kind
  integration : Kind

pub record Factory : Type 0 where
  pub factory_id : Text
  pub kind : Kind
  pub default_enabled : Bool
  pub required : Bool
  pub requires : List Text
  pub capabilities : List Text

pub data ResolveError : Type 0 where
  empty_id : ResolveError
  duplicate_id : Text → ResolveError
  unknown_module : Text → ResolveError
  required_disabled : Text → ResolveError
  missing_dependency : Text → Text → ResolveError
  dependency_cycle : List Text → ResolveError

unfoldable pub by_id : List Factory → Text → Option Factory
by_id fs id = find_first (λ f. f.factory_id == id) fs

unfoldable pub requires_of : List Factory → Text → List Text
requires_of fs id = elim (by_id fs id) [ none ↦ [] | some f ↦ f.requires ]

unfoldable pub is_required : List Factory → Text → Bool
is_required fs id = elim (by_id fs id) [ none ↦ false | some f ↦ f.required ]

-- The loop that fills the map: an empty or a repeated id is refused.
unfoldable pub check_ids : List Factory → List Text → Option ResolveError
check_ids [] seen = none
check_ids (f ∷ fs) seen =
    let rest = check_ids fs (f.factory_id ∷ seen) in
    if is_blank f.factory_id
    then some empty_id
    else if contains seen f.factory_id
    then some (duplicate_id f.factory_id)
    else rest

unfoldable pub normalize : List Factory → List Text → List Text → Result ResolveError (List Text)
normalize fs [] seen = ok []
normalize fs (raw ∷ ids) seen =
    let id = trim_space raw in
    let rest = normalize fs ids seen in
    let more = normalize fs ids (id ∷ seen) in
    if id == []
    then rest
    else if not (is_some (by_id fs id))
    then err (unknown_module id)
    else if contains seen id
    then rest
    else elim more [ err e ↦ err e | ok out ↦ ok (id ∷ out) ]

unfoldable pub remove : Text → List Text → List Text
remove id = keep (λ x. not (x == id))

-- What is selected before anything is disabled, in the order of the factories.
unfoldable pub seeded : List Text → Factory → Bool
seeded enabled f =
    f.required
    || (if ltb 0 (length enabled) then contains enabled f.factory_id else f.default_enabled)

unfoldable pub ids_of : List Factory → List Text
ids_of = map (λ f. f.factory_id)

unfoldable pub disable : List Factory → List Text → List Text → Result ResolveError (List Text)
disable fs [] selected = ok selected
disable fs (id ∷ ids) selected =
    let rest = disable fs ids (remove id selected) in
    if is_required fs id then err (required_disabled id) else rest

-- The first dependency that is not selected.
unfoldable pub missing : List Text → List Text → Option Text
missing selected [] = none
missing selected (dep ∷ deps) =
    let rest = missing selected deps in if contains selected dep then rest else some dep

pub record Swept : Type 0 where
  pub left : List Text
  pub dropped : List (Text × Text)

-- One round of the cascade over the ids still to visit. The pairs are the module and the dependency
-- of each warning.
unfoldable pub sweep : List Factory → List Text → List Text → Swept
sweep fs [] selected = record { left = selected; dropped = [] }
sweep fs (id ∷ ids) selected =
    let kept = sweep fs ids selected in
    let less = sweep fs ids (remove id selected) in
    elim (missing selected (requires_of fs id)) [
      | none ↦ kept
      | some dep ↦ record { left = less.left; dropped = (id, dep) ∷ less.dropped }
    ]

-- The rounds, until one of them removes nothing.
unfoldable pub cascade : ℕ → List Factory → List Text → Swept
cascade zero fs selected = record { left = selected; dropped = [] }
cascade (suc fuel) fs selected =
    let round = sweep fs selected selected in
    let rest = cascade fuel fs round.left in
    if length round.dropped == 0
    then round
    else record { left = rest.left; dropped = round.dropped ++ rest.dropped }

-- Resolve up to the ordering of what is selected.
unfoldable pub select : List Factory → List Text → List Text → Result ResolveError Swept
select fs enabled disabled = elim (check_ids fs []) [
  | some e ↦ err e
  | none ↦ elim (normalize fs enabled []) [
    | err e ↦ err e
    | ok on ↦ elim (normalize fs disabled []) [
      | err e ↦ err e
      | ok off ↦ elim (disable fs off (ids_of (keep (seeded on) fs))) [
        | err e ↦ err e
        | ok selected ↦ ok (cascade (suc (length selected)) fs selected)
      ]
    ]
  ]
]

-- Capabilities, before they are sorted.
unfoldable pub capability_names : List Text → List Text → List Text
capability_names seen [] = []
capability_names seen (raw ∷ names) =
    let name = trim_space raw in
    let rest = capability_names seen names in
    let more = capability_names (name ∷ seen) names in
    if (name == []) || contains seen name then rest else name ∷ more
