-- ===== src/Modules/Ports.antt =====
-- internal/module/ports.go: the registry of providers. `impl` is the implementation behind a
-- provider; an error names the port and, where there are several, the modules.
use dyson_fs.Base.{
  Bool, List, Nil-cases, Result, Text, [], ap, arith, err, false, find_first, find_first_sound,
  if◌then◌else◌, inl, inr, keep, length, ltb, none, not, ok, put_row, row_at, some, subst, true, ℕ,
  ◌++◌, ◌==◌, ◌∷◌, ◌≡◌, ◌≢◌, nat_eq, text_equality,
}
use dyson_fs.Modules.{Kind, feature, integration}

pub record Provider : Type 0 where
  pub module_id : Text
  pub provider_kind : Kind
  pub impl : ℕ

-- The two maps: the providers of a port in the order they were published, and the chosen modules.
pub record PortRegistry : Type 0 where
  pub providers : List (Text × List Provider)
  pub selection : List (Text × Text)

pub data PortError : Type 0 where
  no_provider : PortError
  not_provided : Text → PortError
  several_features : PortError
  several_integrations : PortError

unfoldable pub new_port_registry : PortRegistry
new_port_registry = record { providers = []; selection = [] }

unfoldable pub providers_of : PortRegistry → Text → List Provider
providers_of r port = elim (row_at port r.providers) [ none ↦ [] | some ps ↦ ps ]

unfoldable pub provide : Text → Provider → PortRegistry → PortRegistry
provide port p r = record r { providers = put_row port (providers_of r port ++ p ∷ []) r.providers }

unfoldable pub choose : List (Text × Text) → PortRegistry → PortRegistry
choose [] r = r
choose (row ∷ rows) r = choose rows (record r { selection = put_row row.0 row.1 r.selection })

unfoldable pub has_provider : PortRegistry → Text → Bool
has_provider r port = ltb 0 (length (providers_of r port))

unfoldable pub is_feature : Provider → Bool
is_feature p = elim p.provider_kind [ feature ↦ true | integration ↦ false ]

-- The switch on how many providers of each kind there are.
unfoldable pub pick : List Provider → List Provider → Result PortError Provider
pick (p ∷ []) integrations = ok p
pick (p ∷ q ∷ features) integrations = err several_features
pick [] (p ∷ []) = ok p
pick [] (p ∷ q ∷ integrations) = err several_integrations
pick [] [] = err no_provider

unfoldable pub default_provider : List Provider → Result PortError Provider
default_provider ps = pick (keep is_feature ps) (keep (λ p. not (is_feature p)) ps)

unfoldable pub resolve_port : PortRegistry → Text → Result PortError Provider
resolve_port r port =
    let ps = providers_of r port in
    if length ps == 0
    then err no_provider
    else let chosen : Text = elim (row_at port r.selection) [ none ↦ [] | some id ↦ id ] in
      if chosen == []
      then default_provider ps
      else elim (find_first (λ p. p.module_id == chosen) ps) [
        | none ↦ err (not_provided chosen)
        | some p ↦ ok p
      ]

none-some : (chosen : Text) (p : Provider) → find_first (λ q. q.module_id == chosen) [] ≡ some p → ⊥
unfolding find_first
none-some chosen p h = absurd (ground arith)

-- For a port with a configured module, only a provider of that module is ever resolved, and it is
-- found if the module has published one.
pub resolve_port-chosen :
    (r : PortRegistry) (port chosen : Text) (p : Provider)
    → row_at port r.selection ≡ some chosen
    → chosen ≢ []
    → find_first (λ q. q.module_id == chosen) (providers_of r port) ≡ some p
    → (resolve_port r port ≡ ok p) × (p.module_id ≡ chosen)
unfolding resolve_port
resolve_port-chosen r port chosen p set named found =
    let passed = find_first_sound (λ q. q.module_id == chosen) (providers_of r port) found in
    elim (Nil-cases (providers_of r port)) [
      | inl empty ↦ absurd (
          none-some chosen p
            (subst (λ l. find_first (λ q. q.module_id == chosen) l ≡ some p) empty found))
      | inr (q, l, full) ↦ ground (arith, passed, ap length full)
    ]
