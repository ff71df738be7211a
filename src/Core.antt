-- ===== src/Core.antt =====
-- internal/core/registry.go: the registries of analysis and of derivatives, one entry for a kind of
-- file. The registry and its engine are there; the source skips every call on nil ones.
mod Tests
pub mod Kinds
use dyson_fs.Base.{
  Bool, List, Option, Result, Text, [], codes, contains, err, false, has_prefix, if◌then◌else◌,
  length, ltb, none, ok, put_row, row_at, some, split_two, to_lower, trim_space, ◌==◌, ◌∷◌, nat_eq,
  text_equality,
}

unfoldable pub kind_of : Text → Text
kind_of mime =
    let normalized = to_lower (trim_space (split_two b';' mime).0) in
    if has_prefix normalized (codes "image/")
    then codes "image"
    else if has_prefix normalized (codes "video/")
    then codes "video"
    else if has_prefix normalized (codes "audio/")
    then codes "audio"
    else []

-- The kinds that are enabled; a kind may stand in the list twice, which is one entry of the map.
pub record AnalysisRegistry : Type 0 where
  pub kinds : List Text

unfoldable pub new_analysis_registry : AnalysisRegistry
new_analysis_registry = record { kinds = [] }

unfoldable pub enable : Text → AnalysisRegistry → AnalysisRegistry
enable raw r =
    let kind = to_lower (trim_space raw) in
    if kind == [] then r else record { kinds = kind ∷ r.kinds }

unfoldable pub enabled : AnalysisRegistry → Text → Bool
enabled r kind = contains r.kinds kind

unfoldable pub any_kind : AnalysisRegistry → Bool
any_kind r = ltb 0 (length r.kinds)

unfoldable pub handles : AnalysisRegistry → Text → Bool
handles r mime = let kind = kind_of mime in if kind == [] then false else enabled r kind

-- AnalyzeSource, with the engine as a function that may fail; `ok none` is the nil analysis.
unfoldable pub analyze_source {ℓ κ} :
    {E : Type ℓ} {A : Type κ}
    → (Text → Text → Result E A)
    → AnalysisRegistry
    → Text
    → Text
    → Result E (Option A)
analyze_source engine r path mime =
    if handles r mime
    then elim (engine path mime) [ ok a ↦ ok (some a) | err e ↦ err e ]
    else ok none

unfoldable pub needs_server_reanalysis : AnalysisRegistry → Text → Bool
needs_server_reanalysis r mime = handles r mime

-- ScheduleReanalysis; `none` is the skipped call.
unfoldable pub schedule_reanalysis {ℓ} :
    {A : Type ℓ} → (Text → A) → AnalysisRegistry → Text → Option A
schedule_reanalysis engine r file_id = if any_kind r then some (engine file_id) else none

-- The handlers by their kind.
unfoldable pub register {ℓ} : {F : Type ℓ} → Text → F → List (Text × F) → List (Text × F)
register raw fn handlers =
    let kind = to_lower (trim_space raw) in
    if kind == [] then handlers else put_row kind fn handlers

unfoldable pub handler {ℓ} : {F : Type ℓ} → List (Text × F) → Text → Option F
handler handlers mime = let kind = kind_of mime in if kind == [] then none else row_at kind handlers
