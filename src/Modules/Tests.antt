-- ===== src/Modules/Tests.antt =====
-- Module selection at concrete inputs: a drive that needs storage, and a gallery that needs the drive.
use dyson_fs.Base.{
  List, Text, [], arith, codes, contains, count_rows, err, false, find_first, if◌then◌else◌,
  insert_text, is_blank, keep, ok, put_row, refl, row_at, sort_texts, text_discrete, text_leb,
  trim_space, true, ℕ, ℕ_discrete, ◌==◌, ◌∷◌, ◌≡◌, ◌≤◌, nat_eq, text_equality,
}
use dyson_fs.Modules.{
  Factory, select, feature, integration, by_id, requires_of, is_required, check_ids, normalize,
  remove, seeded, ids_of, disable, missing, Swept, sweep, cascade, capability_names,
  dependency_cycle,
}
use dyson_fs.Modules.Cascade.{within, satisfied, Sub, cascade-largest}
use dyson_fs.Modules.Order.{
  Resolution, count_of, zero_counts, count_edges, build_edges, ready_ids, children, settle,
  settle_all, advance, run_kahn, waiting, start_kahn, topological_order, factories_of, resolve,
}
use dyson_fs.Modules.Order.Counts.{occurs}
use dyson_fs.Modules.Order.Before.{respects}
use dyson_fs.Modules.Order.Complete.{Ranked}
use dyson_fs.Modules.Resolve.{resolve-respects, resolve_complete}
use dyson_fs.Modules.Ports.{
  Provider, PortRegistry, new_port_registry, providers_of, provide, choose, has_provider,
  is_feature, pick, default_provider, resolve_port,
}

program : Unit {0}
unfolding by_id requires_of is_required check_ids normalize remove seeded ids_of disable missing
    sweep cascade select capability_names contains keep find_first text_discrete ℕ_discrete occurs
    count_rows respects text_leb insert_text sort_texts count_of zero_counts count_edges build_edges
    ready_ids children settle settle_all advance run_kahn waiting start_kahn topological_order
    factories_of resolve trim_space is_blank within satisfied Sub row_at put_row providers_of
    provide choose has_provider is_feature pick default_provider resolve_port new_port_registry
program = tt

abbrev storage : Factory
storage = record {
  factory_id = codes "storage";
  kind = feature;
  default_enabled = true;
  required = false;
  requires = [];
  capabilities = [];
}

abbrev drive : Factory
drive = record {
  factory_id = codes "drive";
  kind = feature;
  default_enabled = true;
  required = true;
  requires = codes "storage" ∷ [];
  capabilities = [];
}

abbrev gallery : Factory
gallery = record {
  factory_id = codes "gallery";
  kind = feature;
  default_enabled = true;
  required = false;
  requires = codes "drive" ∷ [];
  capabilities = [];
}

abbrev compiled : List Factory
compiled = gallery ∷ drive ∷ storage ∷ []

-- A required module is dropped when a module that it needs is disabled.
required_dropped :
    select compiled [] (codes "storage" ∷ [])
    ≡ ok (record {
      left = [];
      dropped = (codes "drive", codes "storage") ∷ (codes "gallery", codes "drive") ∷ [];
    })
unfolding program
required_dropped = refl

cascade-largest_example :
    Sub (codes "storage" ∷ []) (cascade 3 compiled (codes "gallery" ∷ codes "storage" ∷ [])).left
unfolding program
cascade-largest_example =
    cascade-largest 3 compiled (codes "storage" ∷ []) (codes "gallery" ∷ codes "storage" ∷ []) refl
      (λ x h. ground (arith, h))

abbrev all_on : Swept
all_on = record { left = codes "gallery" ∷ codes "drive" ∷ codes "storage" ∷ []; dropped = [] }

abbrev in_order : Resolution
in_order = record {
  factories = storage ∷ drive ∷ gallery ∷ [];
  enabled = all_on.left;
  warnings = [];
}

resolve-respects_example :
    (respects compiled [] (ids_of in_order.factories) ≡ true)
    × ((x : Text) → occurs x (ids_of in_order.factories) ≡ occurs x in_order.enabled)
    × ((x : Text) → occurs x in_order.enabled ≤ 1)
    × (satisfied compiled in_order.enabled in_order.enabled ≡ true)
unfolding program
resolve-respects_example = resolve-respects compiled [] [] in_order refl

abbrev depth : Text → ℕ
depth id = if id == codes "storage" then 0 else if id == codes "drive" then 1 else 2

depth-Ranked : Ranked compiled all_on.left depth
unfolding program
depth-Ranked id dep here there needs = ground (arith, here, there, needs)

resolve_complete_example :
    (res : Resolution) × (resolve compiled [] [] ≡ ok res) × (res.enabled ≡ all_on.left)
unfolding program
resolve_complete_example = resolve_complete compiled [] [] all_on depth refl depth-Ranked

-- Two modules that need each other are refused.
cycle_refused :
    resolve (record storage { requires = codes "drive" ∷ [] } ∷ drive ∷ []) [] []
    ≡ err (dependency_cycle (codes "drive" ∷ codes "storage" ∷ []))
unfolding program
cycle_refused = refl

abbrev local_disk : Provider
local_disk = record { module_id = codes "disk"; provider_kind = integration; impl = 1 }

abbrev object_store : Provider
object_store = record { module_id = codes "s3"; provider_kind = feature; impl = 2 }

abbrev registry : PortRegistry
registry = record {
  providers = (codes "blob", local_disk ∷ object_store ∷ []) ∷ [];
  selection = [];
}

abbrev pinned : PortRegistry
pinned = record registry { selection = (codes "blob", codes "disk") ∷ [] }
