-- ===== src/Quota/Tests.antt =====
-- Quotas at concrete inputs: an individual workspace of the account ann with the member bob.
use dyson_fs.Base.{
  List, [], arith, codes, find_first, if◌then◌else◌, is_blank, keep, none, ok, pos, refl, some,
  text_discrete, trim_space, true, ℕ, ℕ_discrete, ◌*◌, ◌==◌, ◌∷◌, ◌≡◌, ◌≤◌, nat_eq, text_equality,
}
use dyson_fs.Quota.{
  UsageRow, sum_billable_usage, quota_unit_bytes, Profile, LevelingConfig, positive_or, level_of,
  scale, leveling_quota, perk_table, perk_quota, billable_units, billing_multiplier,
  pool_multiplier, in_workspace, in_scope, in_pool, scan_usage_rows, scan_workspace_rows,
}
use dyson_fs.Quota.Level.{IsOrdered}
use dyson_fs.Quota.Service.{
  QuotaService, Workspace, individual_found, WorkspaceClient, workspace_pool_stats,
  scoped_usage_stats, account_pool_rows, account_pool_stats, storage_bytes, valve_bytes,
  local_quota, total_quota, check_upload_quota, owner_of, individual_workspace_bytes,
  charged_workspace_bytes, usage_summary, individual_usage, sum_sizes, plan_usage, member_usage,
  workspace_usage, above, is_over, check_workspace_upload_quota,
}
use dyson_fs.Quota.Usage.{elsewhere}
use dyson_fs.Quota.Check.{check_upload_quota-admits, charged_workspace_bytes-workspace_usage}

program : Unit {0}
unfolding positive_or level_of scale leveling_quota perk_quota perk_table billable_units
    billing_multiplier pool_multiplier sum_billable_usage in_workspace in_scope in_pool
    scan_usage_rows scan_workspace_rows keep find_first text_discrete ℕ_discrete trim_space is_blank
    workspace_pool_stats scoped_usage_stats account_pool_rows account_pool_stats storage_bytes
    valve_bytes local_quota total_quota check_upload_quota owner_of individual_workspace_bytes
    charged_workspace_bytes usage_summary individual_usage sum_sizes plan_usage member_usage
    workspace_usage above is_over check_workspace_upload_quota elsewhere
program = tt

abbrev defaults : LevelingConfig
defaults = record { level1 = pos 0; level10 = pos 0; level60 = pos 0; level120 = pos 0 }

abbrev at_level : ℕ → Profile
at_level n = record { level = some (pos n); subscription = none; perk_level = pos 0 }

level_5 : leveling_quota defaults (at_level 5) ≡ 512
unfolding program
level_5 = refl

level_70 : leveling_quota defaults (at_level 70) ≡ 7168
unfolding program
level_70 = refl

defaults-IsOrdered : IsOrdered defaults
unfolding program
defaults-IsOrdered = record { first = omega arith; second = omega arith; third = omega arith }

abbrev home : Workspace
home = record { workspace_id = codes "w"; owner_account = codes "ann"; is_individual = true }

-- Valve gives the workspace a quota of 100 bytes.
abbrev valve : WorkspaceClient
valve = record {
  get_workspace = λ id. some home;
  is_member = λ id account. some true;
  plan_quota = λ id. some (some (pos 100));
  individual_workspace = λ account. individual_found home;
}

abbrev silent_valve : WorkspaceClient
silent_valve = record valve { plan_quota = λ id. none }

abbrev usage : List UsageRow
usage =
    record { row_owner = codes "ann"; row_workspace = none; row_pool = none; row_size = 10 }
    ∷ record {
      row_owner = codes "bob";
      row_workspace = some (codes "w");
      row_pool = none;
      row_size = 20;
    }
    ∷ record {
      row_owner = codes "ann";
      row_workspace = some (codes "x");
      row_pool = none;
      row_size = 30;
    }
    ∷ []

abbrev service : QuotaService
service = record {
  rows = usage;
  billing = [];
  leveling = defaults;
  workspace_client = some valve;
  shared_usage = none;
  accounts = λ id. if id == codes "ann" then some (at_level 70) else some (at_level 5);
  is_uuid = λ id. true;
}

home_usage : workspace_usage service (codes "w") (codes "bob") ≡ ok (usage_summary 30 100)
unfolding program
home_usage = refl

-- Without Valve the limit of ann's workspace is computed from the level of the member who asks.
fallback_of_member :
    workspace_usage
      (record service { workspace_client = some silent_valve })
      (codes "w")
      (codes "bob")
    ≡ ok (usage_summary 30 (512 * quota_unit_bytes))
unfolding program
fallback_of_member = refl

fallback_of_owner :
    workspace_usage
      (record service { workspace_client = some silent_valve })
      (codes "w")
      (codes "ann")
    ≡ ok (usage_summary 30 (7168 * quota_unit_bytes))
unfolding program
fallback_of_owner = refl

charged_workspace_bytes-workspace_usage_example :
    charged_workspace_bytes service (codes "w") ≡ ok (usage_summary 30 100).used
unfolding program
charged_workspace_bytes-workspace_usage_example =
    charged_workspace_bytes-workspace_usage service valve (codes "w") (codes "bob") home
      (usage_summary 30 100) refl refl refl refl refl refl

abbrev upload : UsageRow
upload = record {
  row_owner = codes "ann";
  row_workspace = none;
  row_pool = none;
  row_size = 5000000;
}

abbrev local_service : QuotaService
local_service = record service { workspace_client = none }

check_upload_quota-admits_example :
    (account_pool_stats (record local_service { rows = upload ∷ usage }) (codes "ann")).used_units
    ≤ total_quota local_service (codes "ann") (at_level 70)
unfolding program
check_upload_quota-admits_example =
    check_upload_quota-admits local_service (codes "ann") (at_level 70) none upload
      (λ h. ground arith) refl refl refl refl
