-- ===== src/Quota/Service.antt =====
-- internal/service/service.go: the operations of QuotaService that read the tables and call the
-- workspace service. A call that fails is `none`; the plan's storage quota is the number of bytes
-- under max_storage_bytes, if the plan has one. The account cache is not modelled: `accounts` is
-- what enrichedAccount resolves for an account id.
use dyson_fs.Base.{
  Bool, List, Option, Result, Text, [], err, if◌then◌else◌, is_blank, leb, ltb, negsuc, none, not,
  ok, pos, some, sub_ℕ, suc, trim_space, true, zero, ℕ, ℤ, ◌*◌, ◌++◌, ◌+◌, ◌-◌, ◌/◌, ◌||◌, ◌∷◌,
}
use dyson_fs.Quota.{
  UsageRow, quota_unit_bytes, Profile, LevelingConfig, Multiplier, Billing, Stats, leveling_quota,
  perk_quota, billable_units, billing_multiplier, sum_billable_usage, WorkspaceScope, everything,
  personal, scan_usage_rows, scan_workspace_rows,
}

pub record Workspace : Type 0 where
  pub workspace_id : Text
  pub owner_account : Text
  pub is_individual : Bool

pub data IndividualReply : Type 0 where
  individual_missing : IndividualReply
  individual_failed : IndividualReply
  individual_found : Workspace → IndividualReply

pub record WorkspaceClient : Type 0 where
  pub get_workspace : Text → Option Workspace
  pub is_member : Text → Text → Option Bool
  pub plan_quota : Text → Option (Option ℤ)
  pub individual_workspace : Text → IndividualReply

pub record QuotaService : Type 0 where
  pub rows : List UsageRow
  pub billing : List Billing
  pub leveling : LevelingConfig
  pub workspace_client : Option WorkspaceClient
  pub shared_usage : Option (Text → Option ℕ)
  pub accounts : Text → Option Profile
  pub is_uuid : Text → Bool

pub data QuotaError : Type 0 where
  unavailable : QuotaError
  not_configured : QuotaError
  invalid_id : QuotaError
  not_member : QuotaError
  no_plan_quota : QuotaError
  quota_exceeded : QuotaError

unfoldable pub workspace_pool_stats : QuotaService → Text → Stats
workspace_pool_stats s workspace =
    sum_billable_usage s.billing (scan_workspace_rows s.rows workspace [])

unfoldable pub scoped_usage_stats : QuotaService → Text → WorkspaceScope → Stats
scoped_usage_stats s account scope =
    sum_billable_usage s.billing (scan_usage_rows s.rows account scope none)

-- The rows of accountPoolStats. A failed lookup is logged and adds no rows, like a missing workspace.
unfoldable pub account_pool_rows : QuotaService → Text → List UsageRow
account_pool_rows s account =
    let own = scan_usage_rows s.rows account everything none in
    elim s.workspace_client [
      | none ↦ own
      | some client ↦ elim (client.individual_workspace account) [
        | individual_missing ↦ own
        | individual_failed ↦ own
        | individual_found w ↦
            if is_blank w.workspace_id
            then own
            else own ++ scan_workspace_rows s.rows w.workspace_id account
      ]
    ]

unfoldable pub account_pool_stats : QuotaService → Text → Stats
account_pool_stats s account = sum_billable_usage s.billing (account_pool_rows s account)

-- storageBytesFromPlanQuota
unfoldable pub storage_bytes : Option ℤ → Option ℕ
storage_bytes none = none
storage_bytes (some (pos zero)) = none
storage_bytes (some (pos (suc n))) = some (suc n)
storage_bytes (some (negsuc n)) = none

-- The bytes that Valve reports for a workspace, if it answers with a quota.
unfoldable pub valve_bytes : WorkspaceClient → Text → Option ℕ
valve_bytes client id = elim (client.plan_quota id) [
  | none ↦ none
  | some quota ↦ storage_bytes quota
]

unfoldable pub local_quota : QuotaService → Profile → ℕ
local_quota s profile = leveling_quota s.leveling profile + perk_quota profile

-- TotalQuota of getSummaryForAccount, in units.
unfoldable pub total_quota : QuotaService → Text → Profile → ℕ
total_quota s account profile = elim s.workspace_client [
  | none ↦ local_quota s profile
  | some client ↦ elim (client.individual_workspace account) [
    | individual_missing ↦ local_quota s profile
    | individual_failed ↦ local_quota s profile
    | individual_found w ↦ elim (valve_bytes client w.workspace_id) [
      | none ↦ local_quota s profile
      | some bytes ↦ bytes / quota_unit_bytes
    ]
  ]
]

-- CheckUploadQuota for a size that is not negative; `none` is the nil error.
unfoldable pub check_upload_quota : QuotaService → Text → ℕ → Option Multiplier → Option QuotaError
check_upload_quota s account size multiplier = elim (s.accounts account) [
  | none ↦ some unavailable
  | some profile ↦
      let used = (account_pool_stats s account).used_units in
      let units = billable_units (billing_multiplier multiplier) size in
      if leb (used + units) (total_quota s account profile) then none else some quota_exceeded
]

unfoldable pub owner_of : Workspace → Text → Text
owner_of w account =
    if is_blank w.owner_account then trim_space account else trim_space w.owner_account

unfoldable pub individual_workspace_bytes : QuotaService → Workspace → Text → ℕ
individual_workspace_bytes s w account =
    (scoped_usage_stats s (owner_of w account) personal).used_bytes
    + (workspace_pool_stats s w.workspace_id).used_bytes

-- ChargedWorkspaceBytes
unfoldable pub charged_workspace_bytes : QuotaService → Text → Result QuotaError ℕ
charged_workspace_bytes s raw =
    let id = trim_space raw in
    let own_files = (workspace_pool_stats s id).used_bytes in
    if not (s.is_uuid id) then err invalid_id else elim s.workspace_client [
      | none ↦ ok own_files
      | some client ↦ elim (client.get_workspace id) [
        | none ↦ ok own_files
        | some w ↦
            if not w.is_individual || is_blank w.owner_account
            then ok own_files
            else ok (individual_workspace_bytes s w [])
      ]
    ]

pub record WorkspaceUsage : Type 0 where
  pub used : ℕ
  pub total : ℕ
  pub remaining : ℕ

unfoldable pub usage_summary : ℕ → ℕ → WorkspaceUsage
usage_summary used total = record { used = used; total = total; remaining = total - used }

-- The branch of workspaceUsage for individual workspaces: the limit and what is charged.
unfoldable pub individual_usage :
    QuotaService → WorkspaceClient → Workspace → Text → Text → Result QuotaError WorkspaceUsage
individual_usage s client w id account =
    let charged = individual_workspace_bytes s w account in
    elim (valve_bytes client id) [
      | some total ↦ ok (usage_summary charged total)
      | none ↦ elim (s.accounts account) [
        | none ↦ err unavailable
        | some profile ↦ ok (usage_summary charged (local_quota s profile * quota_unit_bytes))
      ]
    ]

unfoldable pub sum_sizes : List UsageRow → ℕ
sum_sizes [] = 0
sum_sizes (row ∷ rows) = row.row_size + sum_sizes rows

-- The branch for organization workspaces.
unfoldable pub plan_usage : QuotaService → WorkspaceClient → Text → Result QuotaError WorkspaceUsage
plan_usage s client id = elim (client.plan_quota id) [
  | none ↦ err unavailable
  | some quota ↦ elim (storage_bytes quota) [
    | none ↦ err no_plan_quota
    | some total ↦ elim s.shared_usage [
      | none ↦ ok (usage_summary (sum_sizes (scan_workspace_rows s.rows id [])) total)
      | some shared ↦ elim (shared id) [
        | none ↦ err unavailable
        | some charged ↦ ok (usage_summary charged total)
      ]
    ]
  ]
]

-- The part of workspaceUsage behind the validation of the two ids.
unfoldable pub member_usage :
    QuotaService → WorkspaceClient → Text → Text → Result QuotaError WorkspaceUsage
member_usage s client id account = elim (client.get_workspace id) [
  | none ↦ err unavailable
  | some w ↦ elim (client.is_member id account) [
    | none ↦ err unavailable
    | some member ↦
        if not member
        then err not_member
        else if w.is_individual
        then individual_usage s client w id account
        else plan_usage s client id
  ]
]

unfoldable pub workspace_usage : QuotaService → Text → Text → Result QuotaError WorkspaceUsage
workspace_usage s raw_id raw_account = elim s.workspace_client [
  | none ↦ err not_configured
  | some client ↦
      let id = trim_space raw_id in
      let account = trim_space raw_account in
      if not (s.is_uuid id)
      then err invalid_id
      else if not (s.is_uuid account)
      then err invalid_id
      else member_usage s client id account
]

-- n > z, for a natural and a signed number.
unfoldable pub above : ℕ → ℤ → Bool
above n (pos m) = ltb m n
above n (negsuc m) = true

unfoldable pub is_over : ℤ → WorkspaceUsage → Bool
is_over (pos size) u = above u.used (sub_ℕ u.total size)
is_over (negsuc size) u = true

unfoldable pub check_workspace_upload_quota : QuotaService → Text → Text → ℤ → Option QuotaError
check_workspace_upload_quota s id account size = elim (workspace_usage s id account) [
  | err e ↦ some e
  | ok u ↦ if is_over size u then some quota_exceeded else none
]
