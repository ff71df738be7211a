-- ===== src/Quota/Check.antt =====
-- The checks before an upload, and what they keep true once the file is there.
use dyson_fs.Base.{
  List, Option, Text, [], ap, arith, false, is_blank, keep, negsuc, none, ok, pos, refl, some,
  subst, sym, trim_space, true, ℕ, ◌+◌, ◌↔◌, ◌∷◌, ◌≡◌, ◌≢◌, ◌≤◌,
}
use dyson_fs.Quota.{
  UsageRow, Profile, Multiplier, billing_multiplier, pool_multiplier, Billing, billable_units,
  sum_billable_usage, in_scope, in_pool, scan_usage_rows, scan_workspace_rows,
}
use dyson_fs.Quota.Service.{
  Workspace, WorkspaceClient, QuotaService, account_pool_stats, total_quota, check_upload_quota,
  charged_workspace_bytes, WorkspaceUsage, individual_usage, plan_usage, member_usage,
  workspace_usage, above, is_over, check_workspace_upload_quota, quota_exceeded,
  workspace_pool_stats, account_pool_rows, owner_of, individual_workspace_bytes, sum_sizes,
  usage_summary,
}
use dyson_fs.Quota.Usage.{sum_sizes-bytes}

-- Where the usage of a workspace could be determined, the check lets an upload of n bytes into it
-- exactly if the used bytes and the n new ones are within the total, and never passes for a
-- negative size.
pub check_workspace_upload_quota-room :
    (s : QuotaService) (id account : Text) (n : ℕ) (u : WorkspaceUsage)
    → workspace_usage s id account ≡ ok u
    → ((check_workspace_upload_quota s id account (pos n) ≡ none) ↔ (u.used + n ≤ u.total))
      × (check_workspace_upload_quota s id account (negsuc n) ≡ some quota_exceeded)
unfolding check_workspace_upload_quota is_over above
check_workspace_upload_quota-room s id account n u h =
    rw (check_workspace_upload_quota, h, is_over) (ground arith)

-- A workspace's usage is only told to members: where it is returned, the workspace service has
-- confirmed the member role of the account for that workspace.
pub workspace_usage-member :
    (s : QuotaService) (client : WorkspaceClient) (id account : Text) (u : WorkspaceUsage)
    → s.workspace_client ≡ some client
    → workspace_usage s id account ≡ ok u
    → client.is_member (trim_space id) (trim_space account) ≡ some true
unfolding workspace_usage member_usage
workspace_usage-member s client id account u there h = ground arith

owner_bytes :
    (s : QuotaService) (w : Workspace) (account : Text)
    → is_blank w.owner_account ≡ false
    → individual_workspace_bytes s w account ≡ individual_workspace_bytes s w []
unfolding individual_workspace_bytes owner_of
owner_bytes s w account h = rw (individual_workspace_bytes, owner_of, h) refl

pool_bytes :
    (s : QuotaService) (id : Text)
    → (workspace_pool_stats s id).used_bytes ≡ sum_sizes (scan_workspace_rows s.rows id [])
unfolding workspace_pool_stats
pool_bytes s id = sum_sizes-bytes s.billing (scan_workspace_rows s.rows id [])

plan_usage-used :
    (s : QuotaService) (client : WorkspaceClient) (id : Text) (u : WorkspaceUsage)
    → s.shared_usage ≡ none
    → plan_usage s client id ≡ ok u
    → u.used ≡ sum_sizes (scan_workspace_rows s.rows id [])
unfolding plan_usage usage_summary
plan_usage-used s client id u alone h = ground arith

individual_usage-used :
    (s : QuotaService) (client : WorkspaceClient) (w : Workspace) (id account : Text)
    (u : WorkspaceUsage)
    → individual_usage s client w id account ≡ ok u
    → u.used ≡ individual_workspace_bytes s w account
unfolding individual_usage usage_summary
individual_usage-used s client w id account u h = ground arith

-- Without a shared usage service, and for a workspace that the workspace service finds under its
-- own id and that names an owner, the figure that is published as charged is the one that the
-- upload checks use: what workspaceUsage reports as used, where it returns a usage.
pub charged_workspace_bytes-workspace_usage :
    (s : QuotaService) (client : WorkspaceClient) (id account : Text) (w : Workspace)
    (u : WorkspaceUsage)
    → s.workspace_client ≡ some client
    → s.shared_usage ≡ none
    → client.get_workspace (trim_space id) ≡ some w
    → w.workspace_id ≡ trim_space id
    → is_blank w.owner_account ≡ false
    → workspace_usage s id account ≡ ok u
    → charged_workspace_bytes s id ≡ ok u.used
unfolding workspace_usage member_usage charged_workspace_bytes
charged_workspace_bytes-workspace_usage s client id account w u there alone found named owned h =
    ground (
      arith,
      owner_bytes s w (trim_space account) owned,
      pool_bytes s (trim_space id),
      plan_usage-used s client (trim_space id) u alone,
      individual_usage-used s client w (trim_space id) (trim_space account) u,
    )

account_pool_rows-new :
    (s : QuotaService) (account : Text) (row : UsageRow)
    → account ≢ []
    → row.row_owner ≡ account
    → account_pool_rows (record s { rows = row ∷ s.rows }) account
      ≡ row ∷ account_pool_rows s account
unfolding account_pool_rows scan_usage_rows scan_workspace_rows keep in_scope in_pool
account_pool_rows-new s account row h owned = ground (arith, owned, h)

sum_billable_usage-cons :
    (pools : List Billing) (row : UsageRow) (rows : List UsageRow)
    → (sum_billable_usage pools (row ∷ rows)).used_units
      ≤ (sum_billable_usage pools rows).used_units
        + billable_units (pool_multiplier pools row.row_pool) row.row_size
unfolding sum_billable_usage
sum_billable_usage-cons pools row rows = ground arith

check_upload_quota-used :
    (s : QuotaService) (account : Text) (profile : Profile) (multiplier : Option Multiplier)
    (size : ℕ)
    → s.accounts account ≡ some profile
    → check_upload_quota s account size multiplier ≡ none
    → (sum_billable_usage s.billing (account_pool_rows s account)).used_units
        + billable_units (billing_multiplier multiplier) size
      ≤ total_quota s account profile
unfolding check_upload_quota account_pool_stats
check_upload_quota-used s account profile multiplier size known h = ground arith

-- For an account with an id and a profile, once an upload that CheckUploadQuota admits is recorded
-- as a file of the account, in a pool with the multiplier of the check, the account's pool is
-- still within its total quota.
pub check_upload_quota-admits :
    (s : QuotaService) (account : Text) (profile : Profile) (multiplier : Option Multiplier)
    (row : UsageRow)
    → account ≢ []
    → s.accounts account ≡ some profile
    → row.row_owner ≡ account
    → pool_multiplier s.billing row.row_pool ≡ billing_multiplier multiplier
    → check_upload_quota s account row.row_size multiplier ≡ none
    → (account_pool_stats (record s { rows = row ∷ s.rows }) account).used_units
      ≤ total_quota s account profile
unfolding account_pool_stats
check_upload_quota-admits s account profile multiplier row h known owned priced admitted =
    let grown = account_pool_rows-new s account row h owned in
    let added = sum_billable_usage-cons s.billing row (account_pool_rows s account) in
    let used = check_upload_quota-used s account profile multiplier row.row_size known admitted in
    subst (λ rows. (sum_billable_usage s.billing rows).used_units ≤ total_quota s account profile)
      (sym grown) (omega (arith, added, used, ap (λ m. billable_units m row.row_size) priced))
