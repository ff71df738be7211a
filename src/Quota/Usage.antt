-- ===== src/Quota/Usage.antt =====
-- Sums over the usage rows: splitting, and the pools that the two quotas charge.
use dyson_fs.Base.{
  List, Option-cases, Text, [], arith, false, inl, inr, is_blank, keep, none, not, refl, some, ◌&&◌,
  ◌++◌, ◌+◌, ◌==◌, ◌∷◌, ◌≡◌, ◌≢◌, nat_eq, text_equality,
}
use dyson_fs.Quota.{
  UsageRow, sum_billable_usage, Billing, everything, personal, in_workspace, in_scope, in_pool,
  scan_usage_rows, scan_workspace_rows,
}
use dyson_fs.Quota.Service.{
  sum_sizes, Workspace, individual_found, WorkspaceClient, QuotaService, workspace_pool_stats,
  scoped_usage_stats, account_pool_rows, account_pool_stats, owner_of, individual_workspace_bytes,
}

pub sum_billable_usage-append :
    (pools : List Billing) (xs ys : List UsageRow)
    → ((sum_billable_usage pools (xs ++ ys)).used_units
        ≡ (sum_billable_usage pools xs).used_units + (sum_billable_usage pools ys).used_units)
      × ((sum_billable_usage pools (xs ++ ys)).used_bytes
          ≡ (sum_billable_usage pools xs).used_bytes + (sum_billable_usage pools ys).used_bytes)
unfolding sum_billable_usage
sum_billable_usage-append pools [] ys = ground arith
sum_billable_usage-append pools (x ∷ xs) ys = ground (arith, sum_billable_usage-append pools xs ys)

pub sum_sizes-bytes :
    (pools : List Billing) (xs : List UsageRow)
    → (sum_billable_usage pools xs).used_bytes ≡ sum_sizes xs
unfolding sum_billable_usage sum_sizes
sum_sizes-bytes pools [] = refl
sum_sizes-bytes pools (x ∷ xs) = ground (arith, sum_sizes-bytes pools xs)

sum_sizes-append : (xs ys : List UsageRow) → sum_sizes (xs ++ ys) ≡ sum_sizes xs + sum_sizes ys
unfolding sum_sizes
sum_sizes-append [] ys = omega arith
sum_sizes-append (x ∷ xs) ys = omega (arith, sum_sizes-append xs ys)

-- The owner's files in workspaces other than the given one.
unfoldable pub elsewhere : List UsageRow → Text → Text → List UsageRow
elsewhere table account workspace =
    keep
      (λ row.
        (row.row_owner == account)
        && not (in_scope personal row.row_workspace)
        && not (in_workspace workspace row.row_workspace))
      table

pool_sizes :
    (table : List UsageRow) (account workspace : Text)
    → account ≢ []
    → sum_sizes (scan_usage_rows table account everything none)
        + sum_sizes (scan_workspace_rows table workspace account)
      ≡ sum_sizes (scan_usage_rows table account personal none)
        + sum_sizes (scan_workspace_rows table workspace [])
        + sum_sizes (elsewhere table account workspace)
unfolding sum_sizes scan_usage_rows scan_workspace_rows elsewhere keep in_scope in_workspace in_pool
pool_sizes [] account workspace h = refl
pool_sizes (row ∷ rows) account workspace h = elim (Option-cases row.row_workspace) [
  | inl there ↦ ground (arith, pool_sizes rows account workspace h)
  | inr (w, there) ↦ ground (arith, pool_sizes rows account workspace h)
]

-- For an account with an id whose individual workspace is found, has an id and is owned by the
-- account, the bytes behind the account's quota are those charged to that workspace and those of
-- the account's files in other workspaces.
pub account_pool_stats-individual :
    (s : QuotaService) (client : WorkspaceClient) (account : Text) (w : Workspace)
    → s.workspace_client ≡ some client
    → client.individual_workspace account ≡ individual_found w
    → is_blank w.workspace_id ≡ false
    → owner_of w account ≡ account
    → account ≢ []
    → (account_pool_stats s account).used_bytes
      ≡ individual_workspace_bytes s w account + sum_sizes (elsewhere s.rows account w.workspace_id)
unfolding account_pool_stats account_pool_rows individual_workspace_bytes scoped_usage_stats
    workspace_pool_stats
account_pool_stats-individual s client account w there found named owned h =
    rw
      (
        account_pool_stats, account_pool_rows, there, found, named, individual_workspace_bytes,
        owned, scoped_usage_stats, workspace_pool_stats,
      )
      (omega (
        arith,
        sum_sizes-bytes s.billing (
            scan_usage_rows s.rows account everything none
            ++ scan_workspace_rows s.rows w.workspace_id account),
        sum_sizes-append (scan_usage_rows s.rows account everything none)
            (scan_workspace_rows s.rows w.workspace_id account),
        sum_sizes-bytes s.billing (scan_usage_rows s.rows account personal none),
        sum_sizes-bytes s.billing (scan_workspace_rows s.rows w.workspace_id []),
        pool_sizes s.rows account w.workspace_id h,
      ))
