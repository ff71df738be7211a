-- ===== src/Quota.antt =====
-- internal/service/service.go, QuotaService: the quota an account has, what its files use of it and
-- the checks before an upload. Quotas are in units of 1 MiB, workspaces in bytes. The workspace
-- service (Valve) and the account service are parameters of the operations that call them.
pub mod Level
pub mod Usage
pub mod Service
pub mod Check
mod Tests
use dyson_fs.Base.{
  Bool, List, Option, Text, [], false, find_first, if◌then◌else◌, keep, leb, ltb, negsuc, none, not,
  pos, some, suc, trim_space, true, zero, ℕ, ℤ, ◌&&◌, ◌*◌, ◌+◌, ◌-◌, ◌/◌, ◌==◌, ◌||◌, ◌∷◌, nat_eq,
  text_equality,
}

abbrev pub quota_unit_bytes : ℕ
quota_unit_bytes = 1024 * 1024

-- The fields of an account that the calculation reads. The profile's level is a signed number and
-- absent without a profile; the perk level is the subscription's, or else the account's own.
pub record Profile : Type 0 where
  pub level : Option ℤ
  pub subscription : Option ℤ
  pub perk_level : ℤ

pub record LevelingConfig : Type 0 where
  pub level1 : ℤ
  pub level10 : ℤ
  pub level60 : ℤ
  pub level120 : ℤ

-- A row of the query: the file's owner and workspace, which select it, its pool and its size.
pub record UsageRow : Type 0 where
  pub row_owner : Text
  pub row_workspace : Option Text
  pub row_pool : Option Text
  pub row_size : ℕ

-- A cost multiplier, `times / suc per`. The floating point number of the code is such a fraction;
-- its rounding is left out.
pub record Multiplier : Type 0 where
  pub times : ℕ
  pub per : ℕ

abbrev pub one_times : Multiplier
one_times = record { times = 1; per = 0 }

-- A pool's billing policy: no multiplier is `none`.
pub record Billing : Type 0 where
  pub billing_pool : Text
  pub cost_multiplier : Option Multiplier

pub record Stats : Type 0 where
  pub used_units : ℕ
  pub file_count : ℕ
  pub used_bytes : ℕ

unfoldable pub positive_or : ℕ → ℤ → ℕ
positive_or default (pos zero) = default
positive_or default (pos (suc n)) = suc n
positive_or default (negsuc n) = default

unfoldable pub level_of : Option ℤ → ℕ
level_of none = 0
level_of (some (pos n)) = n
level_of (some (negsuc n)) = 0

-- The part of levelingQuotaFromAccount after the defaults are in place.
unfoldable pub scale : ℕ → ℕ → ℕ → ℕ → ℕ → ℕ
scale level level1 level10 level60 level120 =
    let progress_level = if ltb 100 level then 100 else level in
    let progress = progress_level * level120 / 100 in
    let milestone =
      if leb 120 level
      then level120
      else if leb 60 level
      then level60
      else if leb 10 level
      then level10
      else level1 in
    if ltb progress milestone then milestone else progress

unfoldable pub leveling_quota : LevelingConfig → Profile → ℕ
leveling_quota cfg account =
    scale (level_of account.level) (positive_or 512 cfg.level1) (positive_or 1024 cfg.level10)
      (positive_or (5 * 1024) cfg.level60) (positive_or (10 * 1024) cfg.level120)

perk_table : ℤ → ℕ
perk_table (negsuc n) = 0
perk_table (pos level) =
    if level == 1
    then 10 * 1024
    else if level == 2
    then 25 * 1024
    else if level == 3
    then 50 * 1024
    else 0

unfoldable pub perk_quota : Profile → ℕ
unfolding perk_table
perk_quota account = elim account.subscription [
  | some level ↦ perk_table level
  | none ↦ perk_table account.perk_level
]

-- math.Ceil(size * multiplier / quotaUnitBytes)
unfoldable pub billable_units : Multiplier → ℕ → ℕ
billable_units m size =
    let unit = quota_unit_bytes * suc m.per in (size * m.times + (unit - 1)) / unit

-- poolUsageMultipliers for one pool: a multiplier that is absent or not positive counts as 1.
unfoldable pub billing_multiplier : Option Multiplier → Multiplier
billing_multiplier none = one_times
billing_multiplier (some m) = if ltb 0 m.times then m else one_times

unfoldable pub pool_multiplier : List Billing → Option Text → Multiplier
pool_multiplier pools none = one_times
pool_multiplier pools (some id) =
    elim (find_first (λ pool. pool.billing_pool == trim_space id) pools) [
      | none ↦ one_times
      | some pool ↦ billing_multiplier pool.cost_multiplier
    ]

unfoldable pub sum_billable_usage : List Billing → List UsageRow → Stats
sum_billable_usage pools [] = record { used_units = 0; file_count = 0; used_bytes = 0 }
sum_billable_usage pools (row ∷ rows) =
    let rest = sum_billable_usage pools rows in
    if row.row_size == 0 then rest else record {
      used_units =
          billable_units (pool_multiplier pools row.row_pool) row.row_size + rest.used_units;
      file_count = suc rest.file_count;
      used_bytes = row.row_size + rest.used_bytes;
    }

pub data WorkspaceScope : Type 0 where
  everything : WorkspaceScope
  personal : WorkspaceScope
  workspace_only : Text → WorkspaceScope

unfoldable pub in_workspace : Text → Option Text → Bool
in_workspace id none = false
in_workspace id (some w) = w == id

unfoldable pub in_scope : WorkspaceScope → Option Text → Bool
in_scope everything w = true
in_scope personal none = true
in_scope personal (some w) = false
in_scope (workspace_only id) w = in_workspace id w

unfoldable pub in_pool : Option Text → Option Text → Bool
in_pool none pool = true
in_pool (some id) none = false
in_pool (some id) (some pool) = pool == id

unfoldable pub scan_usage_rows : List UsageRow → Text → WorkspaceScope → Option Text → List UsageRow
scan_usage_rows table account scope pool =
    keep
      (λ row.
        (row.row_owner == account) && in_scope scope row.row_workspace && in_pool pool row.row_pool)
      table

-- The account to leave out is empty if nobody is.
unfoldable pub scan_workspace_rows : List UsageRow → Text → Text → List UsageRow
scan_workspace_rows table workspace excluded =
    keep
      (λ row.
        in_workspace workspace row.row_workspace
        && ((excluded == []) || not (row.row_owner == excluded)))
      table
