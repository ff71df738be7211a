-- ===== src/Access.antt =====
-- internal/service/service.go: who may see and use a storage pool and who may read a file. The
-- rows of pool_permissions and file_permissions, and the chain of a file's ancestors, are lists;
-- the account, the session and its scopes come with the call. JSON policies are parsed, a uuid is
-- its text and the nil uuid is `nil_uuid`.
pub mod Pools
pub mod Files
mod Tests
use dyson_fs.Base.{
  Bool, List, Option, Text, [], any_row, codes, false, find_first, has_prefix, has_suffix,
  if◌then◌else◌, is_blank, is_some, keep, length, ltb, none, not, some, suc, to_lower, trim_space,
  trim_suffix, true, zero, ℕ, ◌&&◌, ◌==◌, ◌||◌, ◌∷◌, nat_eq, text_equality,
}

pub record Account : Type 0 where
  pub account_id : Text
  pub is_superuser : Bool

-- The session is there or not; it carries its scopes.
pub record AccessContext : Type 0 where
  pub account : Option Account
  pub session : Option (List Text)

abbrev pub nil_uuid : Text
nil_uuid = codes "00000000-0000-0000-0000-000000000000"

-- The columns of a pool with those of its policy: an absent size limit is `none`.
pub record Pool : Type 0 where
  pub pool_id : Text
  pub owner : Text
  pub is_hidden : Bool
  pub public_usable : Bool
  pub max_file_size : Option ℕ
  pub accept_types : List Text

-- A row of pool_permissions or of file_permissions: the first field is the pool or the file.
pub record Permission : Type 0 where
  pub subject_of : Text
  pub subject_type : Text
  pub subject_id : Text
  pub permission : Text

unfoldable pub is_account : Option Account → Text → Bool
is_account none id = false
is_account (some a) id = id == a.account_id

unfoldable pub is_admin : Option Account → Bool
is_admin none = false
is_admin (some a) = a.is_superuser

unfoldable pub has_scope : Option (List Text) → Text → Bool
has_scope none id = false
has_scope (some scopes) id = any_row (λ scope. scope == id) scopes

-- The switch on the subject of a row that the pool checks share.
unfoldable pub grants_to : AccessContext → Permission → Bool
grants_to ctx row =
    if row.subject_type == codes "account"
    then is_account ctx.account row.subject_id
    else if row.subject_type == codes "scope"
    then has_scope ctx.session row.subject_id
    else false

-- The switch of CanAccessFile, which knows public rows too.
unfoldable pub opens_to : AccessContext → Permission → Bool
opens_to ctx row =
    if row.subject_type == codes "account"
    then is_account ctx.account row.subject_id
    else if row.subject_type == codes "scope"
    then has_scope ctx.session row.subject_id
    else row.subject_type == codes "public"

-- The rows for an object and a permission.
unfoldable pub rows_for : List Permission → Text → Text → List Permission
rows_for table id permission =
    keep (λ row. (row.subject_of == id) && (row.permission == permission)) table

unfoldable pub pool_visible_to : Pool → AccessContext → List Permission → Bool
pool_visible_to pool ctx grants =
    if pool.is_hidden
    then false
    else if is_account ctx.account pool.owner
    then true
    else if pool.owner == nil_uuid
    then true
    else if pool.public_usable
    then true
    else any_row (grants_to ctx) grants

-- ListPools: the query for candidates, the read grants, which only load for an account, and the
-- filter above.
unfoldable pub is_listed : AccessContext → Pool → Bool
is_listed ctx pool =
    is_account ctx.account pool.owner || (pool.owner == nil_uuid || not pool.is_hidden)

unfoldable pub loaded_grants : AccessContext → List Permission → Pool → List Permission
loaded_grants ctx table pool =
    if is_some ctx.account then rows_for table pool.pool_id (codes "read") else []

unfoldable pub list_pools : AccessContext → List Permission → List Pool → List Pool
list_pools ctx table pools =
    keep (λ pool. pool_visible_to pool ctx (loaded_grants ctx table pool))
      (keep (is_listed ctx) pools)

unfoldable pub can_access_pool : Option Account → Option Pool → Text → List Permission → Bool
can_access_pool account none permission table = false
can_access_pool account (some pool) permission table =
    if is_admin account
    then true
    else if is_account account pool.owner
    then true
    else if pool.is_hidden
    then false
    else if pool.public_usable
    then true
    else if permission == codes "read"
    then length (rows_for table pool.pool_id permission) == 0
    else false

unfoldable pub can_use_pool : AccessContext → Option Pool → Text → List Permission → Bool
can_use_pool ctx none permission table = false
can_use_pool ctx (some pool) permission table =
    if is_admin ctx.account
    then true
    else if pool.is_hidden
    then false
    else if is_account ctx.account pool.owner
    then true
    else if pool.public_usable
    then true
    else any_row (grants_to ctx) (rows_for table pool.pool_id permission)

-- One round of the loop of acceptTypeAllowed, on an entry as it is written in the policy.
unfoldable pub accepts : Text → Text → Bool
accepts content_type entry =
    let accepted = trim_space (to_lower entry) in
    if accepted == []
    then false
    else if accepted == content_type
    then true
    else has_suffix accepted (codes "/*")
      && has_prefix content_type (trim_suffix accepted (codes "*"))

unfoldable pub accept_type_allowed : List Text → Text → Bool
accept_type_allowed accept_types content_type =
    let wanted = trim_space (to_lower content_type) in
    if wanted == [] then false else any_row (accepts wanted) accept_types

pub data UsageError : Type 0 where
  pool_not_found : UsageError
  pool_denied : UsageError
  too_large : UsageError
  type_rejected : UsageError

unfoldable pub exceeds : ℕ → Option ℕ → Bool
exceeds size none = false
exceeds size (some limit) = ltb limit size

-- ValidatePoolUsage on the pool that GetPool has found, if any; `none` is the nil error.
unfoldable pub usage_of :
    AccessContext → Option Pool → List Permission → ℕ → Text → Option UsageError
usage_of ctx none table size content_type = some pool_not_found
usage_of ctx (some pool) table size content_type =
    if not (can_use_pool ctx (some pool) (codes "write") table)
    then some pool_denied
    else if exceeds size pool.max_file_size
    then some too_large
    else if ltb 0 (length pool.accept_types)
        && not (accept_type_allowed pool.accept_types content_type)
    then some type_rejected
    else none

unfoldable pub find_pool : List Pool → Text → Option Pool
find_pool pools id = find_first (λ pool. pool.pool_id == id) pools

unfoldable pub validate_pool_usage :
    AccessContext → List Pool → List Permission → Option Text → ℕ → Text → Option UsageError
validate_pool_usage ctx pools table none size content_type = none
validate_pool_usage ctx pools table (some id) size content_type =
    if is_blank id then none else usage_of ctx (find_pool pools id) table size content_type

-- A row of cloud_files that is not deleted, and the two columns the checks read.
pub record CloudFile : Type 0 where
  pub file_id : Text
  pub parent_id : Option Text
  pub file_owner : Text
  pub file_pool : Option Text

unfoldable pub file_at : List CloudFile → Text → Option CloudFile
file_at files id = find_first (λ f. f.file_id == id) files

parent_of : List CloudFile → Option Text → Option CloudFile
parent_of files none = none
parent_of files (some id) = file_at files id

-- The common table expression: a file and its ancestors, nearest first. A deleted row ends the chain.
unfoldable pub ancestors : ℕ → List CloudFile → Option CloudFile → List CloudFile
unfolding parent_of
ancestors zero files f = []
ancestors (suc fuel) files none = []
ancestors (suc fuel) files (some f) = f ∷ ancestors fuel files (parent_of files f.parent_id)

pub record Lookup : Type 0 where
  pub source : Option Text
  pub perms : List Permission

-- loadInheritedFilePermissions on the chain: the rows of the nearest file that has any.
unfoldable pub inherited : List CloudFile → List Permission → Text → Lookup
inherited [] table permission = record { source = none; perms = [] }
inherited (f ∷ chain) table permission =
    let rest = inherited chain table permission in
    let rows = rows_for table f.file_id permission in
    if ltb 0 (length rows) then record { source = some f.file_id; perms = rows } else rest

-- resolvedPoolID: a pool that is named, or the configured default one if that is set.
unfoldable pub resolved_pool_id : Text → Option Text → Option Text
resolved_pool_id default none = if is_blank default then none else some default
resolved_pool_id default (some id) =
    if is_blank id then (if is_blank default then none else some default) else some (trim_space id)

unfoldable pub effective_pool_id : Text → CloudFile → Text
effective_pool_id default f = elim (resolved_pool_id default f.file_pool) [
  | none ↦ []
  | some id ↦ trim_space id
]

-- isSharedPoolFile with the query of sharedPoolIDs; an account that is NULL reads as the nil uuid.
unfoldable pub is_shared_pool_file : List Pool → Text → CloudFile → Bool
is_shared_pool_file pools default f =
    let id = effective_pool_id default f in
    if id == []
    then false
    else any_row (λ pool. (pool.pool_id == id) && not pool.is_hidden && (pool.owner == nil_uuid))
        pools

-- The tables that the check of a file reads, and the configured default pool.
pub record Tables : Type 0 where
  pub files : List CloudFile
  pub file_perms : List Permission
  pub pools : List Pool
  pub default_pool : Text

-- The depth of the query is bounded by the number of files.
unfoldable pub can_access_file : Tables → AccessContext → Option CloudFile → Text → Bool
can_access_file t ctx none permission = false
can_access_file t ctx (some f) permission =
    if is_admin ctx.account
    then true
    else if is_account ctx.account f.file_owner
    then true
    else let chain = ancestors (suc (length t.files)) t.files (file_at t.files f.file_id) in
      let lookup = inherited chain t.file_perms permission in
      if not (is_some lookup.source)
      then (permission == codes "read") && is_shared_pool_file t.pools t.default_pool f
      else any_row (opens_to ctx) lookup.perms
