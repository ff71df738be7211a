-- ===== src/Access/Pools.antt =====
-- Which callers see and use a pool.
use dyson_fs.Base.{
  Bool, Bool-cases, List, Option-cases, Text, [], any_row, arith, codes, false, if◌then◌else◌, inl,
  inr, is_some, keep, none, not, refl, some, true, ◌&&◌, ◌==◌, ◌↔◌, ◌∷◌, ◌≡◌, ◌⊎◌, nat_eq,
  text_equality,
}
use dyson_fs.Access.{
  can_use_pool, AccessContext, Account, nil_uuid, Pool, Permission, is_account, is_admin, grants_to,
  rows_for, pool_visible_to, has_scope, is_listed, loaded_grants, list_pools,
}

-- Some row of a list passes a test.
pub Some {ℓ} : {A : Type ℓ} → (A → Bool) → List A → Type 0
Some p [] = ⊥
Some p (x ∷ xs) = (p x ≡ true) ⊎ Some p xs

pub any_row-Some {ℓ} : {A : Type ℓ} (p : A → Bool) (xs : List A) → (any_row p xs ≡ true) ↔ Some p xs
unfolding any_row Some
any_row-Some p [] = (λ h. absurd (ground arith), λ h. absurd h)
any_row-Some p (x ∷ xs) = ground (arith, any_row-Some p xs)

-- Some row of a list has a property.
pub AnyRow {ℓ} : {A : Type ℓ} → (A → Type 0) → List A → Type 0
AnyRow P [] = ⊥
AnyRow P (x ∷ xs) = P x ⊎ AnyRow P xs

-- The caller is the account of an id.
abbrev pub Is : AccessContext → Text → Type 0
Is ctx id = (a : Account) × (ctx.account ≡ some a) × (a.account_id ≡ id)

abbrev pub IsSuperuser : AccessContext → Type 0
IsSuperuser ctx = (a : Account) × (ctx.account ≡ some a) × (a.is_superuser ≡ true)

-- The session of the caller carries a scope.
abbrev pub Carries : AccessContext → Text → Type 0
Carries ctx scope =
    (scopes : List Text) × (ctx.session ≡ some scopes) × AnyRow (λ s. s ≡ scope) scopes

-- A row of pool_permissions that gives the caller a permission on a pool.
abbrev pub Gives : AccessContext → Text → Text → Permission → Type 0
Gives ctx pool permission row =
    (row.subject_of ≡ pool)
    × (row.permission ≡ permission)
    × (((row.subject_type ≡ codes "account") × Is ctx row.subject_id)
        ⊎ ((row.subject_type ≡ codes "scope") × Carries ctx row.subject_id))

is_account-Is : (ctx : AccessContext) (id : Text) → (is_account ctx.account id ≡ true) ↔ Is ctx id
unfolding is_account
is_account-Is ctx id = elim (Option-cases ctx.account) [
  | inl nobody ↦ (
    λ h. absurd (ground (arith, h, nobody)),
    λ (a, there, same). absurd (ground (arith, there, nobody)),
  )
  | inr (a, there) ↦
      (λ h. (a, there, ground (arith, h, there)), λ (b, here, same). ground (arith, here, same))
]

is_admin-IsSuperuser : (ctx : AccessContext) → (is_admin ctx.account ≡ true) ↔ IsSuperuser ctx
unfolding is_admin
is_admin-IsSuperuser ctx = elim (Option-cases ctx.account) [
  | inl nobody ↦ (
    λ h. absurd (ground (arith, h, nobody)),
    λ (a, there, same). absurd (ground (arith, there, nobody)),
  )
  | inr (a, there) ↦
      (λ h. (a, there, ground (arith, h, there)), λ (b, here, same). ground (arith, here, same))
]

any_row-AnyRow {ℓ} :
    {A : Type ℓ} (p : A → Bool) (P : A → Type 0)
    → ((x : A) → (p x ≡ true) ↔ P x)
    → (xs : List A) → (any_row p xs ≡ true) ↔ AnyRow P xs
unfolding any_row AnyRow
any_row-AnyRow p P same [] = (λ h. absurd (ground (arith, h)), λ h. absurd h)
any_row-AnyRow p P same (x ∷ xs) =
    let rest = any_row-AnyRow p P same xs in
    (
      λ h. elim (Bool-cases (p x)) [
        | inl here ↦ inl ((same x).0 here)
        | inr other ↦ inr (rest.0 (ground (arith, h, other)))
      ],
      λ h. elim h [
        | inl here ↦ let passed = (same x).1 here in ground (arith, passed)
        | inr there ↦ let passed = rest.1 there in ground (arith, passed)
      ],
    )

has_scope-Carries :
    (ctx : AccessContext) (scope : Text) → (has_scope ctx.session scope ≡ true) ↔ Carries ctx scope
unfolding has_scope
has_scope-Carries ctx scope =
    let holds = any_row-AnyRow (λ s. s == scope) (λ s. s ≡ scope) (λ s. ground arith) in
    elim (Option-cases ctx.session) [
      | inl nothing ↦ (
        λ h. absurd (ground (arith, h, nothing)),
        λ (s, there, held). absurd (ground (arith, there, nothing)),
      )
      | inr (s, there) ↦ (
        λ h. (s, there, (holds s).0 (rw there at h)),
        λ (r, here, held). let passed = (holds r).1 held in rw here passed,
      )
    ]

module _ (ctx : AccessContext) (pool permission : Text) where
  row-Gives :
      (row : Permission)
      → (((row.subject_of == pool) && (row.permission == permission) && grants_to ctx row) ≡ true)
        ↔ Gives ctx pool permission row
  unfolding grants_to
  row-Gives row =
      ground (arith, is_account-Is ctx row.subject_id, has_scope-Carries ctx row.subject_id)

  any_row-rows_for :
      (table : List Permission)
      → any_row (grants_to ctx) (rows_for table pool permission)
        ≡ any_row
            (λ row. (row.subject_of == pool) && (row.permission == permission) && grants_to ctx row)
            table
  unfolding any_row rows_for keep
  any_row-rows_for [] = refl
  any_row-rows_for (row ∷ table) = ground (arith, any_row-rows_for table)

-- A caller uses a pool exactly if it is a superuser, or the pool is not hidden and the caller owns
-- it, anyone may use it, or the table has a row for this pool and this permission that names the
-- account of the caller or a scope of its session.
pub can_use_pool-allowed :
    (ctx : AccessContext) (pool : Pool) (permission : Text) (table : List Permission)
    → (can_use_pool ctx (some pool) permission table ≡ true) ↔ (
        IsSuperuser ctx
        ⊎ ((pool.is_hidden ≡ false)
            × (Is ctx pool.owner
                ⊎ (pool.public_usable ≡ true)
                ⊎ AnyRow (Gives ctx pool.pool_id permission) table)))
unfolding can_use_pool
can_use_pool-allowed ctx pool permission table =
    let rows =
      any_row-AnyRow _ (Gives ctx pool.pool_id permission) (row-Gives ctx pool.pool_id permission)
        table in
    let kept = any_row-rows_for ctx pool.pool_id permission table in
    ground (arith, is_admin-IsSuperuser ctx, is_account-Is ctx pool.owner, rows, kept)

-- The caller as the listing knows it: without an account the scopes of the session do not count.
abbrev pub listed_as : AccessContext → AccessContext
listed_as ctx = record ctx { session = if is_some ctx.account then ctx.session else none }

-- Whether the listing shows a pool: one that the configuration seeds unless it is hidden, any other
-- one if the caller may use it for reading.
abbrev pub is_shown : AccessContext → List Permission → Pool → Bool
is_shown ctx table pool =
    if pool.owner == nil_uuid
    then not pool.is_hidden
    else can_use_pool (listed_as ctx) (some pool) (codes "read") table

listed_grants :
    (ctx : AccessContext) (rows : List Permission)
    → any_row (grants_to (listed_as ctx)) rows
      ≡ (if is_some ctx.account then any_row (grants_to ctx) rows else false)
unfolding any_row grants_to is_account has_scope
listed_grants ctx [] = ground arith
listed_grants ctx (row ∷ rows) = elim (Option-cases ctx.account) [
  | inl nobody ↦ ground (arith, nobody, listed_grants ctx rows)
  | inr (a, there) ↦ ground (arith, there, listed_grants ctx rows)
]

visible_shown :
    (ctx : AccessContext) (table : List Permission) (pool : Pool)
    → is_admin ctx.account ≡ false
    → (is_listed ctx pool && pool_visible_to pool ctx (loaded_grants ctx table pool))
      ≡ is_shown ctx table pool
unfolding is_listed pool_visible_to loaded_grants can_use_pool any_row
visible_shown ctx table pool h =
    let grants = listed_grants ctx (rows_for table pool.pool_id (codes "read")) in
    elim (Option-cases ctx.account) [
      | inl nobody ↦ ground (arith, h, nobody, grants)
      | inr (a, there) ↦ ground (arith, h, there, grants)
    ]

-- For a caller that is no superuser, the listing holds, in their order, the pools that the
-- configuration seeds unless they are hidden, and the other pools that the caller may use for
-- reading, where the scopes of a session without an account do not count.
pub list_pools-can_use_pool :
    (ctx : AccessContext) (table : List Permission) (pools : List Pool)
    → is_admin ctx.account ≡ false
    → list_pools ctx table pools ≡ keep (is_shown ctx table) pools
unfolding list_pools keep
list_pools-can_use_pool ctx table [] h = refl
list_pools-can_use_pool ctx table (pool ∷ pools) h =
    let here = visible_shown ctx table pool h in
    let rest = list_pools-can_use_pool ctx table pools h in ground (arith, here, rest)
