-- ===== src/Access/Files.antt =====
-- Which callers read a file: the nearest permission rows on the way to the root decide.
use dyson_fs.Base.{
  List, Text, [], arith, codes, length, none, refl, some, suc, true, ◌++◌, ◌<◌, ◌==◌, ◌↔◌, ◌∷◌, ◌≡◌,
  ◌⊎◌, nat_eq, text_equality,
}
use dyson_fs.Access.Pools.{Some, any_row-Some}
use dyson_fs.Access.{
  Permission, rows_for, CloudFile, inherited, AccessContext, is_account, is_admin, opens_to,
  file_at, ancestors, is_shared_pool_file, Tables, can_access_file,
}

unfoldable pub Bare : List Permission → Text → List CloudFile → Type 0
Bare table permission [] = Unit
Bare table permission (f ∷ chain) =
    (length (rows_for table f.file_id permission) ≡ 0) × Bare table permission chain

-- The file and its ancestors as the query finds them.
unfoldable pub chain_of : Tables → CloudFile → List CloudFile
chain_of t f = ancestors (suc (length t.files)) t.files (file_at t.files f.file_id)

pub inherited-nearest :
    (table : List Permission) (permission : Text) (before : List CloudFile) (f : CloudFile)
    (after : List CloudFile)
    → Bare table permission before
    → 0 < length (rows_for table f.file_id permission)
    → inherited (before ++ f ∷ after) table permission
      ≡ record { source = some f.file_id; perms = rows_for table f.file_id permission }
unfolding inherited Bare
inherited-nearest table permission [] f after bare rows = ground arith
inherited-nearest table permission (e ∷ before) f after bare rows =
    rw (bare.0, inherited) (inherited-nearest table permission before f after bare.1 rows)

inherited-none :
    (table : List Permission) (permission : Text) (chain : List CloudFile)
    → Bare table permission chain
    → inherited chain table permission ≡ record { source = none; perms = [] }
unfolding inherited Bare
inherited-none table permission [] bare = refl
inherited-none table permission (e ∷ chain) bare =
    rw (bare.0, inherited) (inherited-none table permission chain bare.1)

-- A file whose nearest permission rows are those of the file `g`, itself or an ancestor, is open to
-- a superuser, to its owner and to the callers that one of those rows names, and to nobody else:
-- neither rows further up the tree nor the pool count.
pub can_access_file-nearest :
    (t : Tables) (ctx : AccessContext) (f g : CloudFile) (before after : List CloudFile)
    (permission : Text)
    → chain_of t f ≡ before ++ g ∷ after
    → Bare t.file_perms permission before
    → 0 < length (rows_for t.file_perms g.file_id permission)
    → (can_access_file t ctx (some f) permission ≡ true) ↔ (
        (is_admin ctx.account ≡ true)
        ⊎ (is_account ctx.account f.file_owner ≡ true)
        ⊎ Some (opens_to ctx) (rows_for t.file_perms g.file_id permission))
unfolding can_access_file chain_of
can_access_file-nearest t ctx f g before after permission chain bare rows =
    rw (can_access_file, chain, inherited-nearest t.file_perms permission before g after bare rows)
      (ground (arith, any_row-Some (opens_to ctx) (rows_for t.file_perms g.file_id permission)))

-- A file without permission rows on itself and its ancestors is open to a superuser and its owner,
-- and for reading, to everybody if its pool is a shared one.
pub can_access_file-default :
    (t : Tables) (ctx : AccessContext) (f : CloudFile) (permission : Text)
    → Bare t.file_perms permission (chain_of t f)
    → (can_access_file t ctx (some f) permission ≡ true) ↔ (
        (is_admin ctx.account ≡ true)
        ⊎ (is_account ctx.account f.file_owner ≡ true)
        ⊎ (((permission == codes "read") ≡ true)
            × (is_shared_pool_file t.pools t.default_pool f ≡ true)))
unfolding can_access_file chain_of
can_access_file-default t ctx f permission bare =
    rw (can_access_file, inherited-none t.file_perms permission (chain_of t f) bare) (ground arith)
