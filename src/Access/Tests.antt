-- ===== src/Access/Tests.antt =====
-- Access checks at concrete inputs: an owner, a stranger with a scope, and a superuser.
use dyson_fs.Base.{
  List, [], any_row, arith, codes, drop_prefix, false, find_first, has_prefix, has_suffix, is_blank,
  keep, none, refl, some, text_discrete, to_lower, trim_prefix, trim_space, trim_suffix, true,
  ℕ_discrete, ◌↔◌, ◌∷◌, ◌≡◌, ◌⊎◌,
}
use dyson_fs.Access.{
  Pool, can_use_pool, AccessContext, nil_uuid, Permission, is_account, is_admin, has_scope,
  grants_to, opens_to, rows_for, pool_visible_to, can_access_pool, accepts, accept_type_allowed,
  type_rejected, exceeds, usage_of, find_pool, validate_pool_usage, CloudFile, file_at, ancestors,
  inherited, resolved_pool_id, effective_pool_id, is_shared_pool_file, Tables, can_access_file,
  parent_of, list_pools, is_listed, loaded_grants,
}
use dyson_fs.Access.Pools.{
  Some, AnyRow, Is, IsSuperuser, Gives, is_shown, can_use_pool-allowed, list_pools-can_use_pool,
}
use dyson_fs.Access.Files.{chain_of, Bare, can_access_file-nearest}

program : Unit {0}
unfolding can_use_pool can_access_pool can_access_file pool_visible_to validate_pool_usage usage_of
    find_pool accept_type_allowed accepts exceeds is_account is_admin has_scope grants_to opens_to
    rows_for keep find_first any_row text_discrete ℕ_discrete trim_space to_lower has_prefix
    has_suffix trim_suffix trim_prefix drop_prefix is_blank ancestors parent_of file_at inherited
    is_shared_pool_file effective_pool_id resolved_pool_id chain_of
program = tt

abbrev owner : AccessContext
owner = record {
  account = some (record { account_id = codes "ann"; is_superuser = false });
  session = none;
}

abbrev stranger : AccessContext
stranger = record {
  account = some (record { account_id = codes "bob"; is_superuser = false });
  session = some (codes "drive" ∷ []);
}

abbrev images : Pool
images = record {
  pool_id = codes "p";
  owner = codes "ann";
  is_hidden = false;
  public_usable = false;
  max_file_size = some 100;
  accept_types = codes "image/*" ∷ [];
}

abbrev seeded_pool : Pool
seeded_pool = record images { pool_id = codes "s"; owner = nil_uuid }

abbrev grants : List Permission
grants =
    record {
      subject_of = codes "p";
      subject_type = codes "scope";
      subject_id = codes "drive";
      permission = codes "write";
    }
    ∷ []

-- A seeded pool is listed, and not usable without a grant.
seeded_listed : pool_visible_to seeded_pool stranger [] ≡ true
unfolding program
seeded_listed = refl

seeded_unusable : can_use_pool stranger (some seeded_pool) (codes "read") [] ≡ false
unfolding program
seeded_unusable = refl

text_rejected :
    validate_pool_usage stranger (images ∷ []) grants (some (codes "p")) 50 (codes "text/plain")
    ≡ some type_rejected
unfolding program
text_rejected = refl

can_use_pool-allowed_example :
    (can_use_pool stranger (some images) (codes "write") grants ≡ true) ↔ (
      IsSuperuser stranger
      ⊎ ((images.is_hidden ≡ false)
          × (Is stranger images.owner
              ⊎ (images.public_usable ≡ true)
              ⊎ AnyRow (Gives stranger images.pool_id (codes "write")) grants)))
can_use_pool-allowed_example = can_use_pool-allowed stranger images (codes "write") grants

list_pools-can_use_pool_example :
    list_pools stranger grants (images ∷ seeded_pool ∷ [])
    ≡ keep (is_shown stranger grants) (images ∷ seeded_pool ∷ [])
unfolding program
list_pools-can_use_pool_example =
    list_pools-can_use_pool stranger grants (images ∷ seeded_pool ∷ []) refl

-- A session without an account: its scope gives it the use of a pool that it does not see listed.
abbrev client : AccessContext
client = record { account = none; session = some (codes "drive" ∷ []) }

abbrev read_grants : List Permission
read_grants =
    record {
      subject_of = codes "p";
      subject_type = codes "scope";
      subject_id = codes "drive";
      permission = codes "read";
    }
    ∷ []

client_uses : can_use_pool client (some images) (codes "read") read_grants ≡ true
unfolding program
client_uses = refl

client_sees_none : list_pools client read_grants (images ∷ []) ≡ []
unfolding program list_pools is_listed loaded_grants
client_sees_none = refl

abbrev folder : CloudFile
folder = record {
  file_id = codes "d";
  parent_id = none;
  file_owner = codes "ann";
  file_pool = none;
}

abbrev photo : CloudFile
photo = record {
  file_id = codes "f";
  parent_id = some (codes "d");
  file_owner = codes "ann";
  file_pool = none;
}

abbrev tables : Tables
tables = record {
  files = photo ∷ folder ∷ [];
  file_perms =
      record {
        subject_of = codes "d";
        subject_type = codes "account";
        subject_id = codes "bob";
        permission = codes "read";
      }
      ∷ [];
  pools = seeded_pool ∷ [];
  default_pool = codes "s";
}

-- The folder's row opens the photo in it.
inherited_read : can_access_file tables stranger (some photo) (codes "read") ≡ true
unfolding program
inherited_read = refl

can_access_file-nearest_example :
    (can_access_file tables stranger (some photo) (codes "read") ≡ true) ↔ (
      (is_admin stranger.account ≡ true)
      ⊎ (is_account stranger.account photo.file_owner ≡ true)
      ⊎ Some (opens_to stranger) (rows_for tables.file_perms folder.file_id (codes "read")))
unfolding program Bare
can_access_file-nearest_example =
    can_access_file-nearest tables stranger photo folder (photo ∷ []) [] (codes "read") refl
      (refl, tt) (omega arith)
