-- ===== src/Store.antt =====
-- internal/store: the rows of the metadata store, the listing query, and the store's errors.
pub mod Sqlite
mod Examples
use orbit_depot_prototype.Base.{ℕ, Bool, ◌||◌, Option, List}
use orbit_depot_prototype.Base.Int.{ℤ}
use orbit_depot_prototype.Base.Clock.{Time}
use orbit_depot_prototype.Base.Text.{Text, codes, ◌==◌}

-- `ErrNotFound`; the refusal of an empty account; any other error of the database, wrapped.
pub data StoreError : Type 0 where
  not_found account_required database_error : StoreError

pub record Upload : Type 0 where
  pub object_key : Text
  pub uploader_account : Text
  pub uploader_issuer : Text
  pub file_size : ℤ
  pub content_type : Text
  pub original_filename : Text
  pub uploaded_at : Time

-- `limit` and `offset` have been checked to be natural numbers by then.
pub record ListUploadsQuery : Type 0 where
  pub account : Text
  pub issuer : Text
  pub content_type : Text
  pub search : Text
  pub sort : Text
  pub order : Text
  pub limit : ℕ
  pub offset : ℕ

pub record ListUploadersQuery : Type 0 where
  pub sort : Text
  pub order : Text
  pub limit : ℕ
  pub offset : ℕ

unfoldable pub valid_sort : Text → Bool
valid_sort s = s == codes "uploaded_at" || s == codes "file_size"

unfoldable pub valid_order : Text → Bool
valid_order s = s == codes "asc" || s == codes "desc"

unfoldable pub valid_uploader_sort : Text → Bool
valid_uploader_sort s = s == codes "file_count" || s == codes "file_size"

pub record UploaderUsage : Type 0 where
  pub account : Text
  pub issuer : Text
  pub files : ℕ
  pub bytes : ℤ

pub record UploadStats : Type 0 where
  pub total_files : ℕ
  pub total_size : ℤ
  pub total_images : ℕ

pub record ApiKey : Type 0 where
  pub id : Text
  pub hash : Text
  pub owner_account : Text
  pub owner_issuer : Text
  pub label : Text
  pub scopes : List Text
  pub expires_at : Option Time
  pub last_used_at : Option Time
  pub created_at : Time
