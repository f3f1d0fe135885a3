-- ===== src/Store/Sqlite/Keys.antt =====
-- The table of API keys: `CreateKey`, `ResolveKey` and `RevokeKey`.
use orbit_depot_prototype.Base.{
  ◌≡◌, refl, sym, ap, ◌∙◌, true, false, not, ◌&&◌, ◌||◌, List, [], ◌∷◌, ◌++◌, arith, any, keep,
}
use orbit_depot_prototype.Base.Rows.{keep-append, keep-keep-not, keep_of_all, keep-keep}
use orbit_depot_prototype.Base.Text.{Text, ◌==◌, ==-refl}
use orbit_depot_prototype.Base.Exec.{Result, ok, err, is_ok}
use orbit_depot_prototype.Store.{StoreError, not_found, ApiKey}
use orbit_depot_prototype.Store.Sqlite.{
  Db, statement, next_fault, create_key, resolve_key, revoke_key, is_key_of, key_row, scan_key,
  first_key,
}

-- The row of a hash.
abbrev pub rows_of_hash : Text → List ApiKey → List ApiKey
rows_of_hash hash rows = keep (λ r. r.hash == hash) rows

unclaimed :
    (k : ApiKey) (rows : List ApiKey)
    → any (λ r. r.id == k.id || r.hash == k.hash) rows ≡ false
    → rows_of_hash k.hash rows ≡ []
unclaimed k [] h = refl
unclaimed k (r ∷ rows) h = ground (arith, unclaimed k rows)

keys-create_key :
    (k : ApiKey) (db : Db)
    → is_ok (create_key k db).0 ≡ true
    → ((create_key k db).1.keys ≡ db.keys ++ (key_row k ∷ []))
      × (any (λ r. r.id == k.id || r.hash == k.hash) db.keys ≡ false)
unfolding create_key statement
keys-create_key k db h = ground arith

abbrev first_scanned : List ApiKey → Result StoreError ApiKey
first_scanned [] = err not_found
first_scanned (r ∷ rows) = ok (scan_key r)

first_key_lem : (rows : List ApiKey) (db : Db) → (first_key rows db).0 ≡ first_scanned rows
first_key_lem [] db = refl
first_key_lem (r ∷ rows) db = refl

pub resolve_key_lem :
    (hash : Text) (db : Db)
    → next_fault db.faults ≡ false
    → (resolve_key hash db).0 ≡ first_scanned (rows_of_hash hash db.keys)
unfolding resolve_key statement
resolve_key_lem hash db go = rw go (first_key_lem (rows_of_hash hash db.keys) _)

own_row :
    (k : ApiKey) (rows : List ApiKey)
    → any (λ r. r.id == k.id || r.hash == k.hash) rows ≡ false
    → rows_of_hash k.hash (rows ++ (key_row k ∷ [])) ≡ key_row k ∷ []
unfolding key_row
own_row k rows h = ground (
  arith,
  keep-append (λ (r : ApiKey). r.hash == k.hash) rows (key_row k ∷ []),
  unclaimed k rows h,
  ==-refl k.hash,
)

-- A key that was stored is found by its hash, with its times cut to whole seconds and all else as
-- it was given, where the driver lets the query through.
pub resolve_key-create_key :
    (k : ApiKey) (db : Db)
    → is_ok (create_key k db).0 ≡ true
    → next_fault (create_key k db).1.faults ≡ false
    → (resolve_key k.hash (create_key k db).1).0 ≡ ok (scan_key (key_row k))
resolve_key-create_key k db h go =
    let (stored, free) = keys-create_key k db h in
    resolve_key_lem k.hash (create_key k db).1 go
    ∙ ap first_scanned (ap (rows_of_hash k.hash) stored ∙ own_row k db.keys free)

revoked_rows :
    (id account issuer : Text) (rows : List ApiKey) (r : ApiKey)
    → rows_of_hash r.hash rows ≡ r ∷ []
    → is_key_of id account issuer r ≡ true
    → rows_of_hash r.hash (keep (λ s. not (is_key_of id account issuer s)) rows) ≡ []
revoked_rows id account issuer rows r e own =
    let hashed = λ (s : ApiKey). s.hash == r.hash in
    let kept = λ (s : ApiKey). not (is_key_of id account issuer s) in
    keep-keep hashed kept rows
    ∙ (keep_of_all _ _ rows (λ s. ground arith)
        ∙ (sym (keep-keep kept hashed rows) ∙ (ap (keep kept) e ∙ ground arith)))

revoked_keys :
    (id account issuer : Text) (db : Db)
    → next_fault db.faults ≡ false
    → (revoke_key id account issuer db).1.keys
      ≡ keep (λ s. not (is_key_of id account issuer s)) db.keys
unfolding revoke_key statement
revoked_keys id account issuer db go = ground arith

-- Once its owner has revoked a key that is the only one of its hash, and where the driver lets both statements
-- through, the key's hash resolves no more.
pub resolve_key-revoke_key :
    (account issuer : Text) (r : ApiKey) (db : Db)
    → rows_of_hash r.hash db.keys ≡ r ∷ []
    → is_key_of r.id account issuer r ≡ true
    → next_fault db.faults ≡ false
    → next_fault (revoke_key r.id account issuer db).1.faults ≡ false
    → (resolve_key r.hash (revoke_key r.id account issuer db).1).0 ≡ err not_found
resolve_key-revoke_key account issuer r db e own go go' =
    let keys = revoked_keys r.id account issuer db go in
    resolve_key_lem r.hash (revoke_key r.id account issuer db).1 go'
    ∙ ap first_scanned
        (ap (rows_of_hash r.hash) keys ∙ revoked_rows r.id account issuer db.keys r e own)

-- The keys of everyone but the owner, in order.
abbrev pub other_keys : Text → Text → Db → List ApiKey
other_keys account issuer db =
    keep (λ r. not (r.owner_account == account && r.owner_issuer == issuer)) db.keys

-- Whatever the id, the state of the table and the faults of the driver, revoking leaves every key of
-- every other owner as it was, and touches no upload.
pub other_keys-revoke_key :
    (id account issuer : Text) (db : Db)
    → (other_keys account issuer (revoke_key id account issuer db).1 ≡ other_keys account issuer db)
      × ((revoke_key id account issuer db).1.uploads ≡ db.uploads)
unfolding revoke_key statement
other_keys-revoke_key id account issuer db = (
  ground (
    arith,
    keep-keep-not (λ r. not (r.owner_account == account && r.owner_issuer == issuer))
        (is_key_of id account issuer) db.keys (λ r. ground arith),
  ),
  ground arith,
)
