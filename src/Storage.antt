-- ===== src/Storage.antt =====
-- The object storage of apps/api/services/storage.py: the paths of the objects, and the check that a
-- path is of a tenant. The client of the store is a parameter.
pub mod Paths
use stock_analyst.Shared.{
  ℕ, Text, codes, List, [], ◌∷◌, ◌++◌, Bool, true, false, Option, none, some, starts_with,
  same_text, filter_by, ◌==◌, ◌&&◌, not, if◌then◌else◌,
}
use stock_analyst.Http.{Reply, answer, problem, crashed, ◌>>=◌}

-- `f"stocks-{tenant_id}"`
abbrev pub bucket_of : Text → Text
bucket_of tenant_id = codes "stocks-" ++ tenant_id

-- The path of an uploaded object.
abbrev pub object_path : Text → Text → Text → Text → Text
object_path tenant_id coverage_id file_type file_name =
    bucket_of tenant_id
    ++ (codes "/" ++ (file_type ++ (codes "/" ++ (coverage_id ++ (codes "/" ++ file_name)))))

-- `_validate_tenant_path`
unfoldable pub validate_tenant_path : Text → Text → Reply (Unit {0})
validate_tenant_path tenant_id path =
    if starts_with path (bucket_of tenant_id ++ codes "/")
    then answer tt
    else crashed (codes "object_path does not belong to tenant")

-- `_split_path`: the text before the first slash, and the text behind it.
unfoldable pub split_path : Text → Text × Text
split_path [] = ([], [])
split_path (c ∷ path) =
    let rest = split_path path in if c == b'/' then ([], path) else (c ∷ rest.0, rest.1)

-- The client: how a call on a bucket and a key fails, or the address that it gives.
pub record Client : Type 0 where
  pub put_object : Text → Text → Option Text
  pub remove_object : Text → Text → Option Text
  pub presigned_get_object : Text → Text → Reply Text

-- An object is known by its bucket and its key.
abbrev pub is_object : Text × Text → Text × Text → Bool
is_object (bucket, key) (bucket', key') = same_text bucket bucket' && same_text key key'

module _ (client : Client) where
  -- The end of a call that changes the objects of the store.
  abbrev pub attempted :
      {A : Type 0}
      → Option Text
      → A
      → List (Text × Text)
      → List (Text × Text)
      → Reply A × List (Text × Text)
  attempted none a objects objects' = (answer a, objects')
  attempted (some e) a objects objects' = (crashed e, objects)

  -- `upload_file`: the path, and the objects; an object that was there is written over.
  unfoldable pub upload_file :
      Text → Text → Text → Text → List (Text × Text) → Reply Text × List (Text × Text)
  upload_file tenant_id coverage_id file_type file_name objects =
      let bucket = bucket_of tenant_id in
      let key = file_type ++ (codes "/" ++ (coverage_id ++ (codes "/" ++ file_name))) in
      attempted (client.put_object bucket key)
        (object_path tenant_id coverage_id file_type file_name) objects
        ((bucket, key) ∷ filter_by (λ o. not (is_object (bucket, key) o)) objects)

  -- `get_presigned_url`
  unfoldable pub get_presigned_url : Text → Text → Reply Text
  get_presigned_url tenant_id path = do
    _ ← validate_tenant_path tenant_id path
    let (bucket, key) = split_path path
    client.presigned_get_object bucket key

  -- `delete_file`
  unfoldable pub delete_file :
      Text → Text → List (Text × Text) → Reply (Unit {0}) × List (Text × Text)
  delete_file tenant_id path objects = elim (validate_tenant_path tenant_id path) [
    | answer _ ↦
        let (bucket, key) = split_path path in
        attempted (client.remove_object bucket key) tt objects
          (filter_by (λ o. not (is_object (bucket, key) o)) objects)
    | problem status detail ↦ (problem status detail, objects)
    | crashed e ↦ (crashed e, objects)
  ]
