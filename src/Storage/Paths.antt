-- ===== src/Storage/Paths.antt =====
-- The paths that uploads return pass the checks of the calls that take them.
use stock_analyst.Shared.{
  Text, codes, List, [], ◌∷◌, ◌++◌, Bool, true, false, starts_with, ◌==◌, Bool-cases, Option-cases,
  Option, none, some, any, filter_by, not, same_text_refl, ◌≢◌, subst, ◌≡◌, refl, sym, ap, ◌∙◌, inl,
  inr, arith, All,
}
use mathlib.Core.List.{append_assoc}
use stock_analyst.Http.{Reply, answer, crashed, ended, refused}
use stock_analyst.Shared.Regex.{is_some}
use stock_analyst.Storage.{
  bucket_of, object_path, validate_tenant_path, split_path, Client, is_object, upload_file,
  get_presigned_url, delete_file, attempted,
}

pub starts_with-append : (s t : Text) → starts_with (s ++ t) s ≡ true
starts_with-append [] t = refl
starts_with-append (a ∷ s) t = ground (arith, starts_with-append s t)

-- No slash, as in the text of an identifier.
abbrev pub HasNoSlash : Text → Type 0
HasNoSlash = All (λ c. (c == b'/') ≡ false)

pub split_path-append :
    (bucket key : Text) → HasNoSlash bucket → split_path (bucket ++ (b'/' ∷ key)) ≡ (bucket, key)
unfolding split_path
split_path-append [] key h = refl
split_path-append (c ∷ bucket) key h = rw (h.0) (
    ap (λ (r : Text × Text). let q : Text × Text = (c ∷ r.0, r.1) in q)
      (split_path-append bucket key h.1))

-- A path that begins with a bucket and a slash is split behind the bucket.
pub split_path-bucket :
    (bucket path : Text)
    → HasNoSlash bucket
    → starts_with path (bucket ++ codes "/") ≡ true
    → (split_path path).0 ≡ bucket
unfolding split_path
split_path-bucket [] [] h e = refl
split_path-bucket [] (c ∷ path) h e = ground arith
split_path-bucket (b ∷ bucket) [] h e = absurd (ground arith)
split_path-bucket (b ∷ bucket) (c ∷ path) h e = ground (arith, split_path-bucket bucket path h.1)

object_path_assoc :
    (tenant_id coverage_id file_type file_name : Text)
    → object_path tenant_id coverage_id file_type file_name
      ≡ (bucket_of tenant_id ++ codes "/")
        ++ (file_type ++ (codes "/" ++ (coverage_id ++ (codes "/" ++ file_name))))
object_path_assoc tenant_id coverage_id file_type file_name =
    sym (append_assoc (bucket_of tenant_id) (codes "/") _)

validates :
    (tenant_id path : Text)
    → starts_with path (bucket_of tenant_id ++ codes "/") ≡ true
    → validate_tenant_path tenant_id path ≡ answer tt
unfolding validate_tenant_path
validates tenant_id path h = rw h refl

pub object_path-IsValid :
    (tenant_id coverage_id file_type file_name : Text)
    → validate_tenant_path tenant_id (object_path tenant_id coverage_id file_type file_name)
      ≡ answer tt
object_path-IsValid tenant_id coverage_id file_type file_name =
    validates tenant_id (object_path tenant_id coverage_id file_type file_name) (
      ap (λ (q : Text). starts_with q (bucket_of tenant_id ++ codes "/"))
        (object_path_assoc tenant_id coverage_id file_type file_name)
      ∙ starts_with-append (bucket_of tenant_id ++ codes "/") _)

same_bucket :
    (a b key : Text)
    → HasNoSlash a
    → HasNoSlash b
    → starts_with (a ++ (b'/' ∷ key)) (b ++ (b'/' ∷ [])) ≡ true
    → a ≡ b
same_bucket [] [] key h k e = refl
same_bucket [] (y ∷ b) key h k e = absurd (ground arith)
same_bucket (x ∷ a) [] key h k e = absurd (ground arith)
same_bucket (x ∷ a) (y ∷ b) key h k e = ground (arith, same_bucket a b key h.1 k.1)

-- The bucket of a tenant has no slash where its identifier has none.
pub bucket_of-HasNoSlash :
    (tenant_id : Text) → HasNoSlash tenant_id → HasNoSlash (bucket_of tenant_id)
bucket_of-HasNoSlash tenant_id h = (refl, (refl, (refl, (refl, (refl, (refl, (refl, h)))))))

pub any-filter_by {ℓ} :
    {A : Type ℓ} (p : A → Bool) (xs : List A) → any p (filter_by (λ x. not (p x)) xs) ≡ false
any-filter_by p [] = refl
any-filter_by p (x ∷ xs) = ground (arith, any-filter_by p xs)

-- A path of another tenant does not pass.
stranger-refused :
    (tenant_id other key : Text)
    → HasNoSlash tenant_id
    → HasNoSlash other
    → other ≢ tenant_id
    → validate_tenant_path other (bucket_of tenant_id ++ (b'/' ∷ key))
      ≡ crashed (codes "object_path does not belong to tenant")
unfolding validate_tenant_path
stranger-refused tenant_id other key plain plain' differs =
    elim (Bool-cases
      (starts_with (bucket_of tenant_id ++ (b'/' ∷ key)) (bucket_of other ++ codes "/"))) [
        | inl same ↦ absurd (differs (sym (same_bucket tenant_id other key plain plain' same)))
        | inr differs' ↦ rw differs' refl
      ]

-- What an upload returns, in the calls that take a path.
module _ (client : Client) (tenant_id coverage_id file_type file_name : Text) where
  abbrev key_of : Text
  key_of = file_type ++ (codes "/" ++ (coverage_id ++ (codes "/" ++ file_name)))

  abbrev stored_path : Text
  stored_path = object_path tenant_id coverage_id file_type file_name

  presign-stored :
      HasNoSlash tenant_id
      → get_presigned_url client tenant_id stored_path
        ≡ client.presigned_get_object (bucket_of tenant_id) key_of
  unfolding get_presigned_url
  presign-stored plain =
      rw
        (
          object_path-IsValid tenant_id coverage_id file_type file_name,
          split_path-append (bucket_of tenant_id) key_of (bucket_of-HasNoSlash tenant_id plain),
        )
        refl

  delete-stored :
      (objects : List (Text × Text))
      → HasNoSlash tenant_id
      → delete_file client tenant_id stored_path objects
        ≡ attempted client
            (client.remove_object (bucket_of tenant_id) key_of)
            tt
            objects
            (filter_by (λ o. not (is_object (bucket_of tenant_id, key_of) o)) objects)
  unfolding delete_file validate_tenant_path
  delete-stored objects plain =
      rw
        (
          object_path-IsValid tenant_id coverage_id file_type file_name,
          split_path-append (bucket_of tenant_id) key_of (bucket_of-HasNoSlash tenant_id plain),
        )
        refl

  abbrev key : Text × Text
  key = (bucket_of tenant_id, key_of)

  -- The end of an upload that returns.
  upload_stored :
      (path : Text) (before objects : List (Text × Text))
      → upload_file client tenant_id coverage_id file_type file_name before ≡ (answer path, objects)
      → (path ≡ stored_path) × (objects ≡ key ∷ filter_by (λ o. not (is_object key o)) before)
  unfolding upload_file
  upload_stored path before objects h =
      elim (Option-cases (client.put_object (bucket_of tenant_id) key_of)) [
        | inl put ↦
            let e : ◌≡◌ {A = Reply Text × List (Text × Text)}
                (answer stored_path, key ∷ filter_by (λ o. not (is_object key o)) before)
                (answer path, objects) =
              rw put at h in
            (
              ground (arith, ap (λ (q : Reply Text × List (Text × Text)). q.0) e),
              sym (ap (λ q. q.1) e),
            )
        | inr (e, failed) ↦
            absurd (ground (arith, failed, ap (λ (q : Reply Text × List (Text × Text)). q.0) h))
      ]

  any-deleted :
      (e : Option Text) (objects : List (Text × Text))
      → any (is_object key) objects ≡ true
      → any
          (is_object key)
          (attempted client e tt objects (filter_by (λ o. not (is_object key o)) objects)).1
        ≡ is_some e
  any-deleted none objects h = any-filter_by (is_object key) objects
  any-deleted (some e) objects h = h

  -- The calls of another tenant.
  stranger-stored :
      (objects : List (Text × Text)) (other : Text)
      → HasNoSlash tenant_id
      → HasNoSlash other
      → other ≢ tenant_id
      → (ended (get_presigned_url client other stored_path) ≡ refused)
        × ((delete_file client other stored_path objects).1 ≡ objects)
  unfolding get_presigned_url delete_file
  stranger-stored objects other plain plain' differs =
      let shut = stranger-refused tenant_id other key_of plain plain' differs in
      (rw (shut, get_presigned_url) refl, rw (shut, delete_file) refl)

  -- What a tenant uploads it can read and delete by the path that it was given: the calls reach the
  -- object that was stored. A call for another tenant is refused, and changes no object.
  pub upload_reachable :
      (path : Text) (before objects : List (Text × Text))
      → HasNoSlash tenant_id
      → upload_file client tenant_id coverage_id file_type file_name before ≡ (answer path, objects)
      → (any (is_object key) objects ≡ true)
        × (get_presigned_url client tenant_id path
            ≡ client.presigned_get_object (bucket_of tenant_id) key_of)
        × (any (is_object key) (delete_file client tenant_id path objects).1
            ≡ is_some (client.remove_object (bucket_of tenant_id) key_of))
        × ((other : Text)
            → HasNoSlash other
            → other ≢ tenant_id
            → (ended (get_presigned_url client other path) ≡ refused)
              × ((delete_file client other path objects).1 ≡ objects))
  upload_reachable path before objects plain h =
      let (here, now) = upload_stored path before objects h in
      let found : any (is_object key) objects ≡ true =
        ap (any (is_object key)) now
        ∙ ground (arith, same_text_refl (bucket_of tenant_id), same_text_refl key_of) in
      (
        found,
        ap (get_presigned_url client tenant_id) here ∙ presign-stored plain,
        ap (λ p. any (is_object key) (delete_file client tenant_id p objects).1) here
            ∙ ap (λ r. any (is_object key) r.1) (delete-stored objects plain)
            ∙ any-deleted (client.remove_object (bucket_of tenant_id) key_of) objects found,
        λ other plain' differs.
            subst
              (λ p.
                (ended (get_presigned_url client other p) ≡ refused)
                × ((delete_file client other p objects).1 ≡ objects))
              (sym here) (stranger-stored objects other plain plain' differs),
      )
