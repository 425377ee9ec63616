-- ===== src/Documents/Tenants.antt =====
-- What a request of one tenant leaves alone: the rows, objects, points and tasks of the others.
use stock_analyst.Shared.{ℕ, Text, Bool, not, ◌==◌, filter_by, same_text, ◌≡◌, refl, ◌∙◌}
use stock_analyst.Http.{Reply, answer, problem, crashed}
use stock_analyst.Storage.{bucket_of}
use stock_analyst.Documents.{
  Coverage, DocumentRow, QueueRow, Rows, Job, IndexPoint, World, DocumentServices, M, then_run,
  ◌>>=◌, committed, request,
}

-- What one request may do outside the rows: nothing to the objects, points and tasks of another tenant.
module _ (s : DocumentServices) (tenant : ℕ) where
  abbrev pub other_object : Text × Text → Bool
  other_object o = not (same_text o.0 (bucket_of (s.show_uuid tenant)))

  abbrev pub other_point : IndexPoint → Bool
  other_point p = not (same_text p.tenant_id (s.show_uuid tenant))

  abbrev pub other_job : Job → Bool
  other_job j = not (same_text j.tenant_id (s.show_uuid tenant))

  abbrev pub other_coverage : Coverage → Bool
  other_coverage c = not (c.tenant_id == tenant)

  abbrev pub other_document : DocumentRow → Bool
  other_document d = not (d.tenant_id == tenant)

  abbrev pub other_queued : QueueRow → Bool
  other_queued q = not (q.tenant_id == tenant)

  -- The rows of the other tenants are the same.
  pub record SameRows (r r' : Rows) : Type 0 where
    pub coverages : filter_by other_coverage r'.coverages ≡ filter_by other_coverage r.coverages
    pub documents : filter_by other_document r'.documents ≡ filter_by other_document r.documents
    pub queue : filter_by other_queued r'.queue ≡ filter_by other_queued r.queue

  -- So is all that they have in the storage, the index and the queue of the workers.
  pub record Unseen (w w' : World) : Type 0 where
    pub rows : SameRows w.rows w'.rows
    pub objects : filter_by other_object w'.objects ≡ filter_by other_object w.objects
    pub points : filter_by other_point w'.points ≡ filter_by other_point w.points
    pub jobs : filter_by other_job w'.jobs ≡ filter_by other_job w.jobs

  pub same_rows : (r : Rows) → SameRows r r
  same_rows r = record { coverages = refl; documents = refl; queue = refl }

  pub unseen : (w : World) → Unseen w w
  unseen w = record { rows = same_rows w.rows; objects = refl; points = refl; jobs = refl }

  pub Unseen-trans : {u v w : World} → Unseen u v → Unseen v w → Unseen u w
  Unseen-trans a b = record {
    rows = record {
      coverages = b.rows.coverages ∙ a.rows.coverages;
      documents = b.rows.documents ∙ a.rows.documents;
      queue = b.rows.queue ∙ a.rows.queue;
    };
    objects = b.objects ∙ a.objects;
    points = b.points ∙ a.points;
    jobs = b.jobs ∙ a.jobs;
  }

  -- A handler leaves the others alone, and so does what follows where it answers.
  then-Unseen :
      {A B : Type 0} (w : World) (r : Reply A × World) (k : A → M B)
      → Unseen w r.1
      → ((a : A) → r.0 ≡ answer a → Unseen r.1 (k a r.1).1)
      → Unseen w (then_run r k).1
  then-Unseen w (answer a, w') k first rest = Unseen-trans first (rest a refl)
  then-Unseen w (problem status detail, w') k first rest = first
  then-Unseen w (crashed detail, w') k first rest = first

  pub bind-Unseen :
      {A B : Type 0} (m : M A) (k : A → M B) (w : World)
      → Unseen w (m w).1
      → ((a : A) → (m w).0 ≡ answer a → Unseen (m w).1 (k a (m w).1).1)
      → Unseen w ((m >>= k) w).1
  bind-Unseen m k w first rest = then-Unseen w (m w) k first rest

  rolled_back : (w w' : World) → Unseen w w' → Unseen w (record w' { rows = w.rows })
  rolled_back w w' h = record {
    rows = same_rows w.rows;
    objects = h.objects;
    points = h.points;
    jobs = h.jobs;
  }

  committed-Unseen :
      {A : Type 0} (w : World) (r : Reply A × World)
      → Unseen w r.1
      → Unseen w (committed w.rows r).1
  committed-Unseen w (answer a, w') h = h
  committed-Unseen w (problem status detail, w') h = rolled_back w w' h
  committed-Unseen w (crashed detail, w') h = rolled_back w w' h

  pub request-Unseen :
      {A : Type 0} (m : M A) (w : World) → Unseen w (m w).1 → Unseen w (request m w).1
  unfolding request
  request-Unseen m w h = committed-Unseen w (m w) h
