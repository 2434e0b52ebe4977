-- ===== src/Api/Handler/Kept.antt =====
-- internal/api/handler.go: every handler leaves the store as the content-addressed store has to be.
use omni_blob.Base.{
  ℕ, ◌≡◌, refl, sym, ap, ◌∙◌, inl, inr, Bool, true, false, Option, none, some, List, [], ◌∷◌, arith,
  if◌then◌else◌, Bool-cases, Option-cases, All, Text, codes, text_eq,
}
use omni_blob.FilePath.{slash, join}
use omni_blob.FileSystem.{FileSystem}
use omni_blob.Http.{Request}
use omni_blob.Storage.{Saved, Outcome, saved, error, save_cas, object_path, object_rel, temp_path}
use omni_blob.Storage.Objects.{IsCas}
use omni_blob.Storage.Cas.Keeps.{Keeps, save_cas-Keeps}
use omni_blob.Entity.{BinaryFile}
use omni_blob.Repository.BinaryFiles.{Files, insert_file}
use omni_blob.Api.Handler.{World, Handler, Env, Luck}
use omni_blob.Api.Handler.RoundTrip.{IsIndexed, insert_object-IsIndexed}
use omni_blob.Api.Handler.Upload.{
  Part, Form, malformed, no_file, with_file, UploadReply, refused, object_of, add_sidecar,
  index_upload, store_part, upload, upload_row, check_part,
}
use omni_blob.Api.Handler.Bulk.{
  BulkPart, BulkForm, malformed_form, parsed_form, bulk_parts, bulk_one, bulk_all, bulk_row,
  process, bulk_upload,
}

module _ (h : Handler) (env : Env) (b : Text) (root : h.storage.root_path ≡ slash ∷ b) where
  -- The objects stand under their hashes, and the table names their paths.
  abbrev pub IsKept : World → Type 0
  IsKept w = IsCas env.sha h.storage w.disk × IsIndexed w.objects

  -- Other requests keep the objects and leave the temporary file of this one alone, and closing it
  -- does not fail.
  abbrev pub IsFriendly : Luck → Type 0
  IsFriendly luck =
      ((fs : FileSystem) → IsCas env.sha h.storage fs → IsCas env.sha h.storage (luck.others fs))
      × ((fs : FileSystem)
          → luck.others fs (temp_path h.storage luck.nano) ≡ fs (temp_path h.storage luck.nano))
      × (luck.faults.lost ≡ none)

  -- The sidecar of an object is no object.
  abbrev pub IsAside : Type 0
  IsAside =
      (p : Text) (f : BinaryFile) (fs : FileSystem) (bs : List ℕ)
      → env.save_metadata_sidecar p f fs (object_path h.storage (env.sha.sum bs))
        ≡ fs (object_path h.storage (env.sha.sum bs))

  -- Around all the parts of a form nothing else is done to the objects.
  abbrev pub FormFriendly : BulkForm → Type 0
  FormFriendly malformed_form = Unit
  FormFriendly (parsed_form files fallback) =
      All (λ p. IsFriendly p.luck) (bulk_parts files fallback)

  module _ (aside : IsAside) where
    sidecar-IsCas :
        (result : Saved) (disk : FileSystem) (x : Files × Option BinaryFile)
        → IsCas env.sha h.storage disk
        → IsCas env.sha h.storage (add_sidecar env h result disk x)
    sidecar-IsCas result disk (t, none) c = c
    sidecar-IsCas result disk (t, some f) c = λ bs n e.
        c bs n (sym (aside (join (h.storage.root_path ∷ result.rel_path ∷ [])) f disk bs) ∙ e)

    index_upload-IsKept :
        (luck : Luck) (row : BinaryFile) (result : Saved) (w : World)
        → result.rel_path ≡ object_rel result.checksum
        → IsKept w
        → IsKept (index_upload h env luck row result w).0
    unfolding index_upload
    index_upload-IsKept luck row result w path (cas, indexed) = (
      sidecar-IsCas result w.disk (insert_file luck.next_up luck.files_up luck.now row w.files) cas,
      insert_object-IsIndexed luck.objects_up (object_of result) w.objects path indexed,
    )

    outcome-IsKept :
        (luck : Luck) (row : Saved → BinaryFile) (bs : List ℕ) (w : World) (disk : FileSystem)
        (out : Outcome)
        → IsIndexed w.objects
        → Keeps env.sha h.storage b root luck.nano bs (disk, out)
        → IsKept
            (elim out as (λ o. World × UploadReply) [
              | error e ↦ (record w { disk = disk }, refused 500)
              | saved result ↦
                  index_upload h env luck (row result) result (record w { disk = disk })
            ]).0
    outcome-IsKept luck row bs w disk (error e) indexed (cas, ok) = (cas, indexed)
    outcome-IsKept luck row bs w disk (saved r) indexed (cas, ok) =
        let is = ok r refl in
        index_upload-IsKept luck (row r) r (record w { disk = disk })
          (ap (λ x. x.rel_path) is ∙ ap object_rel (sym (ap (λ x. x.checksum) is))) (cas, indexed)

    store_part-IsKept :
        (luck : Luck) (row : Saved → BinaryFile) (part : Part) (w : World)
        → IsFriendly luck
        → IsKept w
        → IsKept (store_part h env luck row part w).0
    unfolding store_part
    store_part-IsKept luck row part w (keep, alone, closes) (cas, indexed) =
        let run =
          save_cas env.sha h.storage luck.faults luck.others luck.nano luck.now part.content
            w.disk in
        outcome-IsKept luck row part.content.bytes w run.0 run.1 indexed (
          save_cas-Keeps env.sha h.storage b root luck.nano luck.others keep alone luck.faults
            luck.now part.content w.disk closes cas)

    pub upload-IsKept :
        (luck : Luck) (r : Request) (client : Option Text) (form : Form) (w : World)
        → IsFriendly luck
        → IsKept w
        → IsKept (upload h env luck r client form w).0
    unfolding upload
    upload-IsKept luck r client malformed w f k = ground (arith, k)
    upload-IsKept luck r client no_file w f k = ground (arith, k)
    upload-IsKept luck r client (with_file part) w f k =
        elim (Bool-cases (text_eq r.method (codes "POST"))) [
          | inr e ↦ rw (e, upload) k
          | inl e ↦ elim (Option-cases (check_part h env part)) [
            | inr (n, c) ↦ rw (e, upload, c) k
            | inl c ↦
                rw (e, upload, c)
                  (store_part-IsKept luck (upload_row env luck r client part) part w f k)
          ]
        ]

    either-IsKept :
        (opens : Bool) (x y : World × Option BinaryFile)
        → IsKept x.0
        → IsKept y.0
        → IsKept (if opens then x else y).0
    either-IsKept true x y k l = k
    either-IsKept false x y k l = l

    bulk_one-IsKept :
        (r : Request) (client : Option Text) (p : BulkPart) (w : World)
        → IsFriendly p.luck
        → IsKept w
        → IsKept (bulk_one h env r client p w).0
    unfolding bulk_one
    bulk_one-IsKept r client p w f k =
        either-IsKept p.opens _ (w, none)
          (store_part-IsKept p.luck (bulk_row env r client p) p.part w f k) k

    bulk_all-IsKept :
        (r : Request) (client : Option Text) (ps : List BulkPart) (w : World)
        → All (λ p. IsFriendly p.luck) ps
        → IsKept w
        → IsKept (bulk_all h env r client ps w).0
    unfolding bulk_all
    bulk_all-IsKept r client [] w f k = k
    bulk_all-IsKept r client (p ∷ ps) w f k =
        bulk_all-IsKept r client ps (bulk_one h env r client p w).0 f.1
          (bulk_one-IsKept r client p w f.0 k)

    process-IsKept :
        (r : Request) (client : Option Text) (ps : List BulkPart) (w : World)
        → All (λ p. IsFriendly p.luck) ps
        → IsKept w
        → IsKept (process h env r client ps w).0
    process-IsKept r client [] w f k = k
    process-IsKept r client (p ∷ ps) w f k = bulk_all-IsKept r client (p ∷ ps) w f k

    pub bulk_upload-IsKept :
        (r : Request) (client : Option Text) (form : BulkForm) (w : World)
        → FormFriendly form
        → IsKept w
        → IsKept (bulk_upload h env r client form w).0
    unfolding bulk_upload
    bulk_upload-IsKept r client malformed_form w f k = ground (arith, k)
    bulk_upload-IsKept r client (parsed_form files fallback) w f k =
        elim (Bool-cases (text_eq r.method (codes "POST"))) [
          | inr e ↦ rw (e, bulk_upload) k
          | inl e ↦ rw (e, bulk_upload) (process-IsKept r client (bulk_parts files fallback) w f k)
        ]
