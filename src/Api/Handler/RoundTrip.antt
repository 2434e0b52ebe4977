-- ===== src/Api/Handler/RoundTrip.antt =====
-- internal/api/handler.go, Upload: what it leaves in the store and in the tables.
use omni_blob.Base.{
  ℕ, ◌≡◌, refl, sym, ap, ◌∙◌, inl, inr, Bool, true, false, Option, none, some, List, [], ◌∷◌, arith,
  Bool-cases, Option-cases, Text, codes, text_eq, text_eq_iff, text_eq_refl, Assoc, lookup, insert,
  lookup-insert,
}
use omni_blob.FilePath.{slash, join}
use omni_blob.FileSystem.{FileSystem}
use omni_blob.Http.{Request}
use omni_blob.Storage.{Saved, Outcome, saved, error, save_cas, object_path, object_rel, temp_path}
use omni_blob.Storage.Objects.{IsCas, IsStored}
use omni_blob.Storage.Cas.{Settles, IsHonest, Commits-Settles, result_of, save_cas_safe}
use omni_blob.Entity.{BinaryFile, PhysicalObject}
use omni_blob.Repository.BinaryFiles.{Files, get_by_id, insert_file, prepare}
use omni_blob.Repository.BinaryFiles.Rows.{Inserted, insert_file-Inserted}
use omni_blob.Repository.Tables.{insert_object}
use omni_blob.Api.Handler.{World, Handler, Env, Luck}
use omni_blob.Api.Handler.Upload.{
  Part, with_file, UploadReply, refused, created, object_of, add_sidecar, inserted_reply,
  index_upload, store_part, upload, upload_row, check_part,
}

-- Every row of an object has the path that its hash names.
abbrev pub IsIndexed : Assoc PhysicalObject → Type 0
IsIndexed t = (h : Text) (o : PhysicalObject) → lookup h t ≡ some o → o.storage_path ≡ object_rel h

-- The row of the hash stands in the table.
abbrev pub HasObject : Text → Assoc PhysicalObject → Type 0
HasObject h t = (o : PhysicalObject) × (lookup h t ≡ some o) × (o.storage_path ≡ object_rel h)

insert-IsIndexed :
    (o : PhysicalObject) (t : Assoc PhysicalObject)
    → o.storage_path ≡ object_rel o.content_hash
    → IsIndexed t
    → IsIndexed (insert o.content_hash o t)
insert-IsIndexed o t e i h o' k =
    let l = sym (lookup-insert o.content_hash h o t) ∙ k in
    elim (Bool-cases (text_eq o.content_hash h)) [
      | inl same ↦
          let there : some o ≡ some o' = rw same at l in
          let name : o.content_hash ≡ h = (text_eq_iff o.content_hash h).0 same in
          let same_row : o ≡ o' = cc in
          sym (ap (λ x. x.storage_path) same_row) ∙ e ∙ ap object_rel name
      | inr other ↦ i h o' (rw other at l)
    ]

pub insert_object-IsIndexed :
    (up : Bool) (o : PhysicalObject) (t : Assoc PhysicalObject)
    → o.storage_path ≡ object_rel o.content_hash
    → IsIndexed t
    → IsIndexed (insert_object up o t)
unfolding insert_object
insert_object-IsIndexed false o t e i = i
insert_object-IsIndexed true o t e i = elim (Option-cases (lookup o.content_hash t)) [
  | inl n ↦ rw (n, insert_object) (insert-IsIndexed o t e i)
  | inr (old, h) ↦ rw (h, insert_object) i
]

insert_object-HasObject :
    (o : PhysicalObject) (t : Assoc PhysicalObject)
    → o.storage_path ≡ object_rel o.content_hash
    → IsIndexed t
    → HasObject o.content_hash (insert_object true o t)
unfolding insert_object
insert_object-HasObject o t e i = elim (Option-cases (lookup o.content_hash t)) [
  | inl n ↦
      rw (n, insert_object)
        (
          o,
          lookup-insert o.content_hash o.content_hash o t ∙ rw (text_eq_refl o.content_hash) refl,
          e,
        )
  | inr (old, h) ↦ rw (h, insert_object) (old, h, i o.content_hash old h)
]

row_found :
    (g : BinaryFile) (t : Files) (x : Files × Option BinaryFile)
    → Inserted g t x
    → (f : BinaryFile) → inserted_reply x.1 ≡ created f
    → (get_by_id true f.bin_id x.0 ≡ some f) × (f ≡ g)
row_found g t (u, none) i f e = absurd (ground arith)
row_found g t (u, some k) (same, free, found, rest) f e =
    let k_is_f : k ≡ f = cc in (rw (sym k_is_f, same) found, sym k_is_f ∙ same)

prepared_checksum :
    (luck : Luck) (t : Files) (row : BinaryFile)
    → (prepare luck.next_up luck.now t row).checksum ≡ row.checksum
unfolding prepare
prepared_checksum luck t row = refl

module _ (h : Handler) (env : Env) (luck : Luck) (b : Text)
    (root : h.storage.root_path ≡ slash ∷ b) where
  abbrev temp : Text
  temp = temp_path h.storage luck.nano

  -- The objects stand under their hashes, the table names their paths, and no temporary file of the
  -- request is there.
  abbrev pub IsSound : World → Type 0
  IsSound w = IsCas env.sha h.storage w.disk × IsIndexed w.objects × (w.disk temp ≡ none)

  abbrev pub IsUploaded : List ℕ → BinaryFile → World → Type 0
  IsUploaded bs f w =
      (get_by_id true f.bin_id w.files ≡ some f)
      × (f.checksum ≡ env.sha.sum bs)
      × IsStored env.sha h.storage b root luck.nano bs w.disk
      × HasObject (env.sha.sum bs) w.objects

  abbrev pub Uploads : List ℕ → (World × UploadReply) → Type 0
  Uploads bs run = IsSound run.0 × ((f : BinaryFile) → run.1 ≡ created f → IsUploaded bs f run.0)

  module _
      (others : (fs : FileSystem)
        → IsCas env.sha h.storage fs
        → IsCas env.sha h.storage (luck.others fs))
      (others_temp : (fs : FileSystem) → luck.others fs temp ≡ fs temp)
      (sidecar : (p : Text) (f : BinaryFile) (fs : FileSystem) (bs : List ℕ)
        → env.save_metadata_sidecar p f fs (object_path h.storage (env.sha.sum bs))
          ≡ fs (object_path h.storage (env.sha.sum bs)))
      (sidecar_temp : (p : Text) (f : BinaryFile) (fs : FileSystem)
        → env.save_metadata_sidecar p f fs temp ≡ fs temp)
      (up : luck.objects_up ≡ true) (honest : IsHonest luck.faults) where
    sidecar_keeps :
        (result : Saved) (disk : FileSystem) (x : Files × Option BinaryFile) (bs : List ℕ)
        → add_sidecar env h result disk x (object_path h.storage (env.sha.sum bs))
          ≡ disk (object_path h.storage (env.sha.sum bs))
    sidecar_keeps result disk (t, none) bs = refl
    sidecar_keeps result disk (t, some f) bs =
        sidecar (join (h.storage.root_path ∷ result.rel_path ∷ [])) f disk bs

    sidecar_keeps_temp :
        (result : Saved) (disk : FileSystem) (x : Files × Option BinaryFile)
        → add_sidecar env h result disk x temp ≡ disk temp
    sidecar_keeps_temp result disk (t, none) = refl
    sidecar_keeps_temp result disk (t, some f) =
        sidecar_temp (join (h.storage.root_path ∷ result.rel_path ∷ [])) f disk

    index_upload-Uploads :
        (row : BinaryFile) (bs : List ℕ) (result : Saved) (w : World)
        → row.checksum ≡ env.sha.sum bs
        → result ≡ result_of env.sha h.storage b root luck.nano bs
        → IsSound w
        → IsStored env.sha h.storage b root luck.nano bs w.disk
        → Uploads bs (index_upload h env luck row result w)
    unfolding index_upload
    index_upload-Uploads row bs result w c e (cas, indexed, clear) (content, time, there, hash) =
        let x : Files × Option BinaryFile =
          insert_file luck.next_up luck.files_up luck.now row w.files in
        let g : BinaryFile = prepare luck.next_up luck.now w.files row in
        let i : Inserted g w.files x =
          insert_file-Inserted luck.next_up luck.files_up luck.now row w.files in
        let path : result.rel_path ≡ object_rel result.checksum =
          ap (λ r. r.rel_path) e ∙ ap object_rel (sym (ap (λ r. r.checksum) e)) in
        (
          (
            λ bs' n k. cas bs' n (sym (sidecar_keeps result w.disk x bs') ∙ k),
            insert_object-IsIndexed luck.objects_up (object_of result) w.objects path indexed,
            sidecar_keeps_temp result w.disk x ∙ clear,
          ),
          λ f k.
              let (found, same) = row_found g w.files x i f k in
              (
                found,
                ap (λ r. r.checksum) same ∙ prepared_checksum luck w.files row ∙ c,
                (content, time, sidecar_keeps result w.disk x bs ∙ there, hash),
                rw (up, sym (ap (λ r. r.checksum) e))
                    (insert_object-HasObject (object_of result) w.objects path indexed),
              ),
        )

    refused-Uploads : (bs : List ℕ) (n : ℕ) (w : World) → IsSound w → Uploads bs (w, refused n)
    refused-Uploads bs n w sound = (sound, λ f k. absurd (ground arith))

    settled-Uploads :
        (row : Saved → BinaryFile) (bs : List ℕ) (w : World) (disk : FileSystem) (out : Outcome)
        → ((r : Saved) → (row r).checksum ≡ r.checksum)
        → IsIndexed w.objects
        → Settles env.sha h.storage b root luck.nano bs (disk, out)
        → Uploads bs (elim out [
          | error e ↦ (record w { disk = disk }, refused 500)
          | saved result ↦ index_upload h env luck (row result) result (record w { disk = disk })
        ])
    settled-Uploads row bs w disk (error e) same indexed (cas, stored, clear) =
        refused-Uploads bs 500 (record w { disk = disk }) (cas, indexed, clear)
    settled-Uploads row bs w disk (saved r) same indexed (cas, stored, clear) =
        let (is, there) = stored r refl in
        index_upload-Uploads (row r) bs r (record w { disk = disk })
          (same r ∙ ap (λ x. x.checksum) is) is (cas, indexed, clear) there

    store_part-Uploads :
        (row : Saved → BinaryFile) (part : Part) (w : World)
        → ((r : Saved) → (row r).checksum ≡ r.checksum)
        → IsSound w
        → Uploads part.content.bytes (store_part h env luck row part w)
    unfolding store_part
    store_part-Uploads row part w same (cas, indexed, clear) =
        let run =
          save_cas env.sha h.storage luck.faults luck.others luck.nano luck.now part.content
            w.disk in
        settled-Uploads row part.content.bytes w run.0 run.1 same indexed (
          Commits-Settles env.sha h.storage b root luck.nano luck.faults part.content.bytes run
            honest
            (save_cas_safe env.sha h.storage b root luck.nano luck.others others others_temp
              luck.faults luck.now part.content w.disk honest.0 cas clear))

    -- Whatever fails of the calls whose errors the code looks at, Upload keeps the objects under
    -- their hashes and their rows in step, and leaves no temporary file. Where it answers 201, the
    -- record is in the table under its identifier, its checksum is the hash of the uploaded bytes,
    -- bytes of that hash are stored, and the hash has its row. It is assumed that the calls whose
    -- errors SaveCAS drops do not fail (Close and Remove of the temporary file, and a Stat for
    -- another reason than a missing file), that the root is an absolute path, that the store was so
    -- before, that other requests and the sidecar keep the objects and the temporary file, and that
    -- the table of objects answers.
    pub upload_safe :
        (r : Request) (client : Option Text) (part : Part) (w : World)
        → IsSound w
        → Uploads part.content.bytes (upload h env luck r client (with_file part) w)
    unfolding upload upload_row
    upload_safe r client part w sound = elim (Bool-cases (text_eq r.method (codes "POST"))) [
      | inr other ↦ rw (other, upload) (refused-Uploads part.content.bytes 405 w sound)
      | inl post ↦ elim (Option-cases (check_part h env part)) [
        | inr (n, e) ↦ rw (post, upload, e) (refused-Uploads part.content.bytes n w sound)
        | inl e ↦
            rw (post, upload, e)
              (store_part-Uploads (upload_row env luck r client part) part w (λ x. refl) sound)
      ]
    ]
