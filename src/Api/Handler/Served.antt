-- ===== src/Api/Handler/Served.antt =====
-- internal/api/handler.go: what ServeFileByID sends for a record whose object is stored.
use omni_blob.Base.{
  ℕ, ◌^◌, ◌<◌, ◌≡◌, refl, sym, ap, ◌∙◌, Bool, true, false, Option, some, List, [], ◌∷◌, ◌++◌,
  length, Text, codes, is_empty, has_prefix, trim_prefix, has_byte, decimal, Assoc,
}
use omni_blob.FilePath.{slash, clean}
use omni_blob.FilePath.Inside.{clean-join}
use omni_blob.FileSystem.{FileSystem, file}
use omni_blob.Http.{Request}
use omni_blob.Storage.{object_path, object_rel, temp_path}
use omni_blob.Storage.Paths.{object_rel-text, given_of_length}
use omni_blob.Storage.Objects.{IsCas}
use omni_blob.Storage.Cas.{IsHonest}
use omni_blob.Storage.Files.{Opened, open_file, try_open, opened_node}
use omni_blob.Entity.{BinaryFile, PhysicalObject}
use omni_blob.Repository.BinaryFiles.{Files, get_by_id}
use omni_blob.Repository.Tables.{get_by_hash}
use omni_blob.Api.Handler.{World, Handler, Env, Luck, find_meta, in_bucket}
use omni_blob.Api.Handler.Serve.{
  streamed, serve_headers, serve_record, open_record, physical_path, serve_file_by_id, file_url,
}
use omni_blob.Api.Handler.Upload.{Part, with_file, created, upload}
use omni_blob.Api.Handler.Urls.{parse_int-decimal, bucket_and_id-file_url}
use omni_blob.Api.Handler.RoundTrip.{IsSound, IsUploaded, HasObject, upload_safe}

trim_rel : (h : Text) → trim_prefix (codes "objects/" ++ h) (slash ∷ []) ≡ codes "objects/" ++ h
unfolding trim_prefix has_prefix
trim_rel h = refl

try_open-readable :
    (readable : Text → Bool) (fs : FileSystem) (p : Text)
    → readable p ≡ true
    → try_open readable fs p ≡ opened_node p (fs (clean p))
unfolding try_open
try_open-readable readable fs p e = rw (e) refl

abbrev pub opened_file : Text → List ℕ → ℕ → Opened
opened_file p content time = record { bytes = content; mod_time = time; actual = p }

opened_node-file :
    (p : Text) (content : List ℕ) (time : ℕ)
    → opened_node p (some (file content time)) ≡ some (opened_file p content time)
unfolding opened_node
opened_node-file p content time = refl

pub find_meta-number :
    (n : ℕ) (t : Files) → n < 2 ^ 63 → find_meta true (decimal n) t ≡ get_by_id true n t
unfolding find_meta
find_meta-number n t h = rw (parse_int-decimal n h, find_meta) refl

module _ (h : Handler) (env : Env) (b : Text) (root : h.storage.root_path ≡ slash ∷ b) where
  clean-object_path : (sum : Text) → clean (object_path h.storage sum) ≡ object_path h.storage sum
  clean-object_path sum = rw (root) (clean-join b (object_rel sum))

  object_rel-trim :
      (sum : Text)
      → length sum ≡ 64
      → has_byte slash sum ≡ false
      → trim_prefix (object_rel sum) (slash ∷ []) ≡ object_rel sum
  object_rel-trim sum l w =
      let e = object_rel-text sum l w in
      ap (λ t. trim_prefix t (slash ∷ [])) e ∙ trim_rel sum ∙ sym e

  open_file-object :
      (fs : FileSystem) (sum : Text) (content : List ℕ) (time : ℕ)
      → length sum ≡ 64
      → has_byte slash sum ≡ false
      → env.readable (object_path h.storage sum) ≡ true
      → fs (object_path h.storage sum) ≡ some (file content time)
      → open_file h.storage env.readable fs (object_rel sum)
        ≡ some (opened_file (object_path h.storage sum) content time)
  unfolding open_file
  open_file-object fs sum content time l w readable there =
      let p : Text = object_path h.storage sum in
      let opens : try_open env.readable fs p ≡ some (opened_file p content time) =
        try_open-readable env.readable fs p readable
        ∙ ap (λ q. opened_node p (fs q)) (clean-object_path sum)
        ∙ ap (opened_node p) there
        ∙ opened_node-file p content time in
      rw (object_rel-trim sum l w, opens) refl

  physical_path-object :
      (luck : Luck) (f : BinaryFile) (t : Assoc PhysicalObject)
      → luck.objects_up ≡ true
      → length f.checksum ≡ 64
      → HasObject f.checksum t
      → physical_path luck f t ≡ object_rel f.checksum
  unfolding physical_path get_by_hash
  physical_path-object luck f t up l (o, there, path) =
      let given : is_empty f.checksum ≡ false = given_of_length f.checksum l in
      rw (given, physical_path, up, there) path

  open_record-first :
      (luck : Luck) (f : BinaryFile) (w : World) (o : Opened)
      → open_file h.storage env.readable w.disk (physical_path luck f w.objects) ≡ some o
      → open_record h env luck f w ≡ some o
  unfolding open_record
  open_record-first luck f w o e = rw (e) refl

  -- Bytes that are stored under the checksum of a record are what a request for it gets, in the
  -- bucket of its module or in the bucket "files".
  pub serve_file_by_id-stored :
      (luck : Luck) (r : Request) (bucket : Text) (f : BinaryFile) (w : World) (content : List ℕ)
      (time : ℕ)
      → luck.objects_up ≡ true
      → luck.files_up ≡ true
      → length f.checksum ≡ 64
      → has_byte slash f.checksum ≡ false
      → f.bin_id < 2 ^ 63
      → has_byte slash bucket ≡ false
      → in_bucket bucket f ≡ true
      → env.readable (object_path h.storage f.checksum) ≡ true
      → get_by_id true f.bin_id w.files ≡ some f
      → HasObject f.checksum w.objects
      → w.disk (object_path h.storage f.checksum) ≡ some (file content time)
      → serve_file_by_id h env luck r (file_url bucket f.bin_id) w
        ≡ streamed
            (serve_headers env r f)
            (opened_file (object_path h.storage f.checksum) content time)
  unfolding serve_file_by_id serve_record
  serve_file_by_id-stored luck r bucket f w content time ou fu l s small wb ib readable found ho
        there =
      let p = physical_path-object luck f w.objects ou l ho in
      let o = open_file-object w.disk f.checksum content time l s readable there in
      let e =
        open_record-first luck f w (opened_file (object_path h.storage f.checksum) content time)
          (ap (open_file h.storage env.readable w.disk) p ∙ o) in
      rw
        (
          bucket_and_id-file_url bucket f.bin_id wb,
          serve_file_by_id,
          fu,
          find_meta-number f.bin_id w.files small,
          found,
          ib,
          serve_record,
          e,
        )
        refl

module _ (h : Handler) (env : Env) (luck : Luck) (b : Text) (root : h.storage.root_path ≡ slash ∷ b)
    (others : (fs : FileSystem)
      → IsCas env.sha h.storage fs
      → IsCas env.sha h.storage (luck.others fs))
    (others_temp : (fs : FileSystem)
      → luck.others fs (temp_path h.storage luck.nano) ≡ fs (temp_path h.storage luck.nano))
    (sidecar : (p : Text) (f : BinaryFile) (fs : FileSystem) (bs : List ℕ)
      → env.save_metadata_sidecar p f fs (object_path h.storage (env.sha.sum bs))
        ≡ fs (object_path h.storage (env.sha.sum bs)))
    (sidecar_temp : (p : Text) (f : BinaryFile) (fs : FileSystem)
      → env.save_metadata_sidecar p f fs (temp_path h.storage luck.nano)
        ≡ fs (temp_path h.storage luck.nano))
    (up : luck.objects_up ≡ true) (honest : IsHonest luck.faults) where
  uploaded_served :
      (later : Luck) (r : Request) (bucket : Text) (bs : List ℕ) (f : BinaryFile) (w : World)
      → later.objects_up ≡ true
      → later.files_up ≡ true
      → ((p : Text) → env.readable p ≡ true)
      → f.bin_id < 2 ^ 63
      → has_byte slash bucket ≡ false
      → in_bucket bucket f ≡ true
      → IsUploaded h env luck b root bs f w
      → (o : Opened) × (serve_file_by_id h env later r (file_url bucket f.bin_id) w
          ≡ streamed (serve_headers env r f) o)
        × (env.sha.sum o.bytes ≡ env.sha.sum bs)
  uploaded_served later r bucket bs f w ou fu readable small wb ib
        (found, c, (content, time, there, hash), ho) =
      (
        opened_file (object_path h.storage f.checksum) content time,
        serve_file_by_id-stored h env b root later r bucket f w content time ou fu
            (ap length c ∙ env.sha.sum_length bs) (ap (has_byte slash) c ∙ env.sha.sum_whole bs)
            small wb ib (readable (object_path h.storage f.checksum)) found (rw (c) ho)
            (ap (λ t. w.disk (object_path h.storage t)) c ∙ there),
        hash,
      )

  -- What Upload answers 201 for is served afterwards: a request with the record's identifier, in the
  -- bucket of its module or in "files", gets bytes with the hash of those that were uploaded. It is
  -- assumed that the root is an absolute path, that the calls whose errors SaveCAS drops do not fail
  -- (Close and Remove of the temporary file, and a Stat for another reason than a missing file), that
  -- the store was sound, that other requests and the sidecar keep the objects and the temporary
  -- file, that the database answers, that files can be read, that the identifier fits in 63 bits and
  -- that the bucket has no slash.
  pub upload-serve :
      (r : Request) (client : Option Text) (part : Part) (w : World) (f : BinaryFile) (later : Luck)
      (r' : Request) (bucket : Text)
      → IsSound h env luck b root w
      → (upload h env luck r client (with_file part) w).1 ≡ created f
      → later.objects_up ≡ true
      → later.files_up ≡ true
      → ((p : Text) → env.readable p ≡ true)
      → f.bin_id < 2 ^ 63
      → has_byte slash bucket ≡ false
      → in_bucket bucket f ≡ true
      → (o : Opened) × (serve_file_by_id h env later r'
            (file_url bucket f.bin_id)
            (upload h env luck r client (with_file part) w).0
          ≡ streamed (serve_headers env r' f) o)
        × (env.sha.sum o.bytes ≡ env.sha.sum part.content.bytes)
  upload-serve r client part w f later r' bucket sound e ou fu readable small wb ib =
      let run = upload h env luck r client (with_file part) w in
      let safe =
        upload_safe h env luck b root others others_temp sidecar sidecar_temp up honest r client
          part w sound in
      uploaded_served later r' bucket part.content.bytes f run.0 ou fu readable small wb ib
        (safe.1 f e)
