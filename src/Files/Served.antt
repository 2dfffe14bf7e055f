-- ===== src/Files/Served.antt =====
-- A file that was uploaded is the file that its owner downloads (`FileService.upload` and
-- `FileService.download`).
use sd_platform.Common.{
  ◌≡◌, refl, ap, sym, ◌∙◌, ℕ, String, Bool, true, false, not, ◌&&◌, List, [], ◌∷◌, ◌++◌, Option,
  none, some, ltb, leb, ◌==◌, arith, inl, inr, eq_iff, eq→==, Bool-cases, first_where,
  first_where-append, exists_where, is_none, is_empty, length, Result, ok, test_passed, Instant,
  require_utc,
}
use sd_platform.Common.{require as check}
use sd_platform.Common.Actions.{Exec, pure, lift, bind_ok, lift_ok, ◌>>=◌, ◌>>◌}
use sd_platform.Db.{Db, is_clean}
use sd_platform.World.{outside_ok, World, outside}
use sd_platform.Files.{FileTexts, file_error, safe_name, detect_media_type}
use sd_platform.Files.Upload.{
  FileMetadata, FileGateway, Upload, with_id, row_of_file, save, get_file, metadata_of, keep,
  scanned, upload, download, is_owned,
}

-- A search that fails in a table finds the row that is added to it.
first_where-added {ℓ} :
    {A : Type ℓ} (test : A → Bool) (rows : List A) (r : A)
    → exists_where test rows ≡ false
    → test r ≡ true
    → first_where test (rows ++ r ∷ []) ≡ some r
unfolding first_where
first_where-added test rows r absent hit =
    let empty : is_none (first_where test rows) ≡ true = ground (arith, absent) in
    rw (first_where-append test rows (r ∷ [])) (rw empty (rw hit refl))

same_result :
    {W A : Type 0} (a b : A) (s t : W)
    → ◌≡◌ {A = Result A × W} (ok a, s) (ok b, t)
    → (b ≡ a) × (s ≡ t)
same_result a b s t e = (cc (ap (λ (p : Result _ × _). p.0) e), ap (λ (p : Result _ × _). p.1) e)

owner_positive : (owner : ℕ) (task : Option ℕ) → is_owned owner task ≡ true → ltb 0 owner ≡ true
owner_positive owner none e = e
owner_positive owner (some task_id) e = ground (arith, e)

module _ {W : Type 0} (texts : FileTexts) (gateway : FileGateway W) (max_bytes : ℕ) where
  -- What a call that saves its row leaves.
  saved :
      (m : FileMetadata) (s s' : World W)
      → keep texts gateway max_bytes m s ≡ (ok tt, s')
      → (exists_where (with_id m.file_id) s.db.file_object ≡ false)
        × (s' ≡ record s {
          db = record s.db { file_object = s.db.file_object ++ row_of_file m ∷ [] };
        })
  unfolding keep save
  saved m s s' e = elim (Bool-cases (exists_where (with_id m.file_id) s.db.file_object)) [
    | inl there ↦
        let (u, t, f, bad) =
          bind_ok (outside (gateway.delete m.storage_key)) _ s tt s' (rw there at e) in
        cc bad
    | inr absent ↦ (absent, ap (λ (p : Result (Unit {0}) × World W). p.1) (sym (rw absent at e)))
  ]

  -- What an upload that gives a file has done.
  pub record IsUpload (u : Upload) (m : FileMetadata) (s' : World W) : Type 0 where
    pub owned : ltb 0 u.owner_person_id ≡ true
    pub name : String
    pub media_type : String
    pub at : Instant
    pub key : String
    pub before : World W
    pub stored_in : W
    pub stored : gateway.put u.file_id u.bytes false stored_in ≡ (ok key, before.outside)
    pub told : m ≡ metadata_of texts gateway max_bytes u name media_type true key at
    pub absent : exists_where (with_id m.file_id) before.db.file_object ≡ false
    pub after : s' ≡ record before {
      db = record before.db { file_object = before.db.file_object ++ row_of_file m ∷ [] };
    }

  -- From the store of the bytes on, an upload of a verdict goes on like this.
  abbrev putting :
      Upload → (name media_type : String) → Instant → Bool → Exec (World W) FileMetadata
  putting u name media_type at clean = do
    storage_key ← outside (gateway.put u.file_id u.bytes (not clean))
    let m = metadata_of texts gateway max_bytes u name media_type clean storage_key at
    keep texts gateway max_bytes m
    lift (check clean (file_error "FILE_REJECTED" 422))
    pure m

  put_ok :
      (u : Upload) (m : FileMetadata) (s' : World W) (name media_type : String) (at : Instant)
      → ltb 0 u.owner_person_id ≡ true
      → (clean : Bool) (t : World W) → putting u name media_type at clean t ≡ (ok m, s')
      → IsUpload u m s'
  put_ok u m s' name media_type at owned false t e =
      let (key, before, put, e7) =
        bind_ok (outside (gateway.put u.file_id u.bytes true)) _ t m s' e in
      let (u8, after, keeping, e8) =
        bind_ok
          (keep texts gateway max_bytes
            (metadata_of texts gateway max_bytes u name media_type false key at))
          _ before m s' e7 in
      cc e8
  put_ok u m s' name media_type at owned true t e =
      let (key, before, put, e7) =
        bind_ok (outside (gateway.put u.file_id u.bytes false)) _ t m s' e in
      let n = metadata_of texts gateway max_bytes u name media_type true key at in
      let (u8, after, keeping, e8) = bind_ok (keep texts gateway max_bytes n) _ before m s' e7 in
      let told : m ≡ n = (same_result n m after s' e8).0 in
      let here : after ≡ s' = (same_result n m after s' e8).1 in
      let (absent, changed) = saved n before after keeping in
      record {
        owned = owned;
        name = name;
        media_type = media_type;
        at = at;
        key = key;
        before = before;
        stored_in = t.outside;
        stored = (outside_ok (gateway.put u.file_id u.bytes false) t key before put).0;
        told = told;
        absent =
            ap (λ (k : FileMetadata). exists_where (with_id k.file_id) before.db.file_object) told
            ∙ absent;
        after =
            sym here
            ∙ (changed
                ∙ ap
                    (λ (k : FileMetadata). record before {
                      db = record before.db {
                        file_object = before.db.file_object ++ row_of_file k ∷ [];
                      };
                    })
                    (sym told));
      }

  upload_ok :
      (u : Upload) (m : FileMetadata) (s s' : World W)
      → upload texts gateway max_bytes u s ≡ (ok m, s')
      → IsUpload u m s'
  unfolding upload
  upload_ok u m s s' e =
      let (at, read, e1) = lift_ok (require_utc u.now) _ s m s' e in
      let (u2, owned, e2) =
        lift_ok (check (is_owned u.owner_person_id u.task_id) (file_error "FILE_OWNER_INVALID" 422))
          _ s m s' e1 in
      let (name, named, e3) = lift_ok (safe_name texts u.original_name) _ s m s' e2 in
      let (u4, sized, e4) =
        lift_ok
          (check (ltb 0 (length u.bytes) && leb (length u.bytes) max_bytes)
            (file_error "FILE_SIZE_INVALID" 413))
          _ s m s' e3 in
      let (media_type, typed, e5) =
        lift_ok (detect_media_type texts u.bytes u.declared_media_type) _ s m s' e4 in
      let (clean, t, scan, e6) =
        bind_ok (λ s. scanned (outside (gateway.scan u.bytes media_type) s)) _ s m s' e5 in
      put_ok u m s' name media_type at
        (owner_positive u.owner_person_id u.task_id (test_passed _ _ owned)) clean t e6

  -- What a download that passes all its tests answers.
  served :
      (m : FileMetadata) (bytes : List ℕ) (person : ℕ) (roles : List String) (s : World W)
      → is_empty m.file_id ≡ false
      → ltb 0 person ≡ true
      → get_file m.file_id s.db ≡ some m
      → is_clean m.state ≡ true
      → (m.owner_person_id == person) ≡ true
      → gateway.get m.storage_key s.outside ≡ (ok bytes, s.outside)
      → download texts gateway max_bytes m.file_id person roles s ≡ (ok (m, bytes), s)
  unfolding download
  served m bytes person roles s named positive found clean own given =
      rw named (rw positive (rw found (rw clean (rw own (rw given refl)))))

  -- The row that is saved is the metadata that it was made of.
  read_back :
      (m : FileMetadata) (db : Db)
      → exists_where (with_id m.file_id) db.file_object ≡ false
      → get_file m.file_id (record db { file_object = db.file_object ++ row_of_file m ∷ [] })
        ≡ some m
  unfolding get_file
  read_back m db absent =
      rw
        (first_where-added (with_id m.file_id) db.file_object (row_of_file m) absent
          ((eq_iff m.file_id m.file_id).1 refl))
        refl

  -- A file that an upload answers with is what its owner gets back: the same metadata and the bytes
  -- that were sent, and the download changes no table. It is supposed that the drawn id is not empty,
  -- and that the object store gives back what it was given.
  pub upload-download :
      ((file_id key : String) (bytes : List ℕ) (quarantined : Bool) (w w' : W)
        → gateway.put file_id bytes quarantined w ≡ (ok key, w')
        → gateway.get key w' ≡ (ok bytes, w'))
      → (u : Upload) (m : FileMetadata) (roles : List String) (s s' : World W)
      → is_empty u.file_id ≡ false
      → upload texts gateway max_bytes u s ≡ (ok m, s')
      → download texts gateway max_bytes m.file_id u.owner_person_id roles s'
        ≡ (ok (m, u.bytes), s')
  upload-download gives u m roles s s' drawn e =
      let h = upload_ok u m s s' e in
      let given : gateway.get h.key h.before.outside ≡ (ok u.bytes, h.before.outside) =
        gives u.file_id h.key u.bytes false h.stored_in h.before.outside h.stored in
      let key : m.storage_key ≡ h.key = ap (λ (k : FileMetadata). k.storage_key) h.told in
      let same : s'.outside ≡ h.before.outside = ap (λ (t : World W). t.outside) h.after in
      served m u.bytes u.owner_person_id roles s'
        (ap (λ (k : FileMetadata). is_empty k.file_id) h.told ∙ drawn) h.owned
        (ap (λ (t : World W). get_file m.file_id t.db) h.after ∙ read_back m h.before.db h.absent)
        (ap (λ (k : FileMetadata). is_clean k.state) h.told)
        (ap (λ (k : FileMetadata). k.owner_person_id == u.owner_person_id) h.told ∙ eq→== _ _ refl)
        (rw (key, same) given)
