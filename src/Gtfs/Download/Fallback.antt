-- ===== src/Gtfs/Download/Fallback.antt =====
-- What the copy on disk of pkg/gtfs/downloader.go is good for, and when it is in the way.
use wabus_backend.Prelude.{
  ℕ, ◌≡◌, ◌≢◌, ◌∙◌, ap, refl, sym, subst, string_key, Bool, true, false, not, ◌==◌, Option, none,
  some, List, [], ◌∷◌, arith, String, if◌then◌else◌, ltb_text, All, Bool-cases, inl, inr,
}
use wabus_backend.GoMap.{GoMap, lookup, insert}
use wabus_backend.GoMap.Laws.{lookup-insert}
use wabus_backend.Gtfs.Download.{
  CacheMetadata, Disk, Exchange, no_response, response, written, DownloadAttempt, load_metadata,
  request_headers, open_zip, load_from_cache, save_to_cache, on_body, on_exchange, download,
  run_downloads,
}

-- The answer has status 200.
abbrev pub is_full : {D : Type 0} → Exchange D → Bool
is_full no_response = false
is_full (response status etag last_modified body) = status == 200

-- The request can be made, and is not answered with a body, whatever its headers: the network fails,
-- or the server reports an error or that nothing has changed.
abbrev pub IsBodiless : {D : Type 0} → DownloadAttempt D → Type 0
IsBodiless a =
    (a.url_ok ≡ true) × ((headers : GoMap String String) → is_full (a.server headers) ≡ false)

headers_apart : ◌≢◌ {A = String} "If-Modified-Since" "If-None-Match"
headers_apart e = let order : true ≡ false = ap (λ x. ltb_text x "If-None-Match") e in absurd (cc)

module _ {D : Type 0} (is_zip : D → Bool) (size_of : D → ℕ) where
  on_exchange-bodiless :
      (a : DownloadAttempt D) (x : Exchange D) (disk : Disk D)
      → is_full x ≡ false
      → on_exchange is_zip size_of a x disk ≡ (load_from_cache is_zip size_of disk, disk)
  unfolding on_exchange
  on_exchange-bodiless a no_response disk h = refl
  on_exchange-bodiless a (response status etag last_modified body) disk h =
      elim (Bool-cases (status == 304)) [
        | inl unchanged ↦ rw unchanged refl
        | inr other ↦ rw (other, h) refl
      ]

  download-bodiless :
      (a : DownloadAttempt D) (disk : Disk D)
      → IsBodiless a
      → download is_zip size_of a disk ≡ (load_from_cache is_zip size_of disk, disk)
  unfolding download
  download-bodiless a disk (ok, h) =
      let headers = request_headers (load_metadata disk.meta_file) in
      ap (λ b. if not b then (none, disk) else on_exchange is_zip size_of a (a.server headers) disk)
        ok
      ∙ on_exchange-bodiless a (a.server headers) disk (h headers)

  -- Every result is `x`, and the disk stays as it is.
  abbrev GivesOnly : Option D → Disk D → List (DownloadAttempt D) → Disk D → Type 0
  GivesOnly x disk' attempts disk =
      All (λ o. o ≡ x) (run_downloads is_zip size_of attempts disk).0
      × ((run_downloads is_zip size_of attempts disk).1 ≡ disk')

  next_download :
      (a : DownloadAttempt D) (attempts : List (DownloadAttempt D)) (x : Option D) (disk : Disk D)
      → download is_zip size_of a disk ≡ (x, disk)
      → GivesOnly x disk attempts disk
      → GivesOnly x disk (a ∷ attempts) disk
  unfolding run_downloads
  next_download a attempts x disk e rest =
      let (results, kept) = subst (GivesOnly x disk attempts) (sym (ap (λ o. o.1) e)) rest in
      ((ap (λ o. o.0) e, results), kept)

  bodiless_run :
      (attempts : List (DownloadAttempt D)) (disk : Disk D)
      → All IsBodiless attempts
      → GivesOnly (load_from_cache is_zip size_of disk) disk attempts disk
  unfolding run_downloads
  bodiless_run [] disk h = (tt, refl)
  bodiless_run (a ∷ attempts) disk h =
      next_download a attempts _ disk (download-bodiless a disk h.0)
        (bodiless_run attempts disk h.1)

  -- After a download that was answered with an archive, and whose copy could be written, every
  -- further download gives that archive, as long as the network fails, or the server reports errors
  -- or that nothing has changed; also where the metadata could not be written.
  pub download_fallback :
      (a : DownloadAttempt D) (d : D) (etag last_modified : String)
      (attempts : List (DownloadAttempt D)) (disk : Disk D)
      → a.url_ok ≡ true
      → a.server (request_headers (load_metadata disk.meta_file))
        ≡ response 200 etag last_modified (some d)
      → is_zip d ≡ true
      → a.zip_write ≡ written
      → All IsBodiless attempts
      → All (λ o. o ≡ some d) (run_downloads is_zip size_of (a ∷ attempts) disk).0
  unfolding run_downloads download on_exchange on_body save_to_cache load_from_cache
  download_fallback a d etag last_modified attempts disk ok answered good saved h =
      let o = download is_zip size_of a disk in
      let first : o.0 ≡ some d = ground (arith, ok, answered, good, saved) in
      let copied : open_zip is_zip size_of o.1.zip_file ≡ some d =
        ground (arith, ok, answered, good, saved) in
      let (rest, _) = bodiless_run attempts o.1 h in
      (
        first,
        subst (λ x. All (λ r. r ≡ x) (run_downloads is_zip size_of attempts o.1).0) copied rest,
      )

  -- A server that answers a request for this version with 304.
  abbrev pub IsUnchanged : String → DownloadAttempt D → Type 0
  IsUnchanged etag a =
      (a.url_ok ≡ true)
      × ((headers : GoMap String String)
          → lookup "If-None-Match" headers ≡ some etag
          → (last_modified : String) × (body : Option D) × (a.server headers
              ≡ response 304 etag last_modified body))

  asks_version :
      (meta : CacheMetadata)
      → meta.etag ≢ ""
      → lookup "If-None-Match" (request_headers meta) ≡ some meta.etag
  unfolding request_headers
  asks_version meta tagged =
      let key : String = "If-None-Match" in
      let agent : GoMap String String = insert "User-Agent" "WaBus-Backend/1.0" [] in
      let tag = insert key meta.etag agent in
      ground (
        arith,
        tagged,
        headers_apart,
        lookup-insert key key meta.etag agent,
        lookup-insert key "If-Modified-Since" meta.last_modified tag,
      )

  -- When the copy of the archive is missing or broken and the metadata are there, with the tag of the
  -- version that the server has, every download fails until the server has another version: each
  -- request asks for a change only, and the answer that nothing has changed needs the copy.
  pub download_stuck :
      (attempts : List (DownloadAttempt D)) (disk : Disk D) (meta : CacheMetadata)
      → disk.meta_file ≡ some meta
      → meta.etag ≢ ""
      → load_from_cache is_zip size_of disk ≡ none
      → All (IsUnchanged meta.etag) attempts
      → All (λ o. o ≡ none) (run_downloads is_zip size_of attempts disk).0
  unfolding run_downloads download
  download_stuck attempts disk meta known tagged broken h = (stuck attempts h).0
    where
      failed :
          (a : DownloadAttempt D)
          → IsUnchanged meta.etag a
          → download is_zip size_of a disk ≡ (none, disk)
      failed a (ok, unchanged) =
          let headers = request_headers meta in
          let (last_modified, body, e) = unchanged headers (asks_version meta tagged) in
          ap
            (λ b.
              if not b
              then (none, disk)
              else on_exchange is_zip size_of a
                  (a.server (request_headers (load_metadata disk.meta_file))) disk)
            ok
          ∙ ap
              (λ m.
                on_exchange is_zip size_of a (a.server (request_headers (load_metadata m))) disk)
              known
          ∙ ap (λ x. on_exchange is_zip size_of a x disk) e
          ∙ on_exchange-bodiless a (response 304 meta.etag last_modified body) disk refl
          ∙ ap (λ x. (x, disk)) broken

      stuck :
          (attempts : List (DownloadAttempt D))
          → All (IsUnchanged meta.etag) attempts
          → GivesOnly none disk attempts disk
      stuck [] h = (tt, refl)
      stuck (a ∷ attempts) h =
          next_download a attempts none disk (failed a h.0) (stuck attempts h.1)
