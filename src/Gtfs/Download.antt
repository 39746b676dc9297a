-- ===== src/Gtfs/Download.antt =====
-- pkg/gtfs/downloader.go: the download of the archive, and its copy on disk. The server's answer to the
-- request is a function of the request's headers; `is_zip` says that `zip.NewReader` accepts the bytes.
pub mod Fallback
use wabus_backend.Prelude.{
  ℕ, pos, Bool, true, false, not, ◌==◌, Option, none, some, List, [], ◌∷◌, String, string_key, same,
  if◌then◌else◌,
}
use wabus_backend.Domain.{Time}
use wabus_backend.GoMap.{GoMap, insert}

pub record CacheMetadata : Type 0 where
  pub etag : String
  pub last_modified : String
  pub downloaded_at : Time
  pub size_bytes : ℕ

-- The files gtfs.zip and gtfs_meta.json: none is a file that is missing or cannot be read.
pub record Disk (D : Type 0) : Type 0 where
  pub zip_file : Option D
  pub meta_file : Option CacheMetadata

-- What `client.Do` gives: an error, or a response; its body may break off.
pub data Exchange (D : Type 0) : Type 0 where
  no_response : Exchange D
  response : ℕ → String → String → Option D → Exchange D

-- How the writes of `saveToCache` end: written, or else with what is left of the file.
pub data Write (A : Type 0) : Type 0 where
  written : Write A
  spoiled : Option A → Write A

-- One call of `Download`: whether the request can be made, the server, and the disk.
pub record DownloadAttempt (D : Type 0) : Type 0 where
  pub now : Time
  pub url_ok : Bool
  pub server : GoMap String String → Exchange D
  pub zip_write : Write D
  pub meta_write : Write CacheMetadata

abbrev no_metadata : CacheMetadata
no_metadata = record { etag = ""; last_modified = ""; downloaded_at = pos 0; size_bytes = 0 }

-- `loadMetadata`
abbrev pub load_metadata : Option CacheMetadata → CacheMetadata
load_metadata none = no_metadata
load_metadata (some meta) = meta

unfoldable pub request_headers : CacheMetadata → GoMap String String
request_headers meta =
    let agent = insert "User-Agent" "WaBus-Backend/1.0" [] in
    let tagged =
      if not (same meta.etag "") then insert "If-None-Match" meta.etag agent else agent in
    if not (same meta.last_modified "")
    then insert "If-Modified-Since" meta.last_modified tagged
    else tagged

abbrev pub write_file : {A : Type 0} → Write A → A → Option A
write_file written a = some a
write_file (spoiled left) a = left

module _ {D : Type 0} (is_zip : D → Bool) (size_of : D → ℕ) where
  abbrev pub open_zip : Option D → Option D
  open_zip none = none
  open_zip (some d) = if is_zip d then some d else none

  unfoldable pub load_from_cache : Disk D → Option D
  load_from_cache disk = open_zip disk.zip_file

  -- `saveToCache`: without the archive the metadata are not written.
  unfoldable pub save_to_cache : DownloadAttempt D → D → String → String → Disk D → Disk D
  save_to_cache a d etag last_modified disk = elim a.zip_write [
    | spoiled left ↦ record disk { zip_file = left }
    | written ↦ record {
      zip_file = some d;
      meta_file = write_file a.meta_write (record {
        etag = etag;
        last_modified = last_modified;
        downloaded_at = a.now;
        size_bytes = size_of d;
      });
    }
  ]

  -- The response has status 200.
  unfoldable pub on_body :
      DownloadAttempt D → String → String → Option D → Disk D → Option D × Disk D
  on_body a etag last_modified none disk = (none, disk)
  on_body a etag last_modified (some d) disk =
      if is_zip d then (some d, save_to_cache a d etag last_modified disk) else (none, disk)

  unfoldable pub on_exchange : DownloadAttempt D → Exchange D → Disk D → Option D × Disk D
  on_exchange a no_response disk = (load_from_cache disk, disk)
  on_exchange a (response status etag last_modified body) disk =
      let saved = on_body a etag last_modified body disk in
      if status == 304
      then (load_from_cache disk, disk)
      else if not (status == 200)
      then (load_from_cache disk, disk)
      else saved

  unfoldable pub download : DownloadAttempt D → Disk D → Option D × Disk D
  download a disk =
      if not a.url_ok
      then (none, disk)
      else on_exchange a (a.server (request_headers (load_metadata disk.meta_file))) disk

  -- The downloads that the ingestor's ticker sets off, with what each returns.
  unfoldable pub run_downloads : List (DownloadAttempt D) → Disk D → List (Option D) × Disk D
  run_downloads [] disk = ([], disk)
  run_downloads (a ∷ attempts) disk =
      let o = download a disk in let rest = run_downloads attempts o.1 in (o.0 ∷ rest.0, rest.1)
