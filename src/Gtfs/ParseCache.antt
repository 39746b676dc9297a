-- ===== src/Gtfs/ParseCache.antt =====
-- pkg/gtfs/parse_cache.go: the parsed results on disk. A file is its name in the directory and its
-- content; `encode` is gob and gzip, `decode` the reverse.
pub mod Atomic
use wabus_backend.Prelude.{
  Bool, true, false, ◌&&◌, ◌||◌, not, Option, none, some, String, string_key, if◌then◌else◌, ◌<>◌,
}
use wabus_backend.GoMap.{GoMap, lookup, insert, delete}
use wabus_backend.Gtfs.{Feed}

unfoldable pub parsed_cache_path : String → String
parsed_cache_path fingerprint = "gtfs_parsed_v2_" <> fingerprint <> ".gob.gz"

-- What is decoded: the feed, and whether its maps of routes and of stops are there.
pub record Decoded (F : Type 0) : Type 0 where
  pub feed : Feed F
  pub has_routes : Bool
  pub has_stops : Bool

-- How the calls of one save end. `left` is what is in the temporary file when a write or a close
-- fails.
pub record SaveCalls (B : Type 0) : Type 0 where
  pub dir_ok : Bool
  pub create_ok : Bool
  pub writer_ok : Bool
  pub encode_ok : Bool
  pub close_ok : Bool
  pub file_close_ok : Bool
  pub rename_ok : Bool
  pub remove_ok : Bool
  pub left : B

-- `_ = os.Remove(tmpPath)`
abbrev pub remove_file : {B : Type 0} → Bool → String → GoMap String B → GoMap String B
remove_file ok path files = if ok then delete path files else files

abbrev pub complete : {F : Type 0} → Option (Decoded F) → Option (Feed F)
complete none = none
complete (some r) = if not r.has_routes || not r.has_stops then none else some r.feed

module _ {F B : Type 0} (encode : Feed F → B) (decode : B → Option (Decoded F)) where
  abbrev pub open_parsed : Option B → Option (Feed F)
  open_parsed none = none
  open_parsed (some b) = complete (decode b)

  -- `LoadParsedResult`; none is an error.
  unfoldable pub load_parsed_result : String → GoMap String B → Option (Feed F)
  load_parsed_result fingerprint files = open_parsed (lookup (parsed_cache_path fingerprint) files)

  -- `SaveParsedResult`: the files afterwards, and whether it went well.
  unfoldable pub save_parsed_result :
      SaveCalls B → String → Feed F → GoMap String B → GoMap String B × Bool
  save_parsed_result c fingerprint feed files =
      let path = parsed_cache_path fingerprint in
      let tmp = path <> ".tmp" in
      let whole = c.encode_ok && c.close_ok && c.file_close_ok in
      let content = if whole then encode feed else c.left in
      let created = insert tmp content files in
      if not c.dir_ok || not c.create_ok
      then (files, false)
      else if not c.writer_ok
      then (insert tmp c.left files, false)
      else if not whole
      then (remove_file c.remove_ok tmp created, false)
      else if not c.rename_ok
      then (remove_file c.remove_ok tmp created, false)
      else (insert path content (delete tmp created), true)
