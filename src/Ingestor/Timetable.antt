-- ===== src/Ingestor/Timetable.antt =====
-- internal/ingestor/gtfs_ingestor.go: the updates of the timetable store. The archive's bytes, their
-- fingerprint and the parser are parameters; the cache of parsed results on disk (pkg/gtfs) is a map.
pub mod Unseen
use wabus_backend.Prelude.{
  ℕ, suc, ◌≡◌, Bool, true, false, not, Option, none, some, List, [], ◌∷◌, String, string_key,
  if◌then◌else◌,
}
use wabus_backend.Domain.{Time}
use wabus_backend.GoMap.{GoMap, lookup, insert}
use wabus_backend.Gtfs.{Feed}
use wabus_backend.Gtfs.Store.{GtfsStore, new_gtfs_store, update_all}

-- `updates` counts the calls of `onUpdate`.
pub record GtfsIngestor (F : Type 0) : Type 0 where
  pub store : GtfsStore F
  pub ready : Bool
  pub cache : GoMap String (Feed F)
  pub updates : ℕ

-- One call of `update`: what the download returns, none for an error, and whether the file of the
-- cache can be read, and can be written.
pub record Attempt (D : Type 0) : Type 0 where
  pub now : Time
  pub downloaded : Option D
  pub readable : Bool
  pub writable : Bool

module _ {F : Type 0} where
  -- The cache is what the directory holds from before, such as a run of another build.
  unfoldable pub new_gtfs_ingestor : GoMap String (Feed F) → GtfsIngestor F
  new_gtfs_ingestor disk = record {
    store = new_gtfs_store;
    ready = false;
    cache = disk;
    updates = 0;
  }

  -- The end of `update`.
  unfoldable pub install : Time → Feed F → GtfsIngestor F → GtfsIngestor F
  install now feed i = record i {
    store = update_all feed now i.store;
    ready = if not i.ready then true else i.ready;
    updates = suc i.updates;
  }

  -- `SaveParsedResult`
  unfoldable pub save_parsed : Bool → String → Feed F → GtfsIngestor F → GtfsIngestor F
  save_parsed writable key feed i =
      if writable then record i { cache = insert key feed i.cache } else i

  -- The archive is parsed, and the result is kept.
  unfoldable pub on_parsed :
      {D : Type 0} → Attempt D → String → Option (Feed F) → GtfsIngestor F → GtfsIngestor F
  on_parsed a key none i = i
  on_parsed a key (some feed) i = install a.now feed (save_parsed a.writable key feed i)

  -- `LoadParsedResult`
  unfoldable pub load_parsed : Bool → String → GtfsIngestor F → Option (Feed F)
  load_parsed readable key i = if readable then lookup key i.cache else none

  module _ {D : Type 0} (fingerprint : D → String) (parse : D → Option (Feed F)) where
    -- The cached result is taken, if there is one.
    unfoldable pub on_loaded : Attempt D → D → Option (Feed F) → GtfsIngestor F → GtfsIngestor F
    on_loaded a d none i = on_parsed a (fingerprint d) (parse d) i
    on_loaded a d (some feed) i = install a.now feed i

    unfoldable pub on_downloaded : Attempt D → Option D → GtfsIngestor F → GtfsIngestor F
    on_downloaded a none i = i
    on_downloaded a (some d) i = on_loaded a d (load_parsed a.readable (fingerprint d) i) i

    unfoldable pub update_timetable : Attempt D → GtfsIngestor F → GtfsIngestor F
    update_timetable a i = on_downloaded a a.downloaded i

    -- `Start`: the updates that the ticker sets off, in order.
    unfoldable pub run_updates : List (Attempt D) → GtfsIngestor F → GtfsIngestor F
    run_updates [] i = i
    run_updates (a ∷ attempts) i = run_updates attempts (update_timetable a i)
