-- ===== src/Ingestor/Timetable/Unseen.antt =====
-- The cache of internal/ingestor/gtfs_ingestor.go is not seen in the timetable store.
use wabus_backend.Prelude.{
  ◌≡◌, ◌∙◌, ap, refl, sym, Bool, true, false, ◌||◌, Option, none, some, List, [], ◌∷◌, arith,
  String, string_key, string_discrete, is_some,
}
use wabus_backend.Domain.{Time}
use wabus_backend.GoMap.{GoMap, lookup, insert}
use wabus_backend.GoMap.Laws.{lookup-insert}
use wabus_backend.Gtfs.{Feed}
use wabus_backend.Gtfs.Store.{GtfsStore, update_all}
use wabus_backend.Ingestor.Timetable.{
  GtfsIngestor, Attempt, new_gtfs_ingestor, install, save_parsed, on_parsed, on_loaded, load_parsed,
  on_downloaded, update_timetable, run_updates,
}

module _ {F D : Type 0} (fingerprint : D → String) (parse : D → Option (Feed F)) where
  -- What the cache holds for a fingerprint is what its archives parse to.
  abbrev pub IsSound : GoMap String (Feed F) → Type 0
  IsSound cache =
      (d : D) (feed : Feed F) → lookup (fingerprint d) cache ≡ some feed → parse d ≡ some feed

  -- An update without a cache.
  abbrev pub install_parsed : Time → Option (Feed F) → GtfsStore F → GtfsStore F
  install_parsed now none s = s
  install_parsed now (some feed) s = update_all feed now s

  abbrev pub parse_download : Option D → Option (Feed F)
  parse_download none = none
  parse_download (some d) = parse d

  -- The updates without a cache: each archive that is downloaded and parses is installed.
  unfoldable pub uncached : List (Attempt D) → GtfsStore F → GtfsStore F
  uncached [] s = s
  uncached (a ∷ attempts) s =
      uncached attempts (install_parsed a.now (parse_download a.downloaded) s)

  unfoldable pub some_parsed : List (Attempt D) → Bool
  some_parsed [] = false
  some_parsed (a ∷ attempts) = is_some (parse_download a.downloaded) || some_parsed attempts

  -- What one update does, and keeps.
  abbrev Updated : Attempt D → GtfsIngestor F → GtfsIngestor F → Type 0
  Updated a i i' =
      (i'.store ≡ install_parsed a.now (parse_download a.downloaded) i.store)
      × IsSound i'.cache
      × (i'.ready ≡ i.ready || is_some (parse_download a.downloaded))

  install-ready :
      (now : Time) (feed : Feed F) (i : GtfsIngestor F)
      → (install now feed i).ready ≡ i.ready || true
  unfolding install
  install-ready now feed i = ground arith

  module _ (distinct : (d e : D) → fingerprint d ≡ fingerprint e → d ≡ e) where
    insert-IsSound :
        (d : D) (feed : Feed F) (cache : GoMap String (Feed F))
        → parse d ≡ some feed
        → IsSound cache
        → IsSound (insert (fingerprint d) feed cache)
    insert-IsSound d feed cache p s e feed' h =
        elim (string_discrete (fingerprint d) (fingerprint e)) [
          | yes q ↦
              let stored : some feed ≡ some feed' =
                sym (ground (arith, q, lookup-insert (fingerprint e) (fingerprint d) feed cache))
                ∙ h in
              ap parse (sym (distinct d e q)) ∙ p ∙ stored
          | no q ↦
              s e feed'
                (ground (arith, q, h, lookup-insert (fingerprint e) (fingerprint d) feed cache))
        ]

    save_parsed-IsSound :
        (writable : Bool) (d : D) (feed : Feed F) (i : GtfsIngestor F)
        → parse d ≡ some feed
        → IsSound i.cache
        → IsSound (save_parsed writable (fingerprint d) feed i).cache
    unfolding save_parsed
    save_parsed-IsSound true d feed i p s = insert-IsSound d feed i.cache p s
    save_parsed-IsSound false d feed i p s = s

    save_parsed-frame :
        (writable : Bool) (key : String) (feed : Feed F) (i : GtfsIngestor F)
        → ((save_parsed writable key feed i).store ≡ i.store)
          × ((save_parsed writable key feed i).ready ≡ i.ready)
    unfolding save_parsed
    save_parsed-frame true key feed i = (refl, refl)
    save_parsed-frame false key feed i = (refl, refl)

    on_parsed-Updated :
        (a : Attempt D) (d : D) (o : Option (Feed F)) (i : GtfsIngestor F)
        → a.downloaded ≡ some d
        → parse d ≡ o
        → IsSound i.cache
        → Updated a i (on_parsed a (fingerprint d) o i)
    unfolding on_parsed install
    on_parsed-Updated a d none i e p s = rw (e, p) (refl, s, ground arith)
    on_parsed-Updated a d (some feed) i e p s =
        let (store, ready) = save_parsed-frame a.writable (fingerprint d) feed i in
        rw (e, p)
          (
            ap (update_all feed a.now) store,
            save_parsed-IsSound a.writable d feed i p s,
            ground (arith, ready),
          )

    on_loaded-Updated :
        (a : Attempt D) (d : D) (o : Option (Feed F)) (i : GtfsIngestor F)
        → a.downloaded ≡ some d
        → ((feed : Feed F) → o ≡ some feed → parse d ≡ some feed)
        → IsSound i.cache
        → Updated a i (on_loaded fingerprint parse a d o i)
    unfolding on_loaded install
    on_loaded-Updated a d none i e p s = on_parsed-Updated a d (parse d) i e refl s
    on_loaded-Updated a d (some feed) i e p s =
        let parsed = p feed refl in rw (e, parsed) (refl, s, ground arith)

    on_downloaded-Updated :
        (a : Attempt D) (o : Option D) (i : GtfsIngestor F)
        → a.downloaded ≡ o
        → IsSound i.cache
        → Updated a i (on_downloaded fingerprint parse a o i)
    unfolding on_downloaded load_parsed
    on_downloaded-Updated a none i e s = rw e (refl, s, ground arith)
    on_downloaded-Updated a (some d) i e s =
        on_loaded-Updated a d _ i e (λ feed h. s d feed (ground (arith, h))) s

    run_updates-uncached :
        (attempts : List (Attempt D)) (i : GtfsIngestor F)
        → IsSound i.cache
        → ((run_updates fingerprint parse attempts i).store ≡ uncached attempts i.store)
          × ((run_updates fingerprint parse attempts i).ready ≡ i.ready || some_parsed attempts)
    unfolding run_updates uncached update_timetable some_parsed
    run_updates-uncached [] i s = (refl, ground arith)
    run_updates-uncached (a ∷ attempts) i s =
        let i' = update_timetable fingerprint parse a i in
        let (store, sound, ready) = on_downloaded-Updated a a.downloaded i refl s in
        let (rest, ready') = run_updates-uncached attempts i' sound in
        (rest ∙ ap (uncached attempts) store, ready' ∙ ground (arith, ready))

  -- If no two archives share a fingerprint, and what the directory of parsed results holds at the
  -- start is what this parser gives: after any updates from the start, whatever fails in them and
  -- whether or not the cache could be read or written, the timetable is that of installing each
  -- archive that was downloaded and parses, so a failed update keeps the last one; and the ingestor is
  -- ready exactly if there was such an archive.
  pub cache_unseen :
      (attempts : List (Attempt D)) (disk : GoMap String (Feed F))
      → ((d e : D) → fingerprint d ≡ fingerprint e → d ≡ e)
      → IsSound disk
      → ((run_updates fingerprint parse attempts (new_gtfs_ingestor disk)).store
          ≡ uncached attempts (new_gtfs_ingestor disk).store)
        × ((run_updates fingerprint parse attempts (new_gtfs_ingestor disk)).ready
            ≡ some_parsed attempts)
  unfolding new_gtfs_ingestor
  cache_unseen attempts disk distinct sound =
      run_updates-uncached distinct attempts (new_gtfs_ingestor disk) sound
