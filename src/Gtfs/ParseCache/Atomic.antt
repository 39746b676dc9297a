-- ===== src/Gtfs/ParseCache/Atomic.antt =====
-- A save of pkg/gtfs/parse_cache.go is atomic: it is seen whole or not at all.
use Prim.Native.Char.{Char, code}
use Prim.Native.String.{String}
use Prim.Native.String.append
use text.Mathlib.TextLemmas.{append_assoc, append_cancel_left, append_cancel_right}
use wabus_backend.Prelude.{
  ℕ, ◌≡◌, ◌≢◌, ◌∙◌, ap, refl, sym, Bool, true, false, ◌&&◌, ◌||◌, not, Option, some, arith,
  string_key, string_discrete, same, ite, if◌then◌else◌, ◌<>◌, Bool-cases, inl, inr,
}
use wabus_backend.GoMap.{GoMap, lookup, insert, delete}
use wabus_backend.GoMap.Laws.{lookup-insert, lookup-delete}
use wabus_backend.Gtfs.{Feed}
use wabus_backend.Gtfs.ParseCache.{
  parsed_cache_path, Decoded, SaveCalls, complete, open_parsed, load_parsed_result, remove_file,
  save_parsed_result,
}

last_code : String → ℕ
last_code String.[] = 0
last_code (String.◌∷◌ c String.[]) = code c
last_code (String.◌∷◌ c (String.◌∷◌ d s)) = last_code (String.◌∷◌ d s)

last_code-append : (p : String) (c : Char) → last_code (p <> String.◌∷◌ c String.[]) ≡ code c
unfolding last_code
last_code-append String.[] c = ap last_code (append.nil (String.◌∷◌ c String.[]))
last_code-append (String.◌∷◌ b String.[]) c = ap last_code (
    append.cons b String.[] (String.◌∷◌ c String.[])
    ∙ ap (String.◌∷◌ b) (append.nil (String.◌∷◌ c String.[])))
last_code-append (String.◌∷◌ b (String.◌∷◌ d s)) c =
    ap last_code (
      append.cons b (String.◌∷◌ d s) (String.◌∷◌ c String.[])
      ∙ ap (String.◌∷◌ b) (append.cons d s (String.◌∷◌ c String.[])))
    ∙ ap last_code (sym (append.cons d s (String.◌∷◌ c String.[])))
    ∙ last_code-append (String.◌∷◌ d s) c

path-injective : (a b : String) → parsed_cache_path a ≡ parsed_cache_path b → a ≡ b
unfolding parsed_cache_path
path-injective a b e =
    append_cancel_right a b ".gob.gz"
      (append_cancel_left "gtfs_parsed_v2_" (a <> ".gob.gz") (b <> ".gob.gz") e)

-- The names end in different letters.
path-tmp : (a b : String) → parsed_cache_path a ≢ parsed_cache_path b <> ".tmp"
unfolding parsed_cache_path
path-tmp a b e =
    let front : String = "gtfs_parsed_v2_" in
    let path = front <> b <> ".gob.gz" in
    let ends_z : last_code (front <> a <> ".gob.gz") ≡ 122 =
      ap last_code (
        ap (λ x. front <> x) (sym (append_assoc a ".gob.g" "z"))
        ∙ sym (append_assoc front (a <> ".gob.g") "z"))
      ∙ last_code-append (front <> a <> ".gob.g") "z" in
    let ends_p : last_code (path <> ".tmp") ≡ 112 =
      ap last_code (sym (append_assoc path ".tm" "p")) ∙ last_code-append (path <> ".tm") "p" in
    absurd (omega (arith, ends_z, ends_p, ap last_code e))

module _ {F B : Type 0} (encode : Feed F → B) (decode : B → Option (Decoded F)) where
  -- What the decoder gives of an encoded feed that has its maps.
  abbrev pub ReadsBack : Feed F → Type 0
  ReadsBack feed =
      decode (encode feed) ≡ some (record { feed = feed; has_routes = true; has_stops = true })

  -- The temporary file of one save is in no other's way.
  load-insert_tmp :
      (a b : String) (content : B) (files : GoMap String B)
      → lookup (parsed_cache_path a) (insert (parsed_cache_path b <> ".tmp") content files)
        ≡ lookup (parsed_cache_path a) files
  load-insert_tmp a b content files = ground (
    arith,
    path-tmp a b,
    lookup-insert (parsed_cache_path a) (parsed_cache_path b <> ".tmp") content files,
  )

  load-delete_tmp :
      (a b : String) (files : GoMap String B)
      → lookup (parsed_cache_path a) (delete (parsed_cache_path b <> ".tmp") files)
        ≡ lookup (parsed_cache_path a) files
  load-delete_tmp a b files = ground (
    arith,
    path-tmp a b,
    lookup-delete (parsed_cache_path a) (parsed_cache_path b <> ".tmp") files,
  )

  load-remove_file :
      (ok : Bool) (a b : String) (content : B) (files : GoMap String B)
      → lookup (parsed_cache_path a) (
          remove_file ok
            (parsed_cache_path b <> ".tmp")
            (insert (parsed_cache_path b <> ".tmp") content files))
        ≡ lookup (parsed_cache_path a) files
  load-remove_file true a b content files =
      load-delete_tmp a b (insert (parsed_cache_path b <> ".tmp") content files)
      ∙ load-insert_tmp a b content files
  load-remove_file false a b content files = load-insert_tmp a b content files

  lookup-renamed :
      (fingerprint other : String) (b : B) (files : GoMap String B)
      → lookup (parsed_cache_path other) (
          insert (parsed_cache_path fingerprint) b (
            delete
              (parsed_cache_path fingerprint <> ".tmp")
              (insert (parsed_cache_path fingerprint <> ".tmp") b files)))
        ≡ ite (string_discrete fingerprint other) (some b) (lookup (parsed_cache_path other) files)
  lookup-renamed fingerprint other b files =
      let path = parsed_cache_path fingerprint in
      let rest = delete (path <> ".tmp") (insert (path <> ".tmp") b files) in
      let stored = lookup-insert (parsed_cache_path other) path b rest in
      elim (string_discrete fingerprint other) [
        | yes p ↦ ground (arith, p, stored, ap parsed_cache_path p)
        | no p ↦
            let apart : path ≢ parsed_cache_path other =
              λ e. p (path-injective fingerprint other e) in
            ground (arith, p, apart, stored, load-remove_file true other fingerprint b files)
      ]

  -- A save that goes well is seen by the loads of its fingerprint, and a save that does not is seen by
  -- none, wherever it breaks off; no save is seen by the loads of another fingerprint. So the directory
  -- is the map from fingerprints to feeds that a save that goes well writes.
  pub save_parsed_result_lem :
      (c : SaveCalls B) (fingerprint other : String) (feed : Feed F) (files : GoMap String B)
      → ReadsBack feed
      → load_parsed_result encode decode other
          (save_parsed_result encode decode c fingerprint feed files).0
        ≡ (if (save_parsed_result encode decode c fingerprint feed files).1
              && same fingerprint other
            then some feed
            else load_parsed_result encode decode other files)
  unfolding save_parsed_result load_parsed_result
  save_parsed_result_lem c fingerprint other feed files back =
      elim (Bool-cases (not c.dir_ok || not c.create_ok)) [
        | inl early ↦ rw early refl
        | inr created ↦ elim (Bool-cases (not c.writer_ok)) [
          | inl no_writer ↦
              rw (created, no_writer)
                (ap (open_parsed encode decode) (load-insert_tmp other fingerprint c.left files))
          | inr writer ↦ elim (Bool-cases (c.encode_ok && c.close_ok && c.file_close_ok)) [
            | inr broken ↦
                rw (created, writer, broken)
                  (ap (open_parsed encode decode)
                    (load-remove_file c.remove_ok other fingerprint _ files))
            | inl whole ↦ elim (Bool-cases (not c.rename_ok)) [
              | inl not_renamed ↦
                  rw (created, writer, whole, not_renamed)
                    (ap (open_parsed encode decode)
                      (load-remove_file c.remove_ok other fingerprint _ files))
              | inr renamed ↦
                  rw (created, writer, whole, renamed)
                    (ap (open_parsed encode decode)
                        (lookup-renamed fingerprint other (encode feed) files)
                      ∙ chosen (string_discrete fingerprint other))
            ]
          ]
        ]
      ]
    where
      chosen :
          (d : Dec (fingerprint ≡ other))
          → open_parsed encode decode
              (ite d (some (encode feed)) (lookup (parsed_cache_path other) files))
            ≡ (if ite d true false
                then some feed
                else open_parsed encode decode (lookup (parsed_cache_path other) files))
      chosen (yes p) = ap complete back
      chosen (no p) = refl
