-- ===== src/Hub/System/Reader/Loop.antt =====
-- The messages of a client, through the read loop of internal/handler/websocket.go to the hub.
use mathlib.Core.List.{append_assoc}
use wabus_backend.Prelude.{
  ℕ, ◌≡◌, ◌≢◌, ◌∙◌, ap, refl, sym, Bool, true, false, Option, none, some, List, [], ◌∷◌, ◌++◌, map,
  arith, String, string_key, nat_key, same, is_some, if◌then◌else◌, All,
}
use wabus_backend.Prelude.Outcome.{Outcome, done, ◌>>=◌}
use wabus_backend.GoMap.{lookup}
use wabus_backend.GoMap.Buckets.{bucket}
use wabus_backend.Store.{Store}
use wabus_backend.Store.Invariant.{Inv}
use wabus_backend.Hub.{DeltaMessage}
use wabus_backend.Hub.System.{
  System, Action, subscribes, unsubscribes, disconnects, shuts_down, run,
}
use wabus_backend.Hub.System.Invariant.{IsSafe}
use wabus_backend.Hub.System.Requests.{
  TileRequest, after_requests, requests_of, after_requests-append, requests_of-append, run-Follows,
}
use wabus_backend.Hub.System.Reader.{
  Json, WsMessage, Received, received, read_error, send_encoded, send_pong, on_subscribe,
  on_unsubscribe, on_message, read_message, read_loop,
}
use wabus_backend.Hub.System.Reader.Serving.{on_subscribe-some}

-- What a client sends: whether it is a text message, its bytes, and the store when it is read.
abbrev pub Sent : Type 0 → Type 0 → Type 0
Sent B F = Bool × B × Store F

abbrev pub heard : {B F : Type 0} → List (Sent B F) → List (Received B × Store F)
heard = map (λ (is_text, bytes, store). (received is_text bytes, store))

-- The tiles of a payload, if there are any.
abbrev pub tiles_asked : Bool → Option (List String) → List TileRequest
tiles_asked on none = []
tiles_asked on (some ids) = (on, ids) ∷ []

module _ {B F : Type 0} (json : Json B F) where
  -- The protocol: "subscribe" asks for tiles, "unsubscribe" gives tiles up, all else asks nothing.
  abbrev pub asked_by : Option (WsMessage B) → List TileRequest
  asked_by none = []
  asked_by (some msg) =
      if same msg.message_kind "subscribe"
      then tiles_asked true (json.decode_tiles msg.payload)
      else if same msg.message_kind "unsubscribe"
      then tiles_asked false (json.decode_tiles msg.payload)
      else []

  unfoldable pub asked : List (Sent B F) → List TileRequest
  asked [] = []
  asked ((is_text, bytes, store) ∷ sent) =
      (if is_text then asked_by (json.decode_message bytes) else []) ++ asked sent

  -- Requests with the same effect on every tile.
  abbrev Alike : List TileRequest → List TileRequest → Type 0
  Alike rs qs = (t : String) (had : Bool) → after_requests t rs had ≡ after_requests t qs had

  -- The round does not panic, does not end the loop, and makes these requests.
  abbrev Makes : ℕ → List TileRequest → Outcome (List (Action B F)) → Type 0
  Makes c requests o =
      (actions : List (Action B F)) × (o ≡ done actions) × Alike (requests_of c actions) requests

  requests-send_encoded : (c j : ℕ) (o : Option B) → requests_of c (send_encoded {F = F} j o) ≡ []
  unfolding send_encoded requests_of
  requests-send_encoded c j none = refl
  requests-send_encoded c j (some bytes) = refl

  on_subscribe-Makes :
      (c : ℕ) (o : Option (List String)) (store : Store F)
      → Inv store
      → Makes c (tiles_asked true o) (on_subscribe json c o store)
  unfolding on_subscribe after_requests requests_of
  on_subscribe-Makes c none store i = ([], refl, λ t had. refl)
  on_subscribe-Makes c (some []) store i = ([], refl, λ t had. refl)
  on_subscribe-Makes c (some (id ∷ ids)) store i =
      let (vs, e, _, _) = on_subscribe-some json c id ids store i in
      let mine : same c c ≡ true = ground arith in
      (
        subscribes c (id ∷ ids) ∷ send_encoded c (json.encode_snapshot vs),
        e,
        rw (mine, requests-send_encoded c c (json.encode_snapshot vs)) (λ t had. refl),
      )

  on_unsubscribe-Makes :
      (c : ℕ) (o : Option (List String)) → Makes c (tiles_asked false o) (done (on_unsubscribe c o))
  unfolding on_unsubscribe after_requests requests_of
  on_unsubscribe-Makes c none = ([], refl, λ t had. refl)
  on_unsubscribe-Makes c (some []) = ([], refl, λ t had. refl)
  on_unsubscribe-Makes c (some (id ∷ ids)) =
      let mine : same c c ≡ true = ground arith in
      (unsubscribes c (id ∷ ids) ∷ [], ground arith, rw mine (λ t had. refl))

  Makes-if :
      (c : ℕ) (b : Bool) (rs qs : List TileRequest) (o p : Outcome (List (Action B F)))
      → Makes c rs o
      → Makes c qs p
      → Makes c (if b then rs else qs) (if b then o else p)
  Makes-if c true rs qs o p h k = h
  Makes-if c false rs qs o p h k = k

  nothing-Makes : (c : ℕ) → Makes c [] (done [])
  unfolding requests_of
  nothing-Makes c = ([], refl, λ t had. refl)

  pong-Makes : (c : ℕ) → Makes c [] (done (send_pong json c))
  unfolding send_pong
  pong-Makes c = (
    _,
    refl,
    λ t had. ap (λ rs. after_requests t rs had) (requests-send_encoded c c json.encode_pong),
  )

  Makes-choice :
      (c : ℕ) (b : Bool) (rs : List TileRequest) (o p : Outcome (List (Action B F)))
      → Makes c rs o
      → Makes c rs p
      → Makes c rs (if b then o else p)
  Makes-choice c true rs o p h k = h
  Makes-choice c false rs o p h k = k

  on_message-Makes :
      (c : ℕ) (o : Option (WsMessage B)) (store : Store F)
      → Inv store
      → Makes c (asked_by o) (on_message json c o store)
  unfolding on_message
  on_message-Makes c none store i = nothing-Makes c
  on_message-Makes c (some msg) store i =
      Makes-if c (same msg.message_kind "subscribe") _ _ _ _
        (on_subscribe-Makes c (json.decode_tiles msg.payload) store i)
        (Makes-if c (same msg.message_kind "unsubscribe") _ _ _ _
          (on_unsubscribe-Makes c (json.decode_tiles msg.payload))
          (Makes-choice c (same msg.message_kind "ping") [] _ _ (pong-Makes c) (nothing-Makes c)))

  read_message-Makes :
      (c : ℕ) (is_text : Bool) (bytes : B) (store : Store F)
      → Inv store
      → Makes c
          (if is_text then asked_by (json.decode_message bytes) else [])
          (read_message json c (received is_text bytes) store)
  unfolding read_message
  read_message-Makes c true bytes store i = on_message-Makes c (json.decode_message bytes) store i
  read_message-Makes c false bytes store i = nothing-Makes c

  -- The loop on these messages goes on after them; and if the next read fails, whatever would be read
  -- later, it ends with the client's removal.
  pub Loops : ℕ → List (Sent B F) → List (Action B F) → Type 0
  Loops c sent loop =
      (read_loop json c (heard sent) ≡ done loop)
      × ((store : Store F) (later : List (Received B × Store F))
          → read_loop json c (heard sent ++ (read_error, store) ∷ later)
            ≡ done (loop ++ disconnects c ∷ []))

  joined :
      (m rest : Outcome (List (Action B F))) (xs ys : List (Action B F))
      → m ≡ done xs
      → rest ≡ done ys
      → (m >>= λ actions. rest >>= λ later. done (actions ++ later)) ≡ done (xs ++ ys)
  joined m rest xs ys e e' = rw (e, e') refl

  read_loop-Makes :
      (c : ℕ) (sent : List (Sent B F))
      → All (λ m. Inv m.2) sent
      → (loop : List (Action B F)) × Loops c sent loop × Alike (requests_of c loop) (asked sent)
  unfolding read_loop asked requests_of Loops read_message
  read_loop-Makes c [] i = ([], (refl, λ store later. refl), λ t had. refl)
  read_loop-Makes c ((is_text, bytes, store) ∷ sent) i =
      let (actions, e, alike) = read_message-Makes c is_text bytes store i.0 in
      let (loop, (e', ends), alike') = read_loop-Makes c sent i.1 in
      let requests = if is_text then asked_by (json.decode_message bytes) else [] in
      (
        actions ++ loop,
        (
          joined _ _ actions loop e e',
          λ store' later.
              joined _ _ actions (loop ++ disconnects c ∷ []) e (ends store' later)
              ∙ ap done (sym (append_assoc actions loop (disconnects c ∷ []))),
        ),
        λ t had.
            ap (λ rs. after_requests t rs had) (requests_of-append c actions loop)
            ∙ after_requests-append t (requests_of c actions) (requests_of c loop) had
            ∙ alike' t (after_requests t (requests_of c actions) had)
            ∙ ap (after_requests t (asked sent)) (alike t had)
            ∙ sym (after_requests-append t requests (asked sent) had),
      )

  -- A client sends messages, each read with a store that satisfies its invariant, while the system
  -- satisfies its own and the client's loop runs. The loop reads them without a panic, and if the next
  -- read fails it removes the client as its last action. In any interleaving with others in
  -- which the client's requests are those of its loop, in which the loop does not end yet and which has
  -- no shutdown, nothing panics and the invariant is kept; and the hub's index has the client under
  -- just the tiles that its messages leave it with: the last message that names a tile decides, a
  -- tile that none names is as before, and a message that is not text or cannot be decoded counts for
  -- nothing.
  pub read_loop_lem :
      (marshal : DeltaMessage F → Option B) (c : ℕ) (sent : List (Sent B F)) (s : System B F)
      (actions : List (Action B F))
      → All (λ m. Inv m.2) sent
      → IsSafe s
      → s.reading c ≡ true
      → All (λ a. a ≢ shuts_down) actions
      → All (λ a. a ≢ disconnects c) actions
      → ((loop : List (Action B F))
          → read_loop json c (heard sent) ≡ done loop
          → requests_of c actions ≡ requests_of c loop)
      → (loop : List (Action B F)) × Loops c sent loop
        × (s' : System B F) × (run marshal actions s ≡ done s')
        × IsSafe s'
        × ((t : String)
            → is_some (lookup c (bucket t s'.hub.tile_clients))
              ≡ after_requests t (asked sent) (is_some (lookup c (bucket t s.hub.tile_clients))))
  unfolding Loops
  read_loop_lem marshal c sent s actions stores safe reads no_shutdown no_end own =
      let (loop, loops, alike) = read_loop-Makes c sent stores in
      let (s', e, safe', reads', has) =
        run-Follows c marshal actions s no_shutdown no_end reads safe in
      (
        loop,
        loops,
        s',
        e,
        safe',
        λ t.
            indexed s' t safe' reads'
            ∙ has t
            ∙ ap (λ rs. after_requests t rs (is_some (lookup t (s.hub.objects c).tiles)))
                (own loop loops.0)
            ∙ alike t (is_some (lookup t (s.hub.objects c).tiles))
            ∙ ap (after_requests t (asked sent)) (sym (indexed s t safe reads)),
      )
    where
      indexed :
          (u : System B F) (t : String)
          → IsSafe u
          → u.reading c ≡ true
          → is_some (lookup c (bucket t u.hub.tile_clients))
            ≡ is_some (lookup t (u.hub.objects c).tiles)
      indexed u t i r = ground (arith, i.hub_inv.linked c t, i.open_readers c r)
