-- ===== src/Chat/Stream.antt =====
-- The events of a stream that has been opened: the loop of `handleStream` in
-- internal/proxy/handler.go. An event is what the `select` receives; the events of both channels and of
-- the context may come in any order.
use llm_api_gateway.Prelude.{◌≡◌, refl, ap, All, Option, none, some, List, [], ◌∷◌, ◌++◌, map}

-- `chunks_closed` and `errors_closed` are closings of the two channels (or a nil error), and
-- `client_gone` the end of the request's context.
pub data Event (C E : Type 0) : Type 0 where
  chunk : C → Event C E
  chunks_closed errors_closed client_gone : Event C E
  failed_with : E → Event C E

-- What is written: a chunk as an event of the stream, an error event, or the end marker.
pub data Frame (C E : Type 0) : Type 0 where
  data_frame : C → Frame C E
  error_frame : E → Frame C E
  done : Frame C E

module _ {C E : Type 0} where
  -- The loop of `handleStream`. Its last test, that both channels are nil, never applies: the loop
  -- returns where the first becomes nil.
  unfoldable pub frames_of : List (Event C E) → List (Frame C E)
  frames_of [] = []
  frames_of (chunk x ∷ es) = data_frame x ∷ frames_of es
  frames_of (chunks_closed ∷ es) = done ∷ []
  frames_of (errors_closed ∷ es) = frames_of es
  frames_of (failed_with e ∷ es) = error_frame e ∷ done ∷ []
  frames_of (client_gone ∷ es) = []

  abbrev pub first_frame : Option C → List (Frame C E)
  first_frame none = []
  first_frame (some x) = data_frame x ∷ []

  -- With the chunk that `openStream` waited for.
  unfoldable pub handle_stream : Option C → List (Event C E) → List (Frame C E)
  unfolding frames_of
  handle_stream first es = first_frame first ++ frames_of es

  -- The chunks among some events.
  unfoldable pub chunks_of : List (Event C E) → List C
  chunks_of [] = []
  chunks_of (chunk x ∷ es) = x ∷ chunks_of es
  chunks_of (_ ∷ es) = chunks_of es

  -- An event after which the stream goes on.
  abbrev pub IsOpen : Event C E → Type 0
  IsOpen (chunk x) = Unit
  IsOpen errors_closed = Unit
  IsOpen _ = ⊥

  -- The first events that leave the stream open, and the one that ends it.
  pub record EndsWith (es : List (Event C E)) (last : Event C E) (before : List (Event C E))
      : Type 0 where
    pub after : List (Event C E)
    pub all_open : All IsOpen before
    pub events : es ≡ before ++ last ∷ after

  -- How the events of a stream decide the frames that are written for it.
  pub data Ending (es : List (Event C E)) (fs : List (Frame C E)) : Type 0 where
    completed :
        (before : List (Event C E))
        → EndsWith es chunks_closed before
        → fs ≡ map data_frame (chunks_of before) ++ done ∷ []
        → Ending es fs
    broken :
        (e : E) (before : List (Event C E))
        → EndsWith es (failed_with e) before
        → fs ≡ map data_frame (chunks_of before) ++ error_frame e ∷ done ∷ []
        → Ending es fs
    left :
        (before : List (Event C E))
        → EndsWith es client_gone before
        → fs ≡ map data_frame (chunks_of before)
        → Ending es fs
    waiting : All IsOpen es → fs ≡ map data_frame (chunks_of es) → Ending es fs

  at_once : (last : Event C E) (es : List (Event C E)) → EndsWith (last ∷ es) last []
  at_once last es = record { after = es; all_open = tt; events = refl }

  EndsWith-later :
      (v last : Event C E) (es before : List (Event C E))
      → IsOpen v
      → EndsWith es last before
      → EndsWith (v ∷ es) last (v ∷ before)
  EndsWith-later v last es before o h = record {
    after = h.after;
    all_open = (o, h.all_open);
    events = ap (λ xs. v ∷ xs) h.events;
  }

  Ending-chunk :
      (x : C) (es : List (Event C E)) (fs : List (Frame C E))
      → Ending es fs
      → Ending (chunk x ∷ es) (data_frame x ∷ fs)
  unfolding chunks_of
  Ending-chunk x es fs (completed before h e) =
      completed (chunk x ∷ before) (EndsWith-later (chunk x) _ es before tt h)
        (ap (λ xs. data_frame x ∷ xs) e)
  Ending-chunk x es fs (broken y before h e) =
      broken y (chunk x ∷ before) (EndsWith-later (chunk x) _ es before tt h)
        (ap (λ xs. data_frame x ∷ xs) e)
  Ending-chunk x es fs (left before h e) =
      left (chunk x ∷ before) (EndsWith-later (chunk x) _ es before tt h)
        (ap (λ xs. data_frame x ∷ xs) e)
  Ending-chunk x es fs (waiting o e) = waiting (tt, o) (ap (λ xs. data_frame x ∷ xs) e)

  Ending-errors_closed :
      (es : List (Event C E)) (fs : List (Frame C E))
      → Ending es fs
      → Ending (errors_closed ∷ es) fs
  unfolding chunks_of
  Ending-errors_closed es fs (completed before h e) =
      completed (errors_closed ∷ before) (EndsWith-later errors_closed _ es before tt h) e
  Ending-errors_closed es fs (broken y before h e) =
      broken y (errors_closed ∷ before) (EndsWith-later errors_closed _ es before tt h) e
  Ending-errors_closed es fs (left before h e) =
      left (errors_closed ∷ before) (EndsWith-later errors_closed _ es before tt h) e
  Ending-errors_closed es fs (waiting o e) = waiting (tt, o) e

  frames_of-Ending : (es : List (Event C E)) → Ending es (frames_of es)
  unfolding frames_of chunks_of
  frames_of-Ending [] = waiting tt refl
  frames_of-Ending (chunk x ∷ es) = Ending-chunk x es (frames_of es) (frames_of-Ending es)
  frames_of-Ending (chunks_closed ∷ es) = completed [] (at_once chunks_closed es) refl
  frames_of-Ending (errors_closed ∷ es) =
      Ending-errors_closed es (frames_of es) (frames_of-Ending es)
  frames_of-Ending (failed_with x ∷ es) = broken x [] (at_once (failed_with x) es) refl
  frames_of-Ending (client_gone ∷ es) = left [] (at_once client_gone es) refl

  -- The frames of a stream begin with its first chunk, if it has one. The first event that is neither a chunk nor
  -- the closing of the errors decides the rest: the chunks before it come in their order, and then
  -- an end marker if it closed the chunks, that error and an end marker if it is an error, and
  -- nothing more if the client left. Without such an event, the chunks are written and the stream still runs.
  pub handle_stream-Ending :
      (first : Option C) (es : List (Event C E))
      → (rest : List (Frame C E)) × (handle_stream first es ≡ first_frame first ++ rest)
        × Ending es rest
  unfolding handle_stream
  handle_stream-Ending first es = (frames_of es, refl, frames_of-Ending es)
