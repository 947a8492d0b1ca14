-- ===== src/Http/Recorder.antt =====
-- `statusRecorder` of internal/proxy/middleware.go, which remembers the status for logs and metrics.
-- The writer below it is the list of the calls that it has received, the last one first. `Unwrap`,
-- `Hijack` and `Push` only pass on a call that writes no status.
use llm_api_gateway.Prelude.{
  ℕ, ◌≡◌, refl, Bool, true, false, ◌⊎◌, inl, inr, List, [], ◌∷◌, ◌++◌, All, if◌then◌else◌,
}

-- A call of the underlying writer: the header with its status, some bytes of the body, a flush.
pub data Sent : Type 0 where
  header body : ℕ → Sent
  flushed : Sent

pub record StatusRecorder : Type 0 where
  pub sent : List Sent
  pub status : ℕ
  pub wrote_header : Bool

-- `&statusRecorder{ResponseWriter: w, status: http.StatusOK}`
abbrev pub new_recorder : StatusRecorder
new_recorder = record { sent = []; status = 200; wrote_header = false }

unfoldable pub write_header : ℕ → StatusRecorder → StatusRecorder
write_header status r =
    if r.wrote_header
    then r
    else record { sent = header status ∷ r.sent; status = status; wrote_header = true }

-- `if !r.wroteHeader { r.WriteHeader(http.StatusOK) }`
unfoldable pub ensure_header : StatusRecorder → StatusRecorder
unfolding write_header
ensure_header r = if r.wrote_header then r else write_header 200 r

-- `Write`; also `ReadFrom`, of a source with so many bytes.
unfoldable pub write : ℕ → StatusRecorder → StatusRecorder
unfolding ensure_header
write n r = let r' = ensure_header r in record r' { sent = body n ∷ r'.sent }

-- `Flush`; `can_flush` is whether the writer is an `http.Flusher`.
unfoldable pub flush : Bool → StatusRecorder → StatusRecorder
unfolding ensure_header
flush can_flush r =
    let r' = ensure_header r in if can_flush then record r' { sent = flushed ∷ r'.sent } else r'

-- What a handler may do with the recorder.
pub data Call : Type 0 where
  writes_header : ℕ → Call
  writes : ℕ → Call
  flushes : Bool → Call

unfoldable pub apply : Call → StatusRecorder → StatusRecorder
apply (writes_header status) r = write_header status r
apply (writes n) r = write n r
apply (flushes can_flush) r = flush can_flush r

unfoldable pub run : StatusRecorder → List Call → StatusRecorder
run r [] = r
run r (c ∷ cs) = run (apply c r) cs

abbrev pub IsBody : Sent → Type 0
IsBody (header status) = ⊥
IsBody (body n) = Unit
IsBody flushed = Unit

-- Nothing has been sent and the status is 200, or the header was sent first, once, with the
-- status that the recorder reports.
abbrev pub IsRecorded : StatusRecorder → Type 0
IsRecorded r =
    ((r.wrote_header ≡ false) × (r.sent ≡ []) × (r.status ≡ 200))
    ⊎ ((r.wrote_header ≡ true)
        × ((later : List Sent) × (r.sent ≡ later ++ header r.status ∷ []) × All IsBody later))

write_header-IsRecorded :
    (status : ℕ) (r : StatusRecorder) → IsRecorded r → IsRecorded (write_header status r)
unfolding write_header
write_header-IsRecorded status r (inl (w, s, _)) = rw w (inr (refl, ([], rw s refl, tt)))
write_header-IsRecorded status r (inr (w, h)) = rw w (inr (refl, h))

-- After the header has been sent.
abbrev IsStarted : StatusRecorder → Type 0
IsStarted r =
    (r.wrote_header ≡ true)
    × ((later : List Sent) × (r.sent ≡ later ++ header r.status ∷ []) × All IsBody later)

ensure_header-IsStarted : (r : StatusRecorder) → IsRecorded r → IsStarted (ensure_header r)
unfolding ensure_header write_header
ensure_header-IsStarted r (inl (w, s, _)) = rw w (refl, ([], rw s refl, tt))
ensure_header-IsStarted r (inr (w, h)) = rw w (refl, h)

add-IsStarted :
    (b : Sent) (r : StatusRecorder)
    → IsBody b
    → IsStarted r
    → IsStarted (record r { sent = b ∷ r.sent })
add-IsStarted b r p (w, (later, s, h)) = (w, (b ∷ later, rw s refl, (p, h)))

apply-IsRecorded : (c : Call) (r : StatusRecorder) → IsRecorded r → IsRecorded (apply c r)
unfolding apply write flush
apply-IsRecorded (writes_header status) r h = write_header-IsRecorded status r h
apply-IsRecorded (writes n) r h = inr (add-IsStarted (body n) _ tt (ensure_header-IsStarted r h))
apply-IsRecorded (flushes true) r h = inr (add-IsStarted flushed _ tt (ensure_header-IsStarted r h))
apply-IsRecorded (flushes false) r h = inr (ensure_header-IsStarted r h)

run-IsRecorded : (cs : List Call) (r : StatusRecorder) → IsRecorded r → IsRecorded (run r cs)
unfolding run
run-IsRecorded [] r h = h
run-IsRecorded (c ∷ cs) r h = run-IsRecorded cs (apply c r) (apply-IsRecorded c r h)

-- Whatever a handler does with a new recorder, in any order: either nothing has been sent and the
-- status is 200, or the underlying writer was sent one header, before all bytes and flushes, and
-- the status that is logged and counted is the status of that header.
pub run-new_recorder-IsRecorded : (cs : List Call) → IsRecorded (run new_recorder cs)
run-new_recorder-IsRecorded cs = run-IsRecorded cs new_recorder (inl (refl, refl, refl))
