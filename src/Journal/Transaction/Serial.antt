-- ===== src/Journal/Transaction/Serial.antt =====
-- The calls of many processes, one after another.
use mss_package.Common.{
  ℕ, ◌≡◌, refl, ◌∙◌, ap, Option, none, some, List, [], ◌∷◌, Result, ok, err, Bool-cases, inl, inr,
}
use mss_package.Common.Text.{is_empty}
use mss_package.Journal.Append.{
  AppendError, append_event, append_verified, written, write, post_check,
}
use mss_package.Journal.Chain.{JournalError, Verification, broken, chain_valid, File, verify}
use mss_package.Journal.Json.{Fields, Library}
use mss_package.Journal.Transaction.{
  Request, Phase, locked, verified, appended, Holder, busy, finished, died_before_write,
  died_after_write, Entry, System, ProcessAction, call, go_on, die, ended, enter, die_in,
  body_after, prepare_body, after_prepare, go_on_in, act, run, start,
}

module _ {N : Type 0} (L : Library N) where
  -- `append_event` of a request, with nobody else there.
  abbrev pub alone : Request N → File → Result AppendError (Fields N) × File
  alone r file = append_event L r.event_type r.position_id r.broker_epoch r.payload file

  -- A history in which the calls come one after another: those that were busy, or that died before
  -- their write, have done nothing; the others have done what `append_event` does.
  pub data Serial (first : File) : List (Entry N) → File → Type 0 where
    nothing : Serial first [] first
    was_busy :
        {log : List (Entry N)} {file : File} (process : ℕ) (r : Request N)
        → Serial first log file
        → Serial first (ended process r busy ∷ log) file
    had_died :
        {log : List (Entry N)} {file : File} (process : ℕ) (r : Request N)
        → Serial first log file
        → Serial first (ended process r died_before_write ∷ log) file
    has_finished :
        {log : List (Entry N)} {file : File} (process : ℕ) (r : Request N)
        → Serial first log file
        → Serial first (ended process r (finished (alone r file).0) ∷ log) (alone r file).1
    has_written :
        {log : List (Entry N)} {file : File} (process : ℕ) (r : Request N)
        → Serial first log file
        → Serial first (ended process r died_after_write ∷ log) (alone r file).1

  -- Where the lock is held, what is left of the call is what is left of `append_event`.
  abbrev IsInside : File → Holder N → Phase N → File → List (Entry N) → Type 0
  IsInside first h locked file log = Serial first log file
  IsInside first h (verified body) file log =
      Serial first log file × (alone h.request file ≡ write L body file)
  IsInside first h (appended body) file log =
      (before : File) × Serial first log before
      × (file ≡ written L body before)
      × (alone h.request before ≡ (post_check L body (verify L file), file))

  abbrev IsSerialHolder : File → Option (Holder N) → File → List (Entry N) → Type 0
  IsSerialHolder first none file log = Serial first log file
  IsSerialHolder first (some h) file log = IsInside first h h.phase file log

  abbrev IsSerial : File → System N → Type 0
  IsSerial first s = IsSerialHolder first s.holder s.file s.log

  -- `append_event` is its preparation, and then the write.
  abbrev prepared : Result AppendError (Fields N) → File → Result AppendError (Fields N) × File
  prepared (err e) file = (err e, file)
  prepared (ok body) file = write L body file

  append_verified-prepared :
      (r : Request N) (file : File) (v : Result JournalError Verification)
      → append_verified L r.event_type r.position_id r.broker_epoch r.payload v file
        ≡ prepared (body_after L r v) file
  unfolding append_verified body_after
  append_verified-prepared r file (err e) = refl
  append_verified-prepared r file (ok (broken reason i n)) = refl
  append_verified-prepared r file (ok (chain_valid n sha)) = refl

  alone-prepared :
      (r : Request N) (file : File) → alone r file ≡ prepared (prepare_body L r file) file
  unfolding append_event prepare_body
  alone-prepared r file = elim (Bool-cases (is_empty r.event_type)) [
    | inl t ↦ rw t refl
    | inr t ↦ elim (Bool-cases (is_empty r.position_id)) [
      | inl i ↦ rw (t, i) refl
      | inr i ↦ rw (t, i) (append_verified-prepared r file (verify L file))
    ]
  ]

  after_prepare-IsSerial :
      (first : File) (h : Holder N) (p : Result AppendError (Fields N)) (file : File)
      (log : List (Entry N))
      → prepare_body L h.request file ≡ p
      → Serial first log file
      → IsSerial first (after_prepare L h p file log)
  unfolding after_prepare
  after_prepare-IsSerial first h (err e) file log p s =
      let same : alone h.request file ≡ (err e, file) =
        alone-prepared h.request file ∙ ap (λ x. prepared x file) p in
      rw same at (has_finished h.process h.request s)
  after_prepare-IsSerial first h (ok body) file log p s =
      (s, alone-prepared h.request file ∙ ap (λ x. prepared x file) p)

  go_on_in-IsSerial :
      (first : File) (h : Holder N) (phase : Phase N) (file : File) (log : List (Entry N))
      → IsInside first h phase file log
      → IsSerial first (go_on_in L h phase file log)
  unfolding go_on_in write
  go_on_in-IsSerial first h locked file log s =
      after_prepare-IsSerial first h (prepare_body L h.request file) file log refl s
  go_on_in-IsSerial first h (verified body) file log (s, same) = (file, s, refl, same)
  go_on_in-IsSerial first h (appended body) file log (before, s, written_is, same) =
      rw same at (has_finished h.process h.request s)

  die_in-IsSerial :
      (first : File) (h : Holder N) (phase : Phase N) (file : File) (log : List (Entry N))
      → IsInside first h phase file log
      → IsSerial first (die_in h phase file log)
  unfolding die_in
  die_in-IsSerial first h locked file log s = had_died h.process h.request s
  die_in-IsSerial first h (verified body) file log (s, same) = had_died h.process h.request s
  die_in-IsSerial first h (appended body) file log (before, s, written_is, same) =
      rw (ap (λ q. q.1) same) at (has_written h.process h.request s)

  busy-IsInside :
      (first : File) (h : Holder N) (phase : Phase N) (file : File) (log : List (Entry N))
      (process : ℕ) (r : Request N)
      → IsInside first h phase file log
      → IsInside first h phase file (ended process r busy ∷ log)
  busy-IsInside first h locked file log process r s = was_busy process r s
  busy-IsInside first h (verified body) file log process r (s, same) = (was_busy process r s, same)
  busy-IsInside first h (appended body) file log process r (before, s, w, same) =
      (before, was_busy process r s, w, same)

  act-IsSerial :
      (first : File) (a : ProcessAction N) (holder : Option (Holder N)) (file : File)
      (log : List (Entry N))
      → IsSerialHolder first holder file log
      → IsSerial first (act L a (record { holder = holder; file = file; log = log }))
  unfolding act enter
  act-IsSerial first (call process r) none file log s = s
  act-IsSerial first (call process r) (some h) file log s =
      busy-IsInside first h h.phase file log process r s
  act-IsSerial first go_on none file log s = s
  act-IsSerial first go_on (some h) file log s = go_on_in-IsSerial first h h.phase file log s
  act-IsSerial first die none file log s = s
  act-IsSerial first die (some h) file log s = die_in-IsSerial first h h.phase file log s

  run-IsSerial :
      (first : File) (actions : List (ProcessAction N)) (s : System N)
      → IsSerial first s
      → IsSerial first (run L actions s)
  unfolding run
  run-IsSerial first [] s i = i
  run-IsSerial first (a ∷ actions) s i =
      run-IsSerial first actions (act L a s) (act-IsSerial first a s.holder s.file s.log i)

  -- Whatever the schedule of the processes, with calls that are refused as busy and processes that
  -- die in the middle of their call: where the lock is free, the file and the results are those of
  -- calls of `append_event` one after another, of which those that were busy or died before their
  -- write have done nothing.
  pub run-Serial :
      (first : File) (actions : List (ProcessAction N))
      → (run L actions (start L first)).holder ≡ none
      → Serial first (run L actions (start L first)).log (run L actions (start L first)).file
  run-Serial first actions free =
      let s = run L actions (start L first) in
      rw free at (run-IsSerial first actions (start L first) nothing)
