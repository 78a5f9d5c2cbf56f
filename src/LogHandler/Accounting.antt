-- ===== src/LogHandler/Accounting.antt =====
-- log-handler.go, Handle: what becomes of a record.
use bugfree_go_sdk.Base.{
  Bool-cases, List, Option, Text, [], arith, codes, drop, false, inl, inr, keep, leb_ℤ, none, refl,
  some, suc, true, ℕ, ◌++◌, ◌≡◌, ◌⊎◌,
}
use bugfree_go_sdk.Errors.{Err, error_type, message}
use bugfree_go_sdk.Event.{Event}
use bugfree_go_sdk.Scope.{Scopes, add_breadcrumb}
use bugfree_go_sdk.Client.{Client, Moment, new_event, sampled}
use bugfree_go_sdk.Client.Accounting.{
  answered_for, finish-counted, new_event-counted, sampled-counted, waiting,
}
use bugfree_go_sdk.LogHandler.Records.{
  LogRecord, capture_found, capture_if, capture_log, complete_found, crumb_of_record, first_failure,
  frames_of_log, handle, report_record,
}
use bugfree_go_sdk.LogHandler.{Field, LogHandler, event_level_of, fields}
use bugfree_go_sdk.Frames.{error_frames}

waiting-complete_found :
    (err : Option Err) (found : List (Text × Field)) (event : Option Event)
    → waiting (complete_found err found event) ≡ waiting event
waiting-complete_found err found none = refl
waiting-complete_found err found (some event) = refl

capture_found-counted :
    (m : Moment) (c : Client) (scope : Option ℕ) (r : LogRecord) (found : List (Text × Field))
    (err : Option Err)
    → answered_for (capture_found m c scope r found err) ≡ suc (answered_for c)
unfolding capture_found
capture_found-counted m c scope r found none =
    let frames = frames_of_log m r [] in
    let made = new_event m c scope (event_level_of r.level) (codes "log") r.text frames in
    omega (
      arith,
      new_event-counted m c scope (event_level_of r.level) (codes "log") r.text frames,
      finish-counted m made.0 (complete_found none found made.1) [],
      waiting-complete_found none found made.1,
    )
capture_found-counted m c scope r found (some err) =
    let frames = frames_of_log m r (error_frames m.shown err) in
    let text = r.text ++ (codes ": " ++ message err) in
    let made = new_event m c scope (event_level_of r.level) (error_type err) text frames in
    omega (
      arith,
      new_event-counted m c scope (event_level_of r.level) (error_type err) text frames,
      finish-counted m made.0 (complete_found (some err) found made.1) [],
      waiting-complete_found (some err) found made.1,
    )

capture_if-counted :
    (m : Moment) (c : Client) (scope : Option ℕ) (r : LogRecord) (found : List (Text × Field))
    → answered_for (capture_if (sampled m c) m scope r found) ≡ suc (answered_for c)
unfolding capture_log
capture_if-counted m c scope r found = elim (Bool-cases (sampled m c).1) [
  | inl keep ↦ rw keep (
      omega (
        arith,
        capture_found-counted m (sampled m c).0 scope r found (first_failure found),
        rw keep at (sampled-counted m c),
      ))
  | inr drop ↦ rw drop (omega (arith, rw drop at (sampled-counted m c)))
]

-- What Handle should do with a record of a client that is enabled: by its level, and what is then
-- the client and the scopes.
abbrev pub Handled :
    (Field → Text) → Moment → LogHandler → Client → Option ℕ → LogRecord → Client × Scopes → Type 0
Handled shown m h c scope r after =
    ((leb_ℤ h.event_level r.level ≡ true)
      × (answered_for after.0 ≡ suc (answered_for c))
      × (after.1 ≡ m.scopes))
    ⊎ (((leb_ℤ h.event_level r.level ≡ false)
          × (leb_ℤ h.breadcrumb_level r.level ≡ true)
          × (after ≡ (
            c,
            add_breadcrumb m.scopes scope m.now (crumb_of_record shown r (fields h r.attrs)),
          )))
        ⊎ ((leb_ℤ h.event_level r.level ≡ false)
            × (leb_ℤ h.breadcrumb_level r.level ≡ false)
            × (after ≡ (c, m.scopes))))

report_record-Handled :
    (shown : Field → Text) (m : Moment) (h : LogHandler) (c : Client) (scope : Option ℕ)
    (r : LogRecord)
    → Handled shown m h c scope r (report_record shown m h c scope r)
unfolding report_record
report_record-Handled shown m h c scope r = elim (Bool-cases (leb_ℤ h.event_level r.level)) [
  | inl event ↦ inl (event, rw event (capture_if-counted m c scope r (fields h r.attrs)), rw event)
  | inr quiet ↦ elim (Bool-cases (leb_ℤ h.breadcrumb_level r.level)) [
    | inl step ↦ inr (inl (quiet, step, rw (quiet, step)))
    | inr none' ↦ inr (inr (quiet, none', rw (quiet, none')))
  ]
]

-- With an enabled client a record from the event level on is one capture: handed to the transport,
-- or counted in the stats as sampled out, repeated or dropped by BeforeSend; it is no breadcrumb.
-- Any other from the breadcrumb level on is a breadcrumb of the scope, and the rest leaves no
-- trace.
pub handle-Handled :
    (shown : Field → Text) (m : Moment) (h : LogHandler) (c : Client) (scope : Option ℕ)
    (r : LogRecord)
    → c.enabled ≡ true
    → Handled shown m h c scope r (handle shown m h c scope r)
unfolding handle
handle-Handled shown m h c scope r on =
    let same : handle shown m h c scope r ≡ report_record shown m h c scope r = rw on in
    rw same (report_record-Handled shown m h c scope r)
