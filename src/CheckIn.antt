-- ===== src/CheckIn.antt =====
-- check-in.go: the reports of monitored jobs. The id drawn, the clock, what the request comes to
-- and whether a check-in can be encoded are arguments of a call.
mod Tests
pub mod Monitor
pub mod Minutes
use bugfree_go_sdk.Base.{
  Bool, List, Option, Text, [], codes, if◌then◌else◌, is_empty, ltb_ℤ, negsuc, none, not, pos, some,
  sub_ℕ, suc, zero, ℕ, ℤ, ◌&&◌, ◌++◌, ◌+◌, ◌-◌, ◌/◌, ◌==◌, ◌||◌, ◌∷◌,
}
use bugfree_go_sdk.Transport.{Reply, Transport, answered, no_answer, pause, paused}
use bugfree_go_sdk.Transport.Retry.{parse_retry_after, wrap}

-- type CheckInStatus string
pub data CheckInStatus : Type 0 where
  check_in_in_progress check_in_ok check_in_error : CheckInStatus

-- type MonitorConfig struct
pub record MonitorConfig : Type 0 where
  pub name : Text
  pub schedule : Text
  pub interval_value : ℤ
  pub interval_unit : Text
  pub timezone : Text
  pub check_in_margin : ℤ
  pub max_runtime : ℤ

-- time.Minute, in nanoseconds
abbrev pub minute : ℕ
minute = 60000000000

-- Go's / on int64, which rounds towards zero, by a positive number.
abbrev pub quotient : ℤ → ℕ → ℤ
quotient (pos n) d = pos (n / d)
quotient (negsuc n) d = sub_ℕ 0 (suc n / d)

-- wholeMinutes
unfoldable pub whole_minutes : ℤ → ℤ
unfolding wrap
whole_minutes (negsuc n) = pos 0
whole_minutes (pos n) = if n == 0 then pos 0 else quotient (wrap (pos (n + minute - 1))) minute

-- What MarshalJSON writes of a MonitorConfig.
pub record ConfigJson : Type 0 where
  pub name : Text
  pub schedule_type : Text
  pub schedule : Text
  pub interval_value : ℤ
  pub interval_unit : Text
  pub timezone : Text
  pub check_in_margin_minutes : ℤ
  pub max_runtime_minutes : ℤ

-- (MonitorConfig).MarshalJSON
unfoldable pub marshal_config : MonitorConfig → ConfigJson
unfolding whole_minutes
marshal_config m = record {
  name = m.name;
  schedule_type =
      if is_empty m.schedule && ltb_ℤ (pos 0) m.interval_value
      then codes "interval"
      else codes "crontab";
  schedule = m.schedule;
  interval_value = m.interval_value;
  interval_unit = m.interval_unit;
  timezone = m.timezone;
  check_in_margin_minutes = whole_minutes m.check_in_margin;
  max_runtime_minutes = whole_minutes m.max_runtime;
}

-- type CheckIn struct
pub record CheckIn : Type 0 where
  pub id : Text
  pub monitor_slug : Text
  pub status : CheckInStatus
  pub duration : ℤ
  pub duration_ms : Option ℕ
  pub environment : Text
  pub release : Text
  pub monitor_config : Option MonitorConfig

-- What c.transport is: one that takes check-ins, the SDK's own, or another.
pub data Channel : Type 0 where
  check_in_sender http_transport another : Channel

-- The fields of Client that a check-in reads; `sent` is the check-ins handed to the sender or
-- requested over HTTP.
pub record Reporter : Type 0 where
  pub enabled : Bool
  pub environment : Text
  pub release : Text
  pub channel : Channel
  pub http : Transport
  pub sent : List CheckIn

-- What the process and the server answer at a call.
pub record Surroundings : Type 0 where
  pub date : Text → Option ℕ
  pub now : ℕ
  pub answer_at : ℕ
  pub id : Text
  pub reply : Reply
  pub encodable : Bool

abbrev pub or_text : Text → Text → Text
or_text value fallback = if is_empty value then fallback else value

-- checkIn.Duration.Milliseconds(), for a duration above zero
abbrev pub milliseconds_of : ℤ → Option ℕ → Option ℕ
milliseconds_of (pos zero) given = given
milliseconds_of (pos (suc n)) given = some (suc n / 1000000)
milliseconds_of (negsuc n) given = given

-- The fields that CaptureCheckIn fills in.
unfoldable pub fill_in : Text → Reporter → CheckIn → CheckIn
unfolding is_empty
fill_in id c report = record report {
  id = or_text report.id id;
  environment = or_text report.environment c.environment;
  release = or_text report.release c.release;
  duration_ms = milliseconds_of report.duration report.duration_ms;
}

-- The pause of postCheckIn and postTransaction on the status of an answer.
unfoldable pub pause_on : Surroundings → Reply → Transport → Transport
unfolding parse_retry_after pause
pause_on m no_answer http = http
pause_on m (answered status header) http =
    if status == 429
    then pause (parse_retry_after m.date header m.answer_at) m.answer_at http
    else http

-- postCheckIn; its error is only logged.
unfoldable pub post_check_in : Surroundings → Reporter → CheckIn → Reporter
unfolding pause_on
post_check_in m c report = if not m.encodable then c else record c {
  sent = c.sent ++ report ∷ [];
  http = elim c.channel [
    | check_in_sender ↦ c.http
    | http_transport ↦ pause_on m m.reply c.http
    | another ↦ c.http
  ];
}

-- The tail of CaptureCheckIn, on the report filled in.
unfoldable pub deliver_check_in : Surroundings → Reporter → CheckIn → Channel → Reporter
unfolding post_check_in paused
deliver_check_in m c report check_in_sender = record c { sent = c.sent ++ report ∷ [] }
deliver_check_in m c report http_transport =
    if paused m.now c.http
    then record c { http = record c.http { dropped_paused = suc c.http.dropped_paused } }
    else post_check_in m c report
deliver_check_in m c report another = post_check_in m c report

-- CaptureCheckIn
unfoldable pub capture_check_in : Surroundings → Reporter → CheckIn → Reporter × Text
unfolding fill_in deliver_check_in is_empty
capture_check_in m c report =
    if not c.enabled || is_empty report.monitor_slug
    then (c, [])
    else let filled = fill_in m.id c report in (deliver_check_in m c filled c.channel, filled.id)

-- How the job of a monitor ends.
pub data JobEnd : Type 0 where
  returns_nil returns_error panics : JobEnd

abbrev pub status_of : JobEnd → CheckInStatus
status_of returns_nil = check_in_ok
status_of returns_error = check_in_error
status_of panics = check_in_error

abbrev pub report_of : Text → Text → CheckInStatus → ℤ → Option MonitorConfig → CheckIn
report_of id slug status duration config = record {
  id = id;
  monitor_slug = slug;
  status = status;
  duration = duration;
  duration_ms = none;
  environment = [];
  release = [];
  monitor_config = config;
}

-- The closure finish of WithMonitor, on the client and the id after the first check-in.
unfoldable pub finish_run : Surroundings → Text → ℕ → JobEnd → Reporter × Text → Reporter
unfolding capture_check_in
finish_run m slug elapsed end begun =
    (capture_check_in m begun.0 (report_of begun.1 slug (status_of end) (pos elapsed) none)).0

-- WithMonitor, for a job that leaves the client alone: the surroundings are those of the check-in
-- at the start and of the one at the end, `elapsed` the time between. An error or a panic goes on
-- to the caller as it is.
unfoldable pub with_monitor :
    Surroundings → Surroundings → Reporter → Text → Option MonitorConfig → ℕ → JobEnd → Reporter
unfolding finish_run
with_monitor m m' c slug config elapsed end =
    finish_run m' slug elapsed end
      (capture_check_in m c (report_of [] slug check_in_in_progress (pos 0) config))
