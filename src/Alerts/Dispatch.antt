-- ===== src/Alerts/Dispatch.antt =====
-- `dispatch` of services/alerts/service.py.
use apartment_finder.Prelude.{
  ℕ, ◌+◌, String, Bool, true, false, ◌&&◌, Option, none, some, List, [], ◌∷◌, ltb, length, ◌==◌,
  if◌then◌else◌, string_eq,
}
use apartment_finder.Common.Enums.{AlertChannel, local, smtp}
use apartment_finder.Alerts.Models.{
  DispatchStatus, succeeded, retrying, failed, is_succeeded, AlertRecord, DispatchReservation,
  DispatchResult, Answer, answers, raises_dispatch_error, raises,
}
use apartment_finder.Alerts.Repository.{
  AlertRepository, Ids, get_alert, reserve_dispatch, record_dispatch_result,
}

-- `AlertChannel(channel)`; `none` is the ValueError of an unsupported channel.
unfoldable pub normalize_channel : String → Option AlertChannel
normalize_channel channel =
    if channel == "local" then some local else if channel == "smtp" then some smtp else none

abbrev pub failure : Bool → String → DispatchResult
failure retryable error = record { success = false; retryable = retryable; error = some error }

-- A channel's adapter, where there is one. Its answer may depend on when it is asked: it is told how
-- long the dispatch log is by then.
abbrev pub Adapter : Type 0
Adapter = Option (ℕ → AlertRecord → Answer)

abbrev pub result_of : Answer → DispatchResult
result_of (answers result) = result
result_of (raises_dispatch_error message retryable) = failure retryable message
result_of (raises message) = failure false message

unfoldable pub send_alert : ℕ → AlertRecord → Adapter → DispatchResult
send_alert n alert none = failure true "dispatcher_missing"
send_alert n alert (some send) = result_of (send n alert)

unfoldable pub status_for_result : ℕ → DispatchResult → ℕ → DispatchStatus
status_for_result max_attempts result attempt =
    if result.success
    then succeeded
    else if result.retryable && ltb attempt max_attempts
    then retrying
    else failed

-- `None if status == DispatchStatus.succeeded else result.error`
abbrev pub error_for : DispatchStatus → DispatchResult → Option String
error_for succeeded result = none
error_for _ result = result.error

module _ (ids : Ids) (max_attempts now : ℕ) (channel : AlertChannel) (adapter : Adapter) where
  -- A reserved attempt: the send, and its result. The number is 1 for a success.
  unfoldable pub deliver : AlertRecord → DispatchReservation → AlertRepository → ℕ × AlertRepository
  deliver alert reservation r =
      let result = send_alert (length r.dispatch_log) alert adapter in
      let status = status_for_result max_attempts result reservation.attempt in
      let (final, r') =
        record_dispatch_result ids alert channel (ids.payload alert channel) reservation status
          (error_for status result) now r in
      (if is_succeeded final then 1 else 0, r')

  abbrev pub deliver_reserved :
      AlertRecord → Option DispatchReservation → AlertRepository → ℕ × AlertRepository
  deliver_reserved alert none r = (0, r)
  deliver_reserved alert (some reservation) r = deliver alert reservation r

  unfoldable pub dispatch_found : AlertRecord → AlertRepository → ℕ × AlertRepository
  dispatch_found alert r =
      let (reservation, r') =
        reserve_dispatch ids alert channel (ids.payload alert channel) now max_attempts r in
      deliver_reserved alert reservation r'

  abbrev pub dispatch_optional : Option AlertRecord → AlertRepository → ℕ × AlertRepository
  dispatch_optional none r = (0, r)
  dispatch_optional (some alert) r = dispatch_found alert r

  -- One turn of the loop for each alert id; the number is that of the successes.
  unfoldable pub dispatch : List String → AlertRepository → ℕ × AlertRepository
  dispatch [] r = (0, r)
  dispatch (alert_id ∷ alert_ids) r =
      let (first, r') = dispatch_optional (get_alert r alert_id) r in
      let (rest, r'') = dispatch alert_ids r' in (first + rest, r'')
