-- ===== src/Alerts/Delivery.antt =====
-- However often an alert is dispatched, it is attempted a bounded number of times and delivered at
-- most once on each channel.
use apartment_finder.Prelude.{
  Option-cases, ap, ℕ, ◌+◌, ◌≤◌, ◌≡◌, refl, ◌∙◌, String, Bool, false, ◌&&◌, Option, none, some,
  List, [], ◌∷◌, ◌++◌, arith, keep, keep-append, length, length-append, count_if, if◌then◌else◌,
  string_eq, ◌==◌, eq_iff, inl, inr,
}
use apartment_finder.Alerts.Dispatch.{
  error_for, Adapter, send_alert, status_for_result, deliver, dispatch_found, dispatch_optional,
  dispatch,
}
use apartment_finder.Alerts.Repository.{
  log_entry, AlertRepository, Ids, get_alert, state_of, idempotency_key, reserve_dispatch,
  record_dispatch_result, after_result,
}
use apartment_finder.Prelude.Dict.{get, get-put, get-put_self}
use apartment_finder.Common.Enums.{AlertChannel}
use apartment_finder.Alerts.Models.{
  pending, is_pending, is_succeeded, AlertRecord, DispatchLogEntry, DispatchReservation,
  DispatchResult,
}

-- The attempts and the deliveries that the log shows for a key.
abbrev pub attempts_of : String → List DispatchLogEntry → ℕ
attempts_of key = count_if (λ e. (e.idempotency_key == key) && is_pending e.status)

abbrev pub deliveries_of : String → List DispatchLogEntry → ℕ
deliveries_of key = count_if (λ e. (e.idempotency_key == key) && is_succeeded e.status)

count_if-append :
    (p : DispatchLogEntry → Bool) (log : List DispatchLogEntry) (e : DispatchLogEntry)
    → count_if p (log ++ e ∷ []) ≡ count_if p log + (if p e then 1 else 0)
unfolding keep
count_if-append p log e =
    ap length (keep-append p log (e ∷ []))
    ∙ length-append (keep p log) (keep p (e ∷ []))
    ∙ ground arith

-- The state that is kept for a key agrees with the log, and no key is over its attempts.
pub record IsCounted (max_attempts : ℕ) (r : AlertRepository) (key : String) : Type 0 where
  pub attempts : attempts_of key r.dispatch_log ≡ (state_of r key).attempts
  pub bound : (state_of r key).attempts ≤ max_attempts
  pub deliveries : deliveries_of key r.dispatch_log ≡ (if (state_of r key).succeeded then 1 else 0)

module _ (ids : Ids) (max_attempts now : ℕ) (channel : AlertChannel) (adapter : Adapter) where
  status_for_result-ne-pending :
      (result : DispatchResult) (attempt : ℕ)
      → is_pending (status_for_result max_attempts result attempt) ≡ false
  unfolding status_for_result
  status_for_result-ne-pending result attempt = ground arith

  deliver-IsCounted :
      (alert : AlertRecord) (reservation : DispatchReservation) (r : AlertRepository) (key : String)
      → (state_of r reservation.idempotency_key).succeeded ≡ false
      → IsCounted max_attempts r key
      → IsCounted max_attempts
          (deliver ids max_attempts now channel adapter alert reservation r).1
          key
  unfolding deliver record_dispatch_result
  deliver-IsCounted alert reservation r key unsent v =
      let k = reservation.idempotency_key in
      let result = send_alert (length r.dispatch_log) alert adapter in
      let status = status_for_result max_attempts result reservation.attempt in
      let entry =
        log_entry ids alert channel (ids.payload alert channel) k status reservation.attempt
          (error_for status result) (ids.result k reservation.attempt status) now in
      ground (
        arith,
        v.attempts,
        v.bound,
        v.deliveries,
        status_for_result-ne-pending result reservation.attempt,
        get-put r.dispatch_state k key (after_result ids status (state_of r k)),
        eq_iff k key,
        count_if-append (λ e. (e.idempotency_key == key) && is_pending e.status) r.dispatch_log
            entry,
        count_if-append (λ e. (e.idempotency_key == key) && is_succeeded e.status) r.dispatch_log
            entry,
      )

  reserve_dispatch-IsCounted :
      (alert : AlertRecord) (r : AlertRepository) (key : String)
      → IsCounted max_attempts r key
      → IsCounted max_attempts
          (reserve_dispatch ids alert channel (ids.payload alert channel) now max_attempts r).1
          key
  unfolding reserve_dispatch
  reserve_dispatch-IsCounted alert r key v =
      let k = idempotency_key alert.alert_id channel in
      let state = state_of r k in
      let entry =
        log_entry ids alert channel (ids.payload alert channel) k pending (state.attempts + 1) none
          (ids.attempt k (state.attempts + 1)) now in
      ground (
        arith,
        v.attempts,
        v.bound,
        v.deliveries,
        get-put r.dispatch_state k key state,
        get-put r.dispatch_state k key (record state { attempts = state.attempts + 1 }),
        eq_iff k key,
        count_if-append (λ e. (e.idempotency_key == key) && is_pending e.status) r.dispatch_log
            entry,
        count_if-append (λ e. (e.idempotency_key == key) && is_succeeded e.status) r.dispatch_log
            entry,
      )

  -- A reservation is only made for a key with no delivery yet.
  reserve_dispatch_open :
      (alert : AlertRecord) (r : AlertRepository) {reservation : DispatchReservation}
      → let answer =
          reserve_dispatch ids alert channel (ids.payload alert channel) now max_attempts r in
        answer.0 ≡ some reservation
        → (state_of answer.1 reservation.idempotency_key).succeeded ≡ false
  unfolding reserve_dispatch
  reserve_dispatch_open alert r reserved =
      let k = idempotency_key alert.alert_id channel in
      let state = state_of r k in
      ground
        (arith, get-put_self r.dispatch_state k (record state { attempts = state.attempts + 1 }))

  dispatch_found-IsCounted :
      (alert : AlertRecord) (r : AlertRepository) (key : String)
      → IsCounted max_attempts r key
      → IsCounted max_attempts (dispatch_found ids max_attempts now channel adapter alert r).1 key
  unfolding dispatch_found
  dispatch_found-IsCounted alert r key v =
      let answer =
        reserve_dispatch ids alert channel (ids.payload alert channel) now max_attempts r in
      let reserved = reserve_dispatch-IsCounted alert r key v in
      elim (Option-cases answer.0) [
        | inl closed ↦ rw closed reserved
        | inr (reservation, taken) ↦ rw taken (
            deliver-IsCounted alert reservation answer.1 key (reserve_dispatch_open alert r taken)
              reserved)
      ]

  dispatch_optional-IsCounted :
      (alert : Option AlertRecord) (r : AlertRepository) (key : String)
      → IsCounted max_attempts r key
      → IsCounted max_attempts
          (dispatch_optional ids max_attempts now channel adapter alert r).1
          key
  dispatch_optional-IsCounted none r key v = v
  dispatch_optional-IsCounted (some alert) r key v = dispatch_found-IsCounted alert r key v

  pub dispatch-IsCounted :
      (alert_ids : List String) (r : AlertRepository) (key : String)
      → IsCounted max_attempts r key
      → IsCounted max_attempts (dispatch ids max_attempts now channel adapter alert_ids r).1 key
  unfolding dispatch
  dispatch-IsCounted [] r key v = v
  dispatch-IsCounted (alert_id ∷ alert_ids) r key v =
      let step = dispatch_optional ids max_attempts now channel adapter (get_alert r alert_id) r in
      dispatch-IsCounted alert_ids step.1 key
        (dispatch_optional-IsCounted (get_alert r alert_id) r key v)

-- A call of `dispatch`: its channel and adapter, its time, and the alerts.
pub record Request : Type 0 where
  pub channel : AlertChannel
  pub adapter : Adapter
  pub now : ℕ
  pub alert_ids : List String

unfoldable pub serve : Ids → ℕ → List Request → AlertRepository → AlertRepository
serve ids max_attempts [] r = r
serve ids max_attempts (q ∷ qs) r =
    serve ids max_attempts qs (dispatch ids max_attempts q.now q.channel q.adapter q.alert_ids r).1

serve-IsCounted :
    (ids : Ids) (max_attempts : ℕ) (qs : List Request) (r : AlertRepository) (key : String)
    → IsCounted max_attempts r key
    → IsCounted max_attempts (serve ids max_attempts qs r) key
unfolding serve
serve-IsCounted ids max_attempts [] r key v = v
serve-IsCounted ids max_attempts (q ∷ qs) r key v =
    serve-IsCounted ids max_attempts qs _ key
      (dispatch-IsCounted ids max_attempts q.now q.channel q.adapter q.alert_ids r key v)

-- From a repository with nothing dispatched yet, after any calls of `dispatch` with the same limit,
-- on any channels, with adapters that answer in any way, the log shows for every idempotency key at
-- most as many attempts as the limit, and at most one delivery.
pub serve_limits :
    (ids : Ids) (max_attempts : ℕ) (qs : List Request) (r : AlertRepository) (key : String)
    → r.dispatch_log ≡ []
    → r.dispatch_state ≡ []
    → let log = (serve ids max_attempts qs r).dispatch_log in
      (attempts_of key log ≤ max_attempts) × (deliveries_of key log ≤ 1)
unfolding keep state_of get
serve_limits ids max_attempts qs r key no_log no_state =
    let start : IsCounted max_attempts r key = record {
      attempts = rw (no_log, no_state) refl;
      bound = rw no_state (omega arith);
      deliveries = rw (no_log, no_state) refl;
    } in
    let v = serve-IsCounted ids max_attempts qs r key start in
    (omega (arith, v.attempts, v.bound), ground (arith, v.deliveries))
