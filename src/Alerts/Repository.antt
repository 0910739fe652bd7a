-- ===== src/Alerts/Repository.antt =====
-- services/alerts/repository.py. The ids that `deterministic_id` makes and the hash of the payload
-- are functions of their inputs, and otherwise left open.
use Prim.Native.String.{◌++◌ as text_append}
use apartment_finder.Prelude.{
  ℕ, ◌+◌, String, Bool, true, false, ◌||◌, Option, none, some, List, [], ◌∷◌, ◌++◌, leb, or_else,
  if◌then◌else◌, string_eq, pair_eq,
}
use apartment_finder.Prelude.Dict.{Dict, get, put}
use apartment_finder.Common.Enums.{AlertChannel, channel_value}
use apartment_finder.Common.Text.{truthy}
use apartment_finder.Alerts.Models.{
  DispatchStatus, pending, succeeded, retrying, failed, AlertRecord, DispatchLogEntry,
  MatchLogEntry, DispatchState, initial_state, DispatchReservation,
}

pub record AlertRepository : Type 0 where
  pub alerts : Dict String AlertRecord
  pub by_key : Dict (String × String) String
  pub dispatch_log : List DispatchLogEntry
  pub dispatch_state : Dict String DispatchState
  pub match_log : List MatchLogEntry

pub record Ids : Type 0 where
  pub alert : String → String → String
  pub attempt : String → ℕ → String
  pub result : String → ℕ → DispatchStatus → String
  pub payload : AlertRecord → AlertChannel → String

-- An id is found if the key is there and the id is not the empty text.
abbrev pub existing : Option String → Option String
existing none = none
existing (some alert_id) = if truthy alert_id then some alert_id else none

abbrev pub with_flag : Option AlertRecord → Option (AlertRecord × Bool)
with_flag none = none
with_flag (some alert) = some (alert, false)

unfoldable pub idempotency_key : String → AlertChannel → String
idempotency_key alert_id channel = text_append alert_id (text_append ":" (channel_value channel))

unfoldable pub record_match : MatchLogEntry → AlertRepository → AlertRepository
record_match entry r = record r { match_log = r.match_log ++ entry ∷ [] }

unfoldable pub get_alert : AlertRepository → String → Option AlertRecord
get_alert r alert_id = get r.alerts alert_id

-- `self._dispatch_state.setdefault(key, DispatchState())`
unfoldable pub state_of : AlertRepository → String → DispatchState
state_of r key = or_else (get r.dispatch_state key) initial_state

module _ (ids : Ids) where
  abbrev pub new_alert : String → String → String → ℕ → AlertRecord
  new_alert search_spec_id listing_id listing_change_id created_at = record {
    alert_id = ids.alert search_spec_id listing_change_id;
    search_spec_id = search_spec_id;
    listing_id = listing_id;
    listing_change_id = listing_change_id;
    created_at = created_at;
  }

  -- The alert of a change for a search, and whether it is new. `none` is the KeyError of an id with
  -- no alert.
  unfoldable pub add :
      String → String → String → ℕ → AlertRepository → Option (AlertRecord × Bool) × AlertRepository
  add search_spec_id listing_id listing_change_id created_at r =
      let new = new_alert search_spec_id listing_id listing_change_id created_at in
      elim (existing (get r.by_key (search_spec_id, listing_change_id))) [
        | some alert_id ↦ (with_flag (get r.alerts alert_id), r)
        | none ↦ (
          some (new, true),
          record r {
            alerts = put r.alerts new.alert_id new;
            by_key = put r.by_key (search_spec_id, listing_change_id) new.alert_id;
          },
        )
      ]

  abbrev pub log_entry :
      AlertRecord
      → AlertChannel
      → String
      → String
      → DispatchStatus
      → ℕ
      → Option String
      → String
      → ℕ
      → DispatchLogEntry
  log_entry alert channel payload_hash key status attempt error dispatch_id created_at = record {
    dispatch_id = dispatch_id;
    alert_id = alert.alert_id;
    listing_change_id = alert.listing_change_id;
    search_spec_id = alert.search_spec_id;
    channel = channel;
    payload_hash = payload_hash;
    idempotency_key = key;
    status = status;
    attempt = attempt;
    error = error;
    created_at = created_at;
  }

  -- `state.succeeded or state.terminal_failure or state.attempts >= max_attempts`
  abbrev pub is_closed : DispatchState → ℕ → Bool
  is_closed state max_attempts =
      state.succeeded || (state.terminal_failure || leb max_attempts state.attempts)

  unfoldable pub reserve_dispatch :
      AlertRecord
      → AlertChannel
      → String
      → ℕ
      → ℕ
      → AlertRepository
      → Option DispatchReservation × AlertRepository
  unfolding state_of
  reserve_dispatch alert channel payload_hash created_at max_attempts r =
      let key = idempotency_key alert.alert_id channel in
      let state = state_of r key in
      let attempt = state.attempts + 1 in
      if is_closed state max_attempts
      then (none, record r { dispatch_state = put r.dispatch_state key state })
      else (
        some (record { idempotency_key = key; attempt = attempt }),
        record r {
          dispatch_state = put r.dispatch_state key (record state { attempts = attempt });
          dispatch_log =
              r.dispatch_log
              ++ log_entry alert channel payload_hash key pending attempt none
                  (ids.attempt key attempt) created_at
                ∷ [];
        },
      )

  abbrev pub after_result : DispatchStatus → DispatchState → DispatchState
  after_result succeeded state = record state { succeeded = true }
  after_result failed state = record state { terminal_failure = true }
  after_result retrying state = state
  after_result pending state = state

  unfoldable pub record_dispatch_result :
      AlertRecord
      → AlertChannel
      → String
      → DispatchReservation
      → DispatchStatus
      → Option String
      → ℕ
      → AlertRepository
      → DispatchStatus × AlertRepository
  unfolding state_of
  record_dispatch_result alert channel payload_hash reservation status error created_at r =
      let key = reservation.idempotency_key in
      (
        status,
        record r {
          dispatch_state = put r.dispatch_state key (after_result status (state_of r key));
          dispatch_log =
              r.dispatch_log
              ++ log_entry alert channel payload_hash key status reservation.attempt error
                  (ids.result key reservation.attempt status) created_at
                ∷ [];
        },
      )
