-- ===== src/Acquisition/RateLimiter/Backoff.antt =====
-- The exponential backoff after errors.
use apartment_finder.Acquisition.RateLimiter.{DomainPolicy, DomainState, register_error, release}
use apartment_finder.Prelude.{ℕ, zero, suc, false, Option, none}

-- `n` failed requests in a row, the way the worker reports them: the error, then the release. The
-- answer is that of the last `register_error`.
unfoldable pub failures : DomainPolicy → (ℕ → ℕ) → ℕ → DomainState → Option ℕ × DomainState
failures policy clock zero s = (none, s)
failures policy clock (suc n) s =
    let (cooldown, r) = register_error policy (clock n) (failures policy clock n s).1 in
    (cooldown, release false r)
