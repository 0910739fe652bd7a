-- ===== src/Acquisition/RateLimiter/Domains.antt =====
-- The limiter keeps one state for each domain, and a call on one leaves the others alone.
use apartment_finder.Prelude.{◌≡◌, refl, String, false, ◌==◌, string_eq}
use apartment_finder.Prelude.Dict.{get-put_self, get-put_ne}
use apartment_finder.Acquisition.RateLimiter.{
  DomainPolicy, DomainState, RateLimiter, policy_for, state_for, on_domain,
}

module _ {A : Type 0} (method : DomainPolicy → DomainState → A × DomainState) where
  pub state_for-on_domain :
      (domain : String) (l : RateLimiter)
      → state_for (on_domain domain method l).1 domain
        ≡ (method (policy_for l domain) (state_for l domain)).1
  unfolding state_for on_domain
  state_for-on_domain domain l = rw get-put_self refl

  pub state_for-on_domain_ne :
      (domain other : String) (l : RateLimiter)
      → (domain == other) ≡ false
      → state_for (on_domain domain method l).1 other ≡ state_for l other
  unfolding state_for on_domain
  state_for-on_domain_ne domain other l ne = rw (get-put_ne _ _ _ _ ne) refl

  pub policy_for-on_domain :
      (domain other : String) (l : RateLimiter)
      → policy_for (on_domain domain method l).1 other ≡ policy_for l other
  unfolding policy_for on_domain
  policy_for-on_domain domain other l = refl
