-- ===== src/Review/Failed.antt =====
-- Calls of src/sentinel/review/service.py that raise.
use sentinel_content_safety.Base.{◌≡◌, refl, String}
use sentinel_content_safety.Schemas.{Decision}
use sentinel_content_safety.Review.Models.{ReviewPrincipal, ReviewCase, ReviewError, Platform}
use sentinel_content_safety.Review.Repository.{ReviewRepository}
use sentinel_content_safety.Base.Action.{Result, raised, raise_if_rule, gets_rule, modify_pure_rule}
use sentinel_content_safety.Review.Service.{Readings, claim, decide, appeal}
use sentinel_content_safety.Review.Steps.{get_case_rule}

module _ {S : Type 0} (p : Platform) (repository : ReviewRepository S) (s : S) where
  abbrev Unchanged : ReviewError → Result ReviewError ReviewCase × S → Type 0
  Unchanged error r = r.0 ≡ raised error → r.1 ≡ s

  -- A claim that raises leaves the repository as it was.
  pub failed_claim-unchanged :
      (t : Readings) (id : String) (principal : ReviewPrincipal) {error : ReviewError}
      → (claim p repository t id principal s).0 ≡ raised error
      → (claim p repository t id principal s).1 ≡ s
  unfolding claim
  failed_claim-unchanged t id principal {error} =
      raise_if_rule (Unchanged error) _ _ _ s (λ _ _. refl)
        λ _.
          get_case_rule p repository s (Unchanged error) id _ (λ _ _. refl)
            λ c _.
              raise_if_rule (Unchanged error) _ _ _ s (λ _ _. refl)
                λ _.
                  raise_if_rule (Unchanged error) _ _ _ s (λ _ _. refl)
                    λ _. modify_pure_rule (Unchanged error) _ _ s (λ e. cc)

  -- A decision that raises leaves the repository as it was.
  pub failed_decide-unchanged :
      (t : Readings) (id : String) (principal : ReviewPrincipal) (decision : Decision)
      (reason : String) {error : ReviewError}
      → (decide p repository t id principal decision reason s).0 ≡ raised error
      → (decide p repository t id principal decision reason s).1 ≡ s
  unfolding decide
  failed_decide-unchanged t id principal decision reason {error} =
      raise_if_rule (Unchanged error) _ _ _ s (λ _ _. refl)
        λ _.
          raise_if_rule (Unchanged error) _ _ _ s (λ _ _. refl)
            λ _.
              get_case_rule p repository s (Unchanged error) id _ (λ _ _. refl)
                λ c _.
                  raise_if_rule (Unchanged error) _ _ _ s (λ _ _. refl)
                    λ _.
                      raise_if_rule (Unchanged error) _ _ _ s (λ _ _. refl)
                        λ _. gets_rule (Unchanged error) _ _ s (
                          raise_if_rule (Unchanged error) _ _ _ s (λ _ _. refl)
                            λ _. modify_pure_rule (Unchanged error) _ _ s (λ e. cc))

  -- An appeal that raises leaves the repository as it was.
  pub failed_appeal-unchanged :
      (t : Readings) (id : String) (principal : ReviewPrincipal) (reason : String)
      {error : ReviewError}
      → (appeal p repository t id principal reason s).0 ≡ raised error
      → (appeal p repository t id principal reason s).1 ≡ s
  unfolding appeal
  failed_appeal-unchanged t id principal reason {error} =
      raise_if_rule (Unchanged error) _ _ _ s (λ _ _. refl)
        λ _.
          get_case_rule p repository s (Unchanged error) id _ (λ _ _. refl)
            λ c _.
              raise_if_rule (Unchanged error) _ _ _ s (λ _ _. refl)
                λ _. modify_pure_rule (Unchanged error) _ _ s (λ e. cc)
