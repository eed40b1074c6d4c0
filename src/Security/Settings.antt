-- ===== src/Security/Settings.antt =====
-- What the settings guarantee that src/sentinel/security/config.py reads from the environment.
use mathlib.Core.Bool.{false≢true}
use sentinel_content_safety.Base.{
  ℕ, ◌<◌, ◌≡◌, ◌≢◌, refl, sym, ap, ◌∙◌, subst, String, true, false, str_eq, eq_iff, arith,
  Bool-cases, inl, inr, ◌⊎◌, ◌*◌,
}
use sentinel_content_safety.Security.Config.{
  Environment, SecuritySettings, Read, ok, raised, ◌>>=◌, boolean, positive_integer, validate,
  or_default, from_env, ConfigError,
}

-- What production asks of settings.
pub record IsHardened (s : SecuritySettings) : Type 0 where
  pub docs : s.docs_enabled ≡ false
  pub hsts : s.hsts_enabled ≡ true
  pub limited : s.rate_limit_enabled ≡ true

validate-IsHardened :
    (env : Environment) (s : SecuritySettings)
    → s.environment ≡ "production"
    → validate env s ≡ ok tt
    → IsHardened s
unfolding validate
validate-IsHardened env s production h =
    ground (arith, (eq_iff s.environment "production").1 production)

positive_integer-positive :
    (env : Environment) (name : String) (default : ℕ) {n : ℕ}
    → 0 < default
    → positive_integer env name default ≡ ok n
    → 0 < n
unfolding positive_integer
positive_integer-positive env name default h e = ground arith

ok≢raised : {A : Type 0} {a : A} {e : ConfigError} → ◌≢◌ {A = Read A} (ok a) (raised e)
ok≢raised e = cc

bind-ok :
    {A B Q : Type 0} (m : Read A) (f : A → Read B) {b : B}
    → (m >>= f) ≡ ok b
    → ((a : A) → m ≡ ok a → f a ≡ ok b → Q)
    → Q
bind-ok (ok a) f h k = k a refl h
bind-ok (raised e) f h k = absurd (ok≢raised (sym h))

ok-inj : {A : Type 0} {a b : A} → ◌≡◌ {A = Read A} (ok a) (ok b) → a ≡ b
ok-inj {A} {a} e = ap (λ (r : Read A). elim r [ ok x ↦ x | raised _ ↦ a ]) e

IsHardened-or_not :
    (env : Environment) (s : SecuritySettings) (done : Unit {0})
    → validate env s ≡ ok done
    → (s.environment ≢ "production") ⊎ IsHardened s
IsHardened-or_not env s done h = elim (Bool-cases (str_eq s.environment "production")) [
  | inl e ↦ inr (validate-IsHardened env s ((eq_iff s.environment "production").0 e) h)
  | inr e ↦ inl (λ same. false≢true (sym e ∙ (eq_iff s.environment "production").1 same))
]

-- Positive limits, and what production asks.
abbrev pub IsFit : SecuritySettings → Type 0
IsFit s =
    (0 < s.max_request_bytes)
    × (0 < s.rate_limit_requests)
    × (0 < s.rate_limit_window_seconds)
    × (0 < s.rate_limit_max_clients)
    × ((s.environment ≢ "production") ⊎ IsHardened s)

-- The settings that `from_env` accepts have positive limits, and if they are for production, the API
-- documentation is off and HSTS and the rate limit are on.
pub from_env-IsFit : (env : Environment) {s : SecuritySettings} → from_env env ≡ ok s → IsFit s
unfolding from_env
from_env-IsFit env h = bind-ok (boolean env "SENTINEL_DOCS_ENABLED" true) _ h λ docs _ h1.
    bind-ok (boolean env "SENTINEL_HSTS_ENABLED" false) _ h1 λ hsts _ h2.
      bind-ok (positive_integer env "SENTINEL_MAX_REQUEST_BYTES" (8 * 1024 * 1024)) _ h2
        λ size e3 h3. bind-ok (boolean env "SENTINEL_RATE_LIMIT_ENABLED" false) _ h3 λ limited _ h4.
          bind-ok (positive_integer env "SENTINEL_RATE_LIMIT_REQUESTS" 120) _ h4 λ requests e5 h5.
            bind-ok (positive_integer env "SENTINEL_RATE_LIMIT_WINDOW_SECONDS" 60) _ h5
              λ window e6 h6.
                bind-ok (positive_integer env "SENTINEL_RATE_LIMIT_MAX_CLIENTS" 10_000) _ h6
                  λ most e7 h7.
                    let settings : SecuritySettings = record {
                      environment = env.lower (
                          env.strip (or_default (env.getenv "SENTINEL_ENVIRONMENT") "development"));
                      docs_enabled = docs;
                      hsts_enabled = hsts;
                      max_request_bytes = size;
                      rate_limit_enabled = limited;
                      rate_limit_requests = requests;
                      rate_limit_window_seconds = window;
                      rate_limit_max_clients = most;
                    } in
                    bind-ok (validate env settings) (λ _. ok settings) h7
                      λ done valid same. subst IsFit {x = settings} (ok-inj same) (
                        positive_integer-positive env "SENTINEL_MAX_REQUEST_BYTES" (8 * 1024 * 1024)
                            (omega arith) e3,
                        positive_integer-positive env "SENTINEL_RATE_LIMIT_REQUESTS" 120
                            (omega arith) e5,
                        positive_integer-positive env "SENTINEL_RATE_LIMIT_WINDOW_SECONDS" 60
                            (omega arith) e6,
                        positive_integer-positive env "SENTINEL_RATE_LIMIT_MAX_CLIENTS" 10_000
                            (omega arith) e7,
                        IsHardened-or_not env settings done valid,
                      )
