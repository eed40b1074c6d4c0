-- ===== src/Api/Http.antt =====
-- What the handlers of src/sentinel/api/ share: the state of the application that they change, the
-- exceptions that FastAPI turns into responses, and `try`.
use sentinel_content_safety.Base.{ℕ, String, Option, ◌≡◌, refl, ap}
use sentinel_content_safety.Base.Action.{Result, ok, raised, Action}
use sentinel_content_safety.Core.Trie.{Text}
use sentinel_content_safety.Review.Models.{ReviewPrincipal, ReviewError}
use sentinel_content_safety.Review.Repository.{ReviewRepository}
use sentinel_content_safety.Base.Dict.{Dict}

-- An `HTTPException`, an exception of the workflow that a handler passes on, or another one that no
-- handler catches.
pub data HttpError : Type 0 where
  http : ℕ → String → HttpError
  uncaught : ReviewError → HttpError
  unhandled : HttpError

-- What of the application's state changes: the repository of the reviews and the metrics.
pub record Served (S R : Type 0) : Type 0 where
  pub repository : S
  pub registry : R

-- `app.state.review_service` and `app.state.review_authorizer`: the operations of the repository and
-- the hashes of the tokens.
pub record ReviewApp (S : Type 0) : Type 0 where
  pub review_service : Option (ReviewRepository S)
  pub review_authorizer : Option (Dict ReviewPrincipal)

-- What of Python's texts the handlers use: `str.lower`, the text of a list of code points, the
-- hexadecimal SHA-256 of a text.
pub record Texts : Type 0 where
  pub lower : Text → Text
  pub string_of : Text → String
  pub sha256 : String → String

module _ {E F A Σ : Type 0} where
  abbrev caught : (E → Action F Σ A) → Result E A × Σ → Result F A × Σ
  caught handler (ok a, s) = (ok a, s)
  caught handler (raised e, s) = handler e s

  -- `try: ... except error: ...`
  unfoldable pub catching : Action E Σ A → (E → Action F Σ A) → Action F Σ A
  catching m handler s = caught handler (m s)

  module _ (m : Action E Σ A) (handler : E → Action F Σ A) {s s' : Σ} where
    pub catching-ok : {a : A} → m s ≡ (ok a, s') → catching m handler s ≡ (ok a, s')
    unfolding catching
    catching-ok e = ap (caught handler) e

    pub catching-raised : {e : E} → m s ≡ (raised e, s') → catching m handler s ≡ handler e s'
    unfolding catching
    catching-raised e = ap (caught handler) e

module _ {E A S R : Type 0} where
  -- A call of the review service.
  unfoldable pub on_repository : Action E S A → Action E (Served S R) A
  on_repository m s = let (r, u) = m s.repository in (r, record s { repository = u })

  pub on_repository-result :
      (m : Action E S A) (s : Served S R) {r : Result E A}
      → (m s.repository).0 ≡ r
      → on_repository m s ≡ (r, record s { repository = (m s.repository).1 })
  unfolding on_repository
  on_repository-result m s e = rw e refl

module _ {E Σ A : Type 0} where
  unfoldable pub returns : Result E A → Action E Σ A
  returns r s = (r, s)
