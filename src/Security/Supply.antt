-- ===== src/Security/Supply.antt =====
-- src/sentinel/security/sbom.py and src/sentinel/security/repository_check.py: the software bill of
-- materials of the lock file, and the checks of the repository's own files. Methods of Python's
-- texts, URL quoting and UUID5 are parameters; files come as the values that are read.
use Prim.Native.String.{◌++◌ as str_append}
use sentinel_content_safety.Base.{
  ◌≡◌, refl, String, Bool, true, false, not, ◌&&◌, ◌||◌, Option, none, some, List, [], ◌∷◌, map,
  any, all, str_eq, if◌then◌else◌, inl, inr, Option-cases,
}

-- `str.lower`, `.replace("_", "-")`, `quote`, the order of texts, `"\n".join`, and UUID5 in the
-- namespace of URLs.
pub record Texts : Type 0 where
  pub lower : String → String
  pub dashes : String → String
  pub quote : String → String
  pub precedes : String → String → Bool
  pub join_lines : List String → String
  pub uuid5 : String → String

-- An entry of the lock file, of which only texts count; an entry that is no table is none.
pub record Package : Type 0 where
  pub name : Option String
  pub version : Option String

pub record SbomComponent : Type 0 where
  pub type : String
  pub bom_ref : String
  pub name : String
  pub version : String
  pub purl : String

pub data SbomError : Type 0 where
  no_package_list not_a_table no_name_or_version : SbomError

pub data Built {ℓ} (A : Type ℓ) : Type ℓ where
  ok : A → Built A
  raised : SbomError → Built A

pub record Sbom : Type 0 where
  pub bom_format : String
  pub spec_version : String
  pub serial_number : String
  pub components : List SbomComponent

module _ (t : Texts) where
  abbrev pub component_of : String → String → SbomComponent
  component_of name version =
      let normalized_name = t.dashes (t.lower name) in
      let purl =
        str_append "pkg:pypi/"
          (str_append (t.quote normalized_name) (str_append "@" (t.quote version))) in
      record {
        type = "library";
        bom_ref = purl;
        name = normalized_name;
        version = version;
        purl = purl;
      }

  abbrev pub same_key : SbomComponent → SbomComponent → Bool
  same_key c d = str_eq c.name d.name && str_eq c.version d.version

  -- The order of the keys `(name, version)`
  abbrev pub before : SbomComponent → SbomComponent → Bool
  before c d = t.precedes c.name d.name || (str_eq c.name d.name && t.precedes c.version d.version)

  -- `components[(name, version)] = ...`, then `sorted(components)`: in one pass that keeps the keys in
  -- order, where the last entry of a key wins.
  unfoldable pub put : SbomComponent → List SbomComponent → List SbomComponent
  put c [] = c ∷ []
  put c (d ∷ ds) =
      let later = put c ds in
      if same_key c d then c ∷ ds else if before c d then c ∷ d ∷ ds else d ∷ later

  unfoldable pub collect : List (Option Package) → List SbomComponent → Built (List SbomComponent)
  unfolding put
  collect [] components = ok components
  collect (none ∷ packages) components = raised not_a_table
  collect (some entry ∷ packages) components = elim entry.name [
    | none ↦ raised no_name_or_version
    | some name ↦ elim entry.version [
      | none ↦ raised no_name_or_version
      | some version ↦ collect packages (put (component_of name version) components)
    ]
  ]

  abbrev pub identity_of : SbomComponent → String
  identity_of c = str_append c.name (str_append "==" c.version)

  -- `build_cyclonedx_sbom`, of what the lock file holds under `package`; the fixed metadata is left
  -- out.
  unfoldable pub build_cyclonedx_sbom : Option (List (Option Package)) → Built Sbom
  unfolding collect
  build_cyclonedx_sbom none = raised no_package_list
  build_cyclonedx_sbom (some packages) = elim (collect packages []) [
    | raised e ↦ raised e
    | ok ordered ↦ ok (record {
      bom_format = "CycloneDX";
      spec_version = "1.6";
      serial_number = str_append "urn:uuid:" (t.uuid5 (t.join_lines (map identity_of ordered)));
      components = ordered;
    })
  ]

-- What the checks read: the policy (none where it cannot be read; a field is none where it is no
-- Boolean), three files, and whether two more are there.
pub record Policy : Type 0 where
  pub required_headers : List String
  pub docs_enabled : Option Bool
  pub hsts_enabled : Option Bool
  pub rate_limit_enabled : Option Bool

pub record Repository : Type 0 where
  pub policy : Option Policy
  pub dockerfile : String
  pub compose : String
  pub gitignore : String
  pub sbom_exists : Bool
  pub scan_exists : Bool

abbrev pub required_headers : List String
required_headers =
    "Cache-Control" ∷ "Content-Security-Policy" ∷ "Permissions-Policy" ∷ "Referrer-Policy"
    ∷ "X-Content-Type-Options" ∷ "X-Frame-Options" ∷ []

-- Equal as sets
abbrev pub same_set : List String → List String → Bool
same_set xs ys = all (λ x. any (str_eq x) ys) xs && all (λ y. any (str_eq y) xs) ys

abbrev pub is_bool : Bool → Option Bool → Bool
is_bool b none = false
is_bool true (some c) = c
is_bool false (some c) = not c

-- `if not ...: errors.append(message)`
abbrev pub unless : Bool → String → List String → List String
unless holds message errors = if holds then errors else message ∷ errors

-- `validate_repository_security`; `contains text fragment` is `fragment in text`.
unfoldable pub validate_repository_security : (String → String → Bool) → Repository → List String
validate_repository_security contains r = elim r.policy [
  | none ↦ "security policy could not be read" ∷ []
  | some policy ↦
      unless (same_set policy.required_headers required_headers)
        "security policy required_headers does not match the runtime contract"
        (unless (is_bool false policy.docs_enabled) "production documentation must be disabled" (
          unless (is_bool true policy.hsts_enabled) "production HSTS must be enabled" (
            unless (is_bool true policy.rate_limit_enabled)
              "production rate limiting must be enabled"
              (unless (contains r.dockerfile "USER sentinel")
                "Docker image must run as the sentinel user"
                (unless (contains r.dockerfile "--no-server-header")
                  "Uvicorn server header must be disabled"
                  (unless (contains r.compose "SENTINEL_RATE_LIMIT_ENABLED: \"true\"")
                    "Compose rate limiting is not enabled"
                    (unless (contains r.compose "SENTINEL_MAX_REQUEST_BYTES: \"8388608\"")
                      "Compose request-size limit is absent"
                      (unless (contains r.compose "\"127.0.0.1:8000:8000\"")
                        "API port is not restricted to localhost"
                        (unless (contains r.compose "no-new-privileges:true")
                          "API/worker privilege escalation is not disabled"
                          (unless (contains r.gitignore ".env") ".env must be ignored" (
                            unless (contains r.gitignore "config/reviewer-auth.json")
                              "config/reviewer-auth.json must be ignored"
                              (unless r.sbom_exists "versioned CycloneDX SBOM is absent" (
                                unless r.scan_exists
                                  "scheduled container vulnerability scan is absent" [])))))))))))))
]

unless-empty :
    (holds : Bool) (message : String) (errors : List String)
    → unless holds message errors ≡ []
    → (holds ≡ true) × (errors ≡ [])
unless-empty true message errors e = (refl, e)
unless-empty false message errors e = cc

-- A repository without errors has a policy that turns the documentation off in production, and HSTS
-- and the rate limit on.
pub validate_repository_security_lem :
    (contains : String → String → Bool) (r : Repository)
    → validate_repository_security contains r ≡ []
    → (policy : Policy) × (r.policy ≡ some policy)
      × (is_bool false policy.docs_enabled ≡ true)
      × (is_bool true policy.hsts_enabled ≡ true)
      × (is_bool true policy.rate_limit_enabled ≡ true)
unfolding validate_repository_security
validate_repository_security_lem contains r e = elim (Option-cases r.policy) [
  | inl absent ↦ let e' = rw (absent, validate_repository_security) at e in cc
  | inr (policy, found) ↦
      let e' = rw (found, validate_repository_security) at e in
      let (_, e1) = unless-empty _ _ _ e' in
      let (docs, e2) = unless-empty _ _ _ e1 in
      let (hsts, e3) = unless-empty _ _ _ e2 in
      let (limit, _) = unless-empty _ _ _ e3 in (policy, found, docs, hsts, limit)
]
