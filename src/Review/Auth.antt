-- ===== src/Review/Auth.antt =====
-- `ReviewAuthorizer` of src/sentinel/review/auth.py. SHA-256, `str.lower` and the code points of a text
-- are parameters; the file comes as the entries that JSON gives.
use sentinel_content_safety.Base.{
  ℕ, ◌≡◌, refl, String, Bool, true, not, ◌&&◌, ◌||◌, none, some, List, [], ◌∷◌, all, length, leb,
  ◌==◌, str_eq, eq_iff, if◌then◌else◌, arith,
}
use sentinel_content_safety.Base.Action.{Result, ok, raised}
use sentinel_content_safety.Base.Dict.{Dict, lookup, insert}
use sentinel_content_safety.Review.Models.{ReviewPrincipal, ReviewError, authorization}

-- An entry of the file whose role is one of the roles.
pub record AuthEntry : Type 0 where
  pub token_sha256 : String
  pub principal : ReviewPrincipal

pub data AuthError : Type 0 where
  no_principals bad_digest : AuthError

abbrev pub is_hex : ℕ → Bool
is_hex c = (leb b'0' c && leb c b'9') || (leb b'a' c && leb c b'f')

-- `authenticate`: the first held hash that is that of the token.
unfoldable pub find_principal : String → Dict ReviewPrincipal → Result ReviewError ReviewPrincipal
find_principal candidate [] = raised (authorization "invalid reviewer credentials")
find_principal candidate ((token_hash, principal) ∷ rest) =
    let later = find_principal candidate rest in
    if str_eq candidate token_hash then ok principal else later

unfoldable pub authenticate :
    (String → String) → Dict ReviewPrincipal → String → Result ReviewError ReviewPrincipal
unfolding find_principal
authenticate sha256 token_hashes token = find_principal (sha256 token) token_hashes

find_principal_lem :
    (candidate : String) (d : Dict ReviewPrincipal)
    → find_principal candidate d ≡ (elim (lookup candidate d) [
      | some principal ↦ ok principal
      | none ↦ raised (authorization "invalid reviewer credentials")
    ])
unfolding find_principal lookup
find_principal_lem candidate [] = refl
find_principal_lem candidate ((h, p) ∷ rest) =
    ground (arith, find_principal_lem candidate rest, eq_iff candidate h, eq_iff h candidate)

module _ (lower : String → String) (code_points : String → List ℕ) where
  -- 64 hexadecimal digits, in lower case.
  unfoldable pub is_digest : String → Bool
  is_digest h = length (code_points h) == 64 && all is_hex (code_points h)

  unfoldable pub read_entries :
      List AuthEntry → Dict ReviewPrincipal → Result AuthError (Dict ReviewPrincipal)
  unfolding is_digest
  read_entries [] token_hashes = ok token_hashes
  read_entries (entry ∷ entries) token_hashes =
      let rest =
        read_entries entries (insert (lower entry.token_sha256) entry.principal token_hashes) in
      if not (is_digest (lower entry.token_sha256)) then raised bad_digest else rest

  -- `from_file`, on the principals of the document.
  unfoldable pub from_file : List AuthEntry → Result AuthError (Dict ReviewPrincipal)
  unfolding read_entries
  from_file [] = raised no_principals
  from_file (entry ∷ entries) = read_entries (entry ∷ entries) []

  -- The principals that are held all have digests as their keys.
  abbrev pub keyed_by_digests : Dict ReviewPrincipal → Bool
  keyed_by_digests d = all (λ (e : String × ReviewPrincipal). is_digest e.0) d

  insert-digest :
      (h : String) (p : ReviewPrincipal) (d : Dict ReviewPrincipal)
      → is_digest h ≡ true
      → keyed_by_digests d ≡ true
      → keyed_by_digests (insert h p d) ≡ true
  unfolding insert
  insert-digest h p [] e k = ground arith
  insert-digest h p ((j, q) ∷ d) e k = ground (arith, insert-digest h p d)

  read_entries-digest :
      (entries : List AuthEntry) (d : Dict ReviewPrincipal) {d' : Dict ReviewPrincipal}
      → keyed_by_digests d ≡ true
      → read_entries entries d ≡ ok d'
      → keyed_by_digests d' ≡ true
  unfolding read_entries
  read_entries-digest [] d k e = ground arith
  read_entries-digest (entry ∷ entries) d {d'} k e = ground (
    arith,
    insert-digest (lower entry.token_sha256) entry.principal d,
    read_entries-digest entries (insert (lower entry.token_sha256) entry.principal d) {d' = d'},
  )

  -- Of a file that loads: every held key is a digest, and a token is given the principal that is
  -- held under the hash of the token, or refused where there is none.
  pub authenticate_lem :
      (sha256 : String → String) (entries : List AuthEntry) (token : String)
      {token_hashes : Dict ReviewPrincipal}
      → from_file entries ≡ ok token_hashes
      → (keyed_by_digests token_hashes ≡ true)
        × (authenticate sha256 token_hashes token ≡ (elim (lookup (sha256 token) token_hashes) [
          | some principal ↦ ok principal
          | none ↦ raised (authorization "invalid reviewer credentials")
        ]))
  unfolding from_file authenticate
  authenticate_lem sha256 [] token e = ground arith
  authenticate_lem sha256 (entry ∷ entries) token {token_hashes} e = (
    read_entries-digest (entry ∷ entries) [] refl e,
    find_principal_lem (sha256 token) token_hashes,
  )
