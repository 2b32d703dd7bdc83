-- ===== src/Http/Auth/Validator.antt =====
-- KeycloakValidator of internal/infra/auth/validator.go: the keys of the identity provider, which
-- are kept for a while, and what is asked of a token. One validation runs at a time, as under its
-- lock.
pub mod Trusted
use go_challenge_fc.Base.{
  ◌||◌, ℕ, ◌+◌, ◌*◌, ◌-◌, Bool, true, false, not, ◌&&◌, List, [], ◌∷◌, Option, none, some, String,
  str_eq, ltb, if◌then◌else◌,
}
use go_challenge_fc.Base.Int.{ℤ, pos, ◌+ℤ◌, wrap64}
use go_challenge_fc.Base.Time.{second, times}
use go_challenge_fc.Http.Auth.{Claims}

pub record Jwk : Type 0 where
  pub kty : String
  pub kid : String
  pub n : String
  pub e : String

-- rsa.PublicKey
pub record PublicKey : Type 0 where
  pub modulus : ℕ
  pub exponent : ℤ

-- The answer to the request for the key set: none comes, one comes with a status other than 200,
-- its body cannot be decoded, or it holds keys.
pub data Answer : Type 0 where
  unreachable : Answer
  bad_status : ℕ → Answer
  undecodable : Answer
  key_set : List Jwk → Answer

pub record Validator : Type 0 where
  pub issuer : String
  pub keys : List (String × PublicKey)
  pub last_fetch : Option ℕ
  pub cache_ttl : ℕ

-- NewKeycloakValidator; the zero time of lastFetch is `none`.
unfoldable pub new_validator : String → Validator
new_validator issuer = record {
  issuer = issuer;
  keys = [];
  last_fetch = none;
  cache_ttl = 15 * (60 * second);
}

-- big.Int.SetBytes, and the loop over the bytes of the exponent in an int.
abbrev pub set_bytes : ℕ → List ℕ → ℕ
set_bytes n [] = n
set_bytes n (b ∷ bs) = set_bytes (n * 256 + b) bs

abbrev pub exponent_of : ℤ → List ℕ → ℤ
exponent_of e [] = e
exponent_of e (b ∷ bs) = exponent_of (wrap64 (times e 256 +ℤ pos b)) bs

-- base64.RawURLEncoding.DecodeString, none where it fails.
abbrev pub Base64 : Type 0
Base64 = String → Option (List ℕ)

abbrev pub key_of_bytes : Option (List ℕ) → Option (List ℕ) → Option PublicKey
key_of_bytes (some n) (some e) =
    some (record { modulus = set_bytes 0 n; exponent = exponent_of (pos 0) e })
key_of_bytes _ _ = none

unfoldable pub parse_rsa_public_key : Base64 → String → String → Option PublicKey
parse_rsa_public_key b64 n e = key_of_bytes (b64 n) (b64 e)

-- v.keys[kid]
abbrev pub look_up : String → List (String × PublicKey) → Option PublicKey
look_up kid [] = none
look_up kid ((k, key) ∷ ks) = if str_eq k kid then some key else look_up kid ks

-- v.keys[k.Kid] = pubKey, for a key that can be parsed; a later key replaces an earlier one.
abbrev pub add_key :
    String → Option PublicKey → List (String × PublicKey) → List (String × PublicKey)
add_key kid none ks = ks
add_key kid (some key) ks = (kid, key) ∷ ks

unfoldable pub keys_of : Base64 → List Jwk → List (String × PublicKey) → List (String × PublicKey)
unfolding parse_rsa_public_key
keys_of b64 [] ks = ks
keys_of b64 (k ∷ rest) ks =
    keys_of b64 rest
      (if str_eq k.kty "RSA" then add_key k.kid (parse_rsa_public_key b64 k.n k.e) ks else ks)

-- time.Since(v.lastFetch) < v.cacheTTL
abbrev pub is_fresh : ℕ → Option ℕ → ℕ → Bool
is_fresh now none ttl = false
is_fresh now (some at) ttl = ltb (now - at) ttl

-- The key set is fetched at the time `now`.
unfoldable pub refresh : Base64 → ℕ → Answer → String → Validator → Option PublicKey × Validator
unfolding keys_of
refresh b64 now (key_set ks) kid v =
    let keys = keys_of b64 ks [] in
    (look_up kid keys, record v { keys = keys; last_fetch = some now })
refresh b64 now _ kid v = (none, v)

abbrev pub known_or :
    Option PublicKey
    → Bool
    → Option PublicKey × Validator
    → Validator
    → Option PublicKey × Validator
known_or (some key) true fetched v = (some key, v)
known_or _ _ fetched v = fetched

-- KeycloakValidator.getKey: its key, none for an error. The second check, under the lock, meets the
-- same keys at the same time here.
unfoldable pub get_key : Base64 → ℕ → Answer → String → Validator → Option PublicKey × Validator
unfolding refresh
get_key b64 now answer kid v =
    known_or (look_up kid v.keys) (is_fresh now v.last_fetch v.cache_ttl)
      (refresh b64 now answer kid v) v

-- What jwt.ParseWithClaims reads from a token before it asks for the key.
pub record Token : Type 0 where
  pub is_rsa : Bool
  pub kid : String
  pub issuer : String
  pub expires_at : Option ℕ
  pub claims : Claims

-- The libraries: golang-jwt's reading of a token (none where it fails), whether it accepts the
-- signature and the registered claims under a key, base64 and strings.EqualFold.
pub record Jwt : Type 0 where
  pub read : List ℕ → Option Token
  pub accepts : PublicKey → List ℕ → Bool
  pub base64 : Base64
  pub equal_fold : String → String → Bool

abbrev pub is_expired : ℕ → Option ℕ → Bool
is_expired now none = false
is_expired now (some at) = ltb at now

-- From the key on.
unfoldable pub check_token : Jwt → ℕ → String → List ℕ → Token → Option PublicKey → Option Claims
check_token jwt now issuer text t none = none
check_token jwt now issuer text t (some key) =
    if not (jwt.accepts key text)
    then none
    else if not (str_eq issuer "") && not (jwt.equal_fold t.issuer issuer)
    then none
    else if is_expired now t.expires_at
    then none
    else some t.claims

-- The function that ValidateToken hands to jwt.ParseWithClaims, and what follows.
unfoldable pub validate_read :
    Jwt → ℕ → Answer → List ℕ → Validator → Option Token → Option Claims × Validator
unfolding get_key check_token
validate_read jwt now answer text v none = (none, v)
validate_read jwt now answer text v (some t) =
    let (key, v') = get_key jwt.base64 now answer t.kid v in
    let checked : Option Claims × Validator = (check_token jwt now v.issuer text t key, v') in
    if not t.is_rsa || str_eq t.kid "" then (none, v) else checked

-- KeycloakValidator.ValidateToken: the claims, none for an error.
unfoldable pub validate_token : Jwt → ℕ → Answer → List ℕ → Validator → Option Claims × Validator
unfolding validate_read
validate_token jwt now answer text v = validate_read jwt now answer text v (jwt.read text)
