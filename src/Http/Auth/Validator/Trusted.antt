-- ===== src/Http/Auth/Validator/Trusted.antt =====
-- Whose tokens are accepted.
use go_challenge_fc.Base.{
  ◌≢◌, ◌∙◌, Option-cases, ℕ, ◌≡◌, refl, ◌⊎◌, inl, inr, Bool, true, false, not, ◌||◌, List, [], ◌∷◌,
  Option, none, some, String, str_eq, arith, Bool-cases, if◌then◌else◌,
}
use go_challenge_fc.Http.Auth.{Claims}
use go_challenge_fc.Http.Auth.Validator.{
  Jwk, PublicKey, Answer, unreachable, bad_status, undecodable, key_set, Validator, Base64,
  parse_rsa_public_key, look_up, add_key, keys_of, is_fresh, refresh, known_or, get_key, Token, Jwt,
  is_expired, check_token, validate_read, validate_token,
}

-- An RSA key that the identity provider publishes under a key id.
abbrev pub Publishes : Base64 → String → PublicKey → List Jwk → Type 0
Publishes b64 kid key [] = ⊥
Publishes b64 kid key (k ∷ ks) =
    ((str_eq k.kty "RSA" ≡ true)
      × (str_eq k.kid kid ≡ true)
      × (parse_rsa_public_key b64 k.n k.e ≡ some key))
    ⊎ Publishes b64 kid key ks

module _ (b64 : Base64) (kid : String) (key : PublicKey) where
  added :
      (k : Jwk) (jwks : List Jwk) (ks : List (String × PublicKey))
      → look_up kid
          (if str_eq k.kty "RSA" then add_key k.kid (parse_rsa_public_key b64 k.n k.e) ks else ks)
        ≡ some key
      → Publishes b64 kid key (k ∷ jwks) ⊎ (look_up kid ks ≡ some key)
  added k jwks ks h = elim (Bool-cases (str_eq k.kty "RSA")) [
    | inl rsa ↦ elim (Option-cases (parse_rsa_public_key b64 k.n k.e)) [
      | inl bad ↦ inr (rw (rsa, bad) at h)
      | inr (made, good) ↦ elim (Bool-cases (str_eq k.kid kid)) [
        | inl same ↦ inl (inl (rsa, same, (good ∙ (rw (rsa, good, same) at h))))
        | inr other ↦ inr (rw (rsa, good, other) at h)
      ]
    ]
    | inr no_rsa ↦ inr (rw no_rsa at h)
  ]

  keys_of-Publishes :
      (jwks : List Jwk) (ks : List (String × PublicKey))
      → look_up kid (keys_of b64 jwks ks) ≡ some key
      → Publishes b64 kid key jwks ⊎ (look_up kid ks ≡ some key)
  unfolding keys_of
  keys_of-Publishes [] ks h = inr h
  keys_of-Publishes (k ∷ jwks) ks h = elim (keys_of-Publishes jwks _ h) [
    | inl later ↦ inl (inr later)
    | inr here ↦ added k jwks ks here
  ]

-- Where the key of a validation comes from: the keys that are kept, if they are fresh, or the key
-- set that the identity provider has answered with.
abbrev pub Origin : Base64 → ℕ → Answer → String → Validator → PublicKey → Type 0
Origin b64 now answer kid v key =
    ((look_up kid v.keys ≡ some key) × (is_fresh now v.last_fetch v.cache_ttl ≡ true))
    ⊎ ((jwks : List Jwk) × (answer ≡ key_set jwks) × Publishes b64 kid key jwks)

module _ (b64 : Base64) (now : ℕ) (kid : String) (v : Validator) (key : PublicKey) where
  refresh-Origin :
      (answer : Answer)
      → (refresh b64 now answer kid v).0 ≡ some key
      → Origin b64 now answer kid v key
  unfolding refresh
  refresh-Origin unreachable h = cc
  refresh-Origin (bad_status n) h = cc
  refresh-Origin undecodable h = cc
  refresh-Origin (key_set jwks) h = elim (keys_of-Publishes b64 kid key jwks [] h) [
    | inl published ↦ inr (jwks, refl, published)
    | inr absurdly ↦ cc
  ]

  known-Origin :
      (answer : Answer) (known : Option PublicKey) (fresh : Bool)
      → look_up kid v.keys ≡ known
      → is_fresh now v.last_fetch v.cache_ttl ≡ fresh
      → (known_or known fresh (refresh b64 now answer kid v) v).0 ≡ some key
      → Origin b64 now answer kid v key
  known-Origin answer (some k) true e f h = inl (e ∙ h, f)
  known-Origin answer (some k) false e f h = refresh-Origin answer h
  known-Origin answer none true e f h = refresh-Origin answer h
  known-Origin answer none false e f h = refresh-Origin answer h

  get_key-Origin :
      (answer : Answer)
      → (get_key b64 now answer kid v).0 ≡ some key
      → Origin b64 now answer kid v key
  unfolding get_key
  get_key-Origin answer h = known-Origin answer _ _ refl refl h

-- What holds of a token that is accepted with these claims.
pub record Trusted (jwt : Jwt) (now : ℕ) (answer : Answer) (text : List ℕ) (v : Validator)
    (c : Claims) : Type 0 where
  pub token : Token
  pub key : PublicKey
  pub read : jwt.read text ≡ some token
  pub claimed : token.claims ≡ c
  pub method : token.is_rsa ≡ true
  pub origin : Origin jwt.base64 now answer token.kid v key
  pub signed : jwt.accepts key text ≡ true
  pub issued : (str_eq v.issuer "" ≡ true) ⊎ (jwt.equal_fold token.issuer v.issuer ≡ true)
  pub current : is_expired now token.expires_at ≡ false

none_ne_some : {c : Claims} → none ≢ some c
none_ne_some h = cc

module _ (jwt : Jwt) (now : ℕ) (answer : Answer) (text : List ℕ) (v : Validator) (c : Claims) where
  checked-Trusted :
      (t : Token) (k : Option PublicKey)
      → jwt.read text ≡ some t
      → t.is_rsa ≡ true
      → (get_key jwt.base64 now answer t.kid v).0 ≡ k
      → check_token jwt now v.issuer text t k ≡ some c
      → Trusted jwt now answer text v c
  unfolding check_token
  checked-Trusted t none read rsa from h = cc
  checked-Trusted t (some key) read rsa from h = record {
    token = t;
    key = key;
    read = read;
    claimed = ground (arith, h);
    method = rsa;
    origin = get_key-Origin jwt.base64 now t.kid v key answer from;
    signed = ground (arith, h);
    issued = elim (Bool-cases (str_eq v.issuer "")) [
      | inl any ↦ inl any
      | inr expected ↦ inr (ground (arith, h, expected))
    ];
    current = ground (arith, h);
  }

  read-Trusted :
      (t : Option Token)
      → jwt.read text ≡ t
      → (validate_read jwt now answer text v t).0 ≡ some c
      → Trusted jwt now answer text v c
  unfolding validate_read
  read-Trusted none read h = cc
  read-Trusted (some t) read h = elim (Bool-cases (not t.is_rsa || str_eq t.kid "")) [
    | inl bad ↦ absurd (none_ne_some (rw bad at h))
    | inr good ↦ checked-Trusted t _ read (ground (arith, good)) refl (rw good at h)
  ]

  -- A token that is accepted is one that the library reads, with an RSA method, whose signature the
  -- library accepts under a key of its key id, which either is kept and fresh or is an RSA key that
  -- the identity provider has just answered with; its issuer is the expected one, if one is
  -- expected, and it has not expired. The claims are those of the token.
  pub validate_token-Trusted :
      (validate_token jwt now answer text v).0 ≡ some c → Trusted jwt now answer text v c
  unfolding validate_token
  validate_token-Trusted h = read-Trusted (jwt.read text) refl h
