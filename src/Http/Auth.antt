-- ===== src/Http/Auth.antt =====
-- Claims of internal/infra/auth/validator.go and the guards of internal/http/middleware/auth.go.
pub mod Validator
use go_challenge_fc.Base.{
  ℕ, ◌+◌, Bool, true, false, ◌&&◌, ◌||◌, List, [], ◌∷◌, Option, none, some, String, str_eq, leb,
  ◌==◌, if◌then◌else◌,
}
use go_challenge_fc.Base.Text.{codes, has}

-- The azp of a token and the roles of its realm.
pub record Claims : Type 0 where
  pub client_id : String
  pub roles : List String

abbrev pub any_role : String → List String → Bool
any_role role [] = false
any_role role (r ∷ rs) = str_eq r role || any_role role rs

-- strings.HasPrefix
abbrev pub starts_with : List ℕ → List ℕ → Bool
starts_with [] s = true
starts_with (c ∷ p) [] = false
starts_with (c ∷ p) (d ∷ s) = (c == d) && starts_with p s

-- Claims.HasRole
unfoldable pub has_role : Claims → String → Bool
has_role c role =
    any_role role c.roles
    || (str_eq role "internal"
        && (str_eq c.client_id "desafio-internal" || str_eq c.client_id "internal-admin"))
    || (str_eq role "provider" && starts_with (codes "provider-") (codes c.client_id))

abbrev pub lower_ascii : ℕ → ℕ
lower_ascii c = if leb b'A' c && leb c b'Z' then c + 32 else c

abbrev pub same_folded : List ℕ → List ℕ → Bool
same_folded [] [] = true
same_folded (c ∷ s) (d ∷ t) = (lower_ascii c == lower_ascii d) && same_folded s t
same_folded _ _ = false

-- strings.SplitN(authHeader, " ", 2): what stands before the first space, and after it.
abbrev pub before_space : List ℕ → List ℕ
before_space [] = []
before_space (c ∷ s) = if c == b' ' then [] else c ∷ before_space s

abbrev pub after_space : List ℕ → List ℕ
after_space [] = []
after_space (c ∷ s) = if c == b' ' then s else after_space s

-- The token of an Authorization header. strings.EqualFold with "Bearer" folds ASCII letters alone:
-- none of these letters folds to any other character.
unfoldable pub bearer_token : String → Option (List ℕ)
bearer_token h =
    let s = codes h in
    if has b' ' s && same_folded (before_space s) (codes "Bearer")
    then some (after_space s)
    else none
