-- ===== src/Usecase/Hash.antt =====
-- internal/application/usecase/hash.go: the canonical text of a payload and its hash. The values of
-- a payload are texts, maps and lists; marshalling these does not fail.
use go_challenge_fc.Base.{
  ℕ, Bool, true, false, ◌&&◌, ◌||◌, List, [], ◌∷◌, ◌++◌, String, ltb, ◌==◌, if◌then◌else◌,
}
use go_challenge_fc.Store.Session.{Env}

-- A map is the list of its entries, in the order in which the range loop meets them.
mutual
  pub data Json : Type 0 where
    text : List ℕ → Json
    obj : Fields → Json
    arr : Items → Json

  pub data Fields : Type 0 where
    end : Fields
    field : List ℕ → Json → Fields → Fields

  pub data Items : Type 0 where
    nil : Items
    cons : Json → Items → Items

-- The order of sort.Strings.
unfoldable pub key_le : List ℕ → List ℕ → Bool
key_le [] t = true
key_le (c ∷ s) [] = false
key_le (c ∷ s) (d ∷ t) = ltb c d || (c == d && key_le s t)

unfoldable pub insert_key : List ℕ × List ℕ → List (List ℕ × List ℕ) → List (List ℕ × List ℕ)
unfolding key_le
insert_key x [] = x ∷ []
insert_key x (y ∷ ys) =
    let rest = insert_key x ys in if key_le x.0 y.0 then x ∷ y ∷ ys else y ∷ rest

unfoldable pub sort_keys : List (List ℕ × List ℕ) → List (List ℕ × List ℕ)
unfolding insert_key
sort_keys [] = []
sort_keys (x ∷ xs) = insert_key x (sort_keys xs)

-- `"key":value`
abbrev pub member : Env → List ℕ × List ℕ → List ℕ
member env x = env.quote x.0 ++ (b':' ∷ x.1)

-- The members with `,` before each but the first.
unfoldable pub join_members : Env → List (List ℕ × List ℕ) → List ℕ
join_members env [] = []
join_members env (x ∷ []) = member env x
join_members env (x ∷ y ∷ ys) = member env x ++ (b',' ∷ join_members env (y ∷ ys))

-- toCanonicalJSON. The text of a value does not depend on its place, so the entries are printed
-- before they are sorted by key.
unfoldable mutual
  unfolding sort_keys join_members

  pub to_canonical_json : Env → Json → List ℕ
  to_canonical_json env (text s) = env.quote s
  to_canonical_json env (obj fs) =
      b'{' ∷ (join_members env (sort_keys (print_fields env fs)) ++ (b'}' ∷ []))
  to_canonical_json env (arr xs) = b'[' ∷ (print_items env xs ++ (b']' ∷ []))

  pub print_fields : Env → Fields → List (List ℕ × List ℕ)
  print_fields env end = []
  print_fields env (field k v fs) = (k, to_canonical_json env v) ∷ print_fields env fs

  pub print_items : Env → Items → List ℕ
  print_items env nil = []
  print_items env (cons x xs) = print_rest env xs (to_canonical_json env x)

  pub print_rest : Env → Items → List ℕ → List ℕ
  print_rest env nil first = first
  print_rest env (cons x xs) first = first ++ (b',' ∷ print_rest env xs (to_canonical_json env x))

unfoldable pub canonical_payload_hash : Env → Fields → String
unfolding to_canonical_json
canonical_payload_hash env fs = env.digest (to_canonical_json env (obj fs))
