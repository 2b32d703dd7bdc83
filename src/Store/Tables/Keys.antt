-- ===== src/Store/Tables/Keys.antt =====
-- Keys that no two rows of a table share, and what statements do to such tables.
use go_challenge_fc.Base.{
  ◌&&◌, some, none, ◌≡◌, ◌∙◌, refl, Bool, true, false, List, [], ◌∷◌, ◌||◌, arith, Bool-cases, inl,
  inr,
}
use go_challenge_fc.Store.Tables.Rows.{find, any, update_where}

module _ {A : Type 0} where
  -- No two rows collide.
  abbrev pub Distinct : (A → A → Bool) → List A → Type 0
  Distinct c [] = Unit
  Distinct c (x ∷ xs) = (any (c x) xs ≡ false) × Distinct c xs

  abbrev pub All : (A → Type 0) → List A → Type 0
  All P [] = Unit
  All P (x ∷ xs) = P x × All P xs

  pub All-mono : (P Q : A → Type 0) → ((x : A) → P x → Q x) → (xs : List A) → All P xs → All Q xs
  All-mono P Q f [] h = tt
  All-mono P Q f (x ∷ xs) (p, h) = (f x p, All-mono P Q f xs h)

  -- A row more does not take one away.
  pub any-cons : (q : A → Bool) (x : A) (xs : List A) → any q xs ≡ true → any q (x ∷ xs) ≡ true
  unfolding any
  any-cons q x xs h = ground arith

  any-ext : (q r : A → Bool) → ((x : A) → q x ≡ r x) → (xs : List A) → any q xs ≡ any r xs
  unfolding any
  any-ext q r e [] = refl
  any-ext q r e (x ∷ xs) = rw (e x, any-ext q r e xs) refl

  module _ (p : A → Bool) (f : A → A) where
    -- An UPDATE of columns that a test does not read.
    pub any-update :
        (q : A → Bool)
        → ((x : A) → q (f x) ≡ q x)
        → (xs : List A) → any q (update_where p f xs) ≡ any q xs
    unfolding any update_where
    any-update q e [] = refl
    any-update q e (x ∷ xs) = ground (arith, e x, any-update q e xs)

    pub Distinct-update :
        (c : A → A → Bool)
        → ((x y : A) → c (f x) y ≡ c x y)
        → ((x y : A) → c x (f y) ≡ c x y)
        → (xs : List A) → Distinct c xs
        → Distinct c (update_where p f xs)
    unfolding update_where
    Distinct-update c l r [] h = tt
    Distinct-update c l r (x ∷ xs) (new, h) = elim (Bool-cases (p x)) [
      | inl hit ↦ rw hit (
        any-ext (c (f x)) (c x) (l x) (update_where p f xs) ∙ any-update (c x) (r x) xs ∙ new,
        Distinct-update c l r xs h,
      )
      | inr miss ↦ rw miss (any-update (c x) (r x) xs ∙ new, Distinct-update c l r xs h)
    ]

-- Tests of all rows, from the SELECTs and from simpler tests.
pub any-none : {A : Type 0} (p : A → Bool) (xs : List A) → find p xs ≡ none → any p xs ≡ false
unfolding find any
any-none p [] h = refl
any-none p (x ∷ xs) h = ground (arith, any-none p xs)

pub any-or :
    {A : Type 0} (p q r : A → Bool) (xs : List A)
    → any p xs ≡ false
    → any q xs ≡ false
    → any r xs ≡ false
    → any (λ x. p x || q x || r x) xs ≡ false
unfolding any
any-or p q r [] a b c = refl
any-or p q r (x ∷ xs) a b c = ground (arith, any-or p q r xs)

pub any-either :
    {A : Type 0} (p q : A → Bool) (xs : List A)
    → any p xs ≡ false
    → any q xs ≡ false
    → any (λ x. p x || q x) xs ≡ false
unfolding any
any-either p q [] a b = refl
any-either p q (x ∷ xs) a b = ground (arith, any-either p q xs)

pub found_any :
    {A : Type 0} (p : A → Bool) (xs : List A) (x : A) → find p xs ≡ some x → any p xs ≡ true
unfolding find any
found_any p [] x h = cc
found_any p (y ∷ ys) x h = ground (arith, found_any p ys x)

pub any-or_and :
    {A : Type 0} (p q r : A → Bool) (xs : List A)
    → any p xs ≡ false
    → any r xs ≡ false
    → any (λ x. p x || (q x && r x)) xs ≡ false
unfolding any
any-or_and p q r [] a b = refl
any-or_and p q r (x ∷ xs) a b = ground (arith, any-or_and p q r xs)

-- Tests that are made of others.
module _ {A : Type 0} where
  any_mono :
      (p q : A → Bool)
      → ((x : A) → q x ≡ true → p x ≡ true)
      → (xs : List A) → any p xs ≡ false
      → any q xs ≡ false
  unfolding any
  any_mono p q f [] h = refl
  any_mono p q f (x ∷ xs) h = ground (arith, f x, any_mono p q f xs)

  any_split :
      (p q r : A → Bool)
      → ((x : A) → r x ≡ true → (p x || q x) ≡ true)
      → (xs : List A) → any p xs ≡ false
      → any q xs ≡ false
      → any r xs ≡ false
  unfolding any
  any_split p q r f [] a b = refl
  any_split p q r f (x ∷ xs) a b = ground (arith, f x, any_split p q r f xs)

  pub Distinct-mono :
      (c d : A → A → Bool)
      → ((x y : A) → d x y ≡ true → c x y ≡ true)
      → (xs : List A) → Distinct c xs
      → Distinct d xs
  Distinct-mono c d f [] h = tt
  Distinct-mono c d f (x ∷ xs) (new, h) =
      (any_mono (c x) (d x) (f x) xs new, Distinct-mono c d f xs h)

  pub Distinct-or :
      (c d e : A → A → Bool)
      → ((x y : A) → e x y ≡ true → (c x y || d x y) ≡ true)
      → (xs : List A) → Distinct c xs
      → Distinct d xs
      → Distinct e xs
  Distinct-or c d e f [] h k = tt
  Distinct-or c d e f (x ∷ xs) (new, h) (fresh, k) =
      (any_split (c x) (d x) (e x) (f x) xs new fresh, Distinct-or c d e f xs h k)
