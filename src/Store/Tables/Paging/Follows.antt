-- ===== src/Store/Tables/Paging/Follows.antt =====
-- The page after a cursor is what follows the cursor in the whole listing.
use go_challenge_fc.Base.{
  subst, ℕ, ◌≡◌, refl, sym, ◌∙◌, ap, inl, inr, ◌==◌, Bool, true, false, ◌&&◌, ◌||◌, List, [], ◌∷◌,
  ◌++◌, none, some, arith, Bool-cases, if◌then◌else◌,
}
use go_challenge_fc.Ledger.{Entry}
use go_challenge_fc.Store.Tables.Paging.{
  is_before, insert_by_time, sort_by_time, of_wallet, page_rows, scan_entries, select_page,
}
use go_challenge_fc.Store.Tables.Rows.{Tables, filter_where, find}
use go_challenge_fc.Store.Tables.Transactions.{limit}

-- No two entries have one identifier, as the primary key demands.
abbrev pub has_id : ℕ → List Entry → Bool
has_id id [] = false
has_id id (e ∷ es) = (e.id == id) || has_id id es

abbrev pub DistinctIds : List Entry → Type 0
DistinctIds [] = Unit
DistinctIds (e ∷ es) = (has_id e.id es ≡ false) × DistinctIds es

-- Every entry stands before a later one.
abbrev AllBefore : Entry → List Entry → Type 0
AllBefore x [] = Unit
AllBefore x (e ∷ es) = (is_before e x ≡ true) × AllBefore x es

abbrev IsLatestFirst : List Entry → Type 0
IsLatestFirst [] = Unit
IsLatestFirst (e ∷ es) = AllBefore e es × IsLatestFirst es

AllBefore-trans :
    (x y : Entry) (es : List Entry) → is_before x y ≡ true → AllBefore x es → AllBefore y es
AllBefore-trans x y [] h all = tt
AllBefore-trans x y (e ∷ es) h (b, all) = (ground arith, AllBefore-trans x y es h all)

insert-AllBefore :
    (x y : Entry) (es : List Entry)
    → is_before x y ≡ true
    → AllBefore y es
    → AllBefore y (insert_by_time x es)
insert-AllBefore x y [] h all = (h, tt)
insert-AllBefore x y (e ∷ es) h (b, all) = elim (Bool-cases (is_before x e)) [
  | inl before ↦ rw before (b, insert-AllBefore x y es h all)
  | inr after ↦ rw after (h, (b, all))
]

insert-IsLatestFirst :
    (x : Entry) (es : List Entry)
    → has_id x.id es ≡ false
    → IsLatestFirst es
    → IsLatestFirst (insert_by_time x es)
insert-IsLatestFirst x [] new h = (tt, tt)
insert-IsLatestFirst x (e ∷ es) new (all, h) = elim (Bool-cases (is_before x e)) [
  | inl before ↦
      rw before (insert-AllBefore x e es before all, insert-IsLatestFirst x es (ground arith) h)
  | inr after ↦
      let later : is_before e x ≡ true = ground arith in
      rw after ((later, AllBefore-trans e x es later all), (all, h))
]

has_id-insert :
    (id : ℕ) (x : Entry) (es : List Entry)
    → has_id id (insert_by_time x es) ≡ ((x.id == id) || has_id id es)
has_id-insert id x [] = refl
has_id-insert id x (e ∷ es) = ground (arith, has_id-insert id x es)

has_id-sort : (id : ℕ) (es : List Entry) → has_id id (sort_by_time es) ≡ has_id id es
unfolding sort_by_time
has_id-sort id [] = refl
has_id-sort id (e ∷ es) =
    has_id-insert id e (sort_by_time es) ∙ ap (λ b. (e.id == id) || b) (has_id-sort id es)

sort-IsLatestFirst : (es : List Entry) → DistinctIds es → IsLatestFirst (sort_by_time es)
unfolding sort_by_time
sort-IsLatestFirst [] h = tt
sort-IsLatestFirst (e ∷ es) (new, h) =
    insert-IsLatestFirst e (sort_by_time es) (has_id-sort e.id es ∙ new) (sort-IsLatestFirst es h)

-- Keeping the entries before a cursor goes past the insertion of another.
filter-insert :
    (c x : Entry) (es : List Entry)
    → filter_where (λ e. is_before e c) (insert_by_time x es) ≡ (
        if is_before x c
        then insert_by_time x (filter_where (λ e. is_before e c) es)
        else filter_where (λ e. is_before e c) es)
unfolding filter_where
filter-insert c x [] = ground arith
filter-insert c x (e ∷ es) = ground (arith, filter-insert c x es)

filter-sort :
    (c : Entry) (es : List Entry)
    → filter_where (λ e. is_before e c) (sort_by_time es)
      ≡ sort_by_time (filter_where (λ e. is_before e c) es)
unfolding filter_where sort_by_time
filter-sort c [] = refl
filter-sort c (e ∷ es) =
    let insert = filter-insert c e (sort_by_time es) in
    elim (Bool-cases (is_before e c)) [
      | inl before ↦ rw before ((rw before at insert) ∙ ap (insert_by_time e) (filter-sort c es))
      | inr after ↦ rw after ((rw after at insert) ∙ filter-sort c es)
    ]

filter-all :
    (c : Entry) (es : List Entry) → AllBefore c es → filter_where (λ e. is_before e c) es ≡ es
unfolding filter_where
filter-all c [] all = refl
filter-all c (e ∷ es) (b, all) = rw b (ap (λ xs. e ∷ xs) (filter-all c es all))

AllBefore-mid :
    (p c : Entry) (pre suf : List Entry) → AllBefore p (pre ++ c ∷ suf) → is_before c p ≡ true
AllBefore-mid p c [] suf (b, all) = b
AllBefore-mid p c (q ∷ pre) suf (b, all) = AllBefore-mid p c pre suf all

-- In a listing the entries before the cursor are those that follow it.
filter-split :
    (c : Entry) (pre suf : List Entry)
    → IsLatestFirst (pre ++ c ∷ suf)
    → filter_where (λ e. is_before e c) (pre ++ c ∷ suf) ≡ suf
unfolding filter_where
filter-split c [] suf (all, h) =
    let self : is_before c c ≡ false = ground arith in rw self (filter-all c suf all)
filter-split c (p ∷ pre) suf (all, h) =
    let not_before : is_before p c ≡ false =
      let earlier = AllBefore-mid p c pre suf all in ground arith in
    rw not_before (filter-split c pre suf h)

filter_both :
    (p q : Entry → Bool) (es : List Entry)
    → filter_where (λ e. p e && q e) es ≡ filter_where q (filter_where p es)
unfolding filter_where
filter_both p q [] = refl
filter_both p q (e ∷ es) = ground (arith, filter_both p q es)

has_id-filter :
    (id : ℕ) (p : Entry → Bool) (es : List Entry)
    → has_id id es ≡ false
    → has_id id (filter_where p es) ≡ false
unfolding filter_where
has_id-filter id p [] h = refl
has_id-filter id p (e ∷ es) h = ground (arith, has_id-filter id p es)

filter-DistinctIds :
    (p : Entry → Bool) (es : List Entry) → DistinctIds es → DistinctIds (filter_where p es)
unfolding filter_where
filter-DistinctIds p [] h = tt
filter-DistinctIds p (e ∷ es) (new, h) = elim (Bool-cases (p e)) [
  | inl keep ↦ rw keep (has_id-filter e.id p es new, filter-DistinctIds p es h)
  | inr drop ↦ rw drop (filter-DistinctIds p es h)
]

module _ (wallet : ℕ) (c : Entry) (t : Tables) (distinct : DistinctIds t.wallet_ledger_entries)
    (found : find (λ e. e.id == c.id) t.wallet_ledger_entries ≡ some c) (pre suf : List Entry)
    (listing : sort_by_time (page_rows wallet none t) ≡ pre ++ c ∷ suf) where
  after_rows : sort_by_time (page_rows wallet (some c.id) t) ≡ suf
  after_rows =
      let mine = page_rows wallet none t in
      rw (found, filter_both (of_wallet wallet) (λ e. is_before e c) t.wallet_ledger_entries)
        (sym (filter-sort c mine)
          ∙ ap (filter_where (λ e. is_before e c)) listing
          ∙ filter-split c pre suf (
              subst IsLatestFirst listing (
                sort-IsLatestFirst mine
                  (filter-DistinctIds (of_wallet wallet) t.wallet_ledger_entries distinct))))

  -- In a ledger with one row for each identifier: if an entry is the row of its identifier, the
  -- page of at most `n` entries (50 for 0) after it consists of the entries that follow it in the
  -- whole listing of the wallet, the latest first, so that pages that follow one another skip no
  -- entry and repeat none.
  pub page_follows :
      (n : ℕ)
      → select_page wallet (some c.id) n t ≡ scan_entries (limit (if n == 0 then 50 else n) suf)
  unfolding select_page
  page_follows n = rw after_rows refl
