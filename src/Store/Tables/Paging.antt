-- ===== src/Store/Tables/Paging.antt =====
-- LedgerRepository.GetByWalletID of internal/infra/db/postgres/ledger_repo.go: the pages of a
-- ledger, the latest entries first.
pub mod Follows
use go_challenge_fc.Base.{
  ℕ, Bool, ◌&&◌, ◌||◌, List, [], ◌∷◌, Option, none, some, ltb, ◌==◌, if◌then◌else◌,
}
use go_challenge_fc.Ledger.{Entry}
use go_challenge_fc.Store.Tables.Entries.{scan_entry}
use go_challenge_fc.Store.Tables.Rows.{Tables, filter_where, find}
use go_challenge_fc.Store.Tables.Transactions.{limit}

-- (a.created_at, a.id) < (b.created_at, b.id)
abbrev pub is_before : Entry → Entry → Bool
is_before a b = ltb a.created_at b.created_at || (a.created_at == b.created_at && ltb a.id b.id)

abbrev pub insert_by_time : Entry → List Entry → List Entry
insert_by_time x [] = x ∷ []
insert_by_time x (y ∷ ys) =
    let rest = insert_by_time x ys in if is_before x y then y ∷ rest else x ∷ y ∷ ys

-- ORDER BY created_at DESC, id DESC
unfoldable pub sort_by_time : List Entry → List Entry
sort_by_time [] = []
sort_by_time (x ∷ xs) = insert_by_time x (sort_by_time xs)

-- The entries of a wallet, and those of them that come after a cursor. A cursor that is no entry
-- has nothing after it.
abbrev pub of_wallet : ℕ → Entry → Bool
of_wallet wallet e = e.wallet_id == wallet

abbrev pub after_cursor : ℕ → Option Entry → List Entry → List Entry
after_cursor wallet none es = []
after_cursor wallet (some c) es = filter_where (λ e. of_wallet wallet e && is_before e c) es

abbrev pub page_rows : ℕ → Option ℕ → Tables → List Entry
page_rows wallet none t = filter_where (of_wallet wallet) t.wallet_ledger_entries
page_rows wallet (some id) t =
    after_cursor wallet (find (λ e. e.id == id) t.wallet_ledger_entries) t.wallet_ledger_entries

abbrev pub scan_entries : List Entry → List Entry
scan_entries [] = []
scan_entries (e ∷ es) = scan_entry e ∷ scan_entries es

-- A page size that is not positive is 50.
unfoldable pub select_page : ℕ → Option ℕ → ℕ → Tables → List Entry
unfolding sort_by_time limit scan_entry
select_page wallet cursor n t =
    scan_entries (limit (if n == 0 then 50 else n) (sort_by_time (page_rows wallet cursor t)))
