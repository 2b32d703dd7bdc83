-- ===== src/Store/Tables/Rows.antt =====
-- The state of the database. A row is the value that the repository stores and reads back.
use go_challenge_fc.Base.{
  Bool, false, ◌||◌, List, [], ◌∷◌, Option, none, some, String, str_eq, if◌then◌else◌,
}
use go_challenge_fc.Ledger.{Entry}
use go_challenge_fc.Messages.Inbox.{InboxMessage}
use go_challenge_fc.Messages.Outbox.{OutboxEvent}
use go_challenge_fc.Money.Defs.{brl, usd, eur}
use go_challenge_fc.Transaction.Defs.{WagerTransaction}
use go_challenge_fc.Wallet.{Wallet}

pub record Tables : Type 0 where
  pub wallets : List Wallet
  pub wager_transactions : List WagerTransaction
  pub wallet_ledger_entries : List Entry
  pub inbox_messages : List InboxMessage
  pub outbox_events : List OutboxEvent

-- The enum currency_code.
unfoldable pub in_currency_code : String → Bool
in_currency_code c = str_eq c brl || str_eq c usd || str_eq c eur

-- WHERE: the first row that passes, and whether there is one.
module _ {A : Type 0} where
  unfoldable pub find : (A → Bool) → List A → Option A
  find p [] = none
  find p (x ∷ xs) = if p x then some x else find p xs

  unfoldable pub any : (A → Bool) → List A → Bool
  any p [] = false
  any p (x ∷ xs) = p x || any p xs

  -- UPDATE … WHERE
  unfoldable pub update_where : (A → Bool) → (A → A) → List A → List A
  update_where p f [] = []
  update_where p f (x ∷ xs) = (if p x then f x else x) ∷ update_where p f xs

  unfoldable pub filter_where : (A → Bool) → List A → List A
  filter_where p [] = []
  filter_where p (x ∷ xs) = let rest = filter_where p xs in if p x then x ∷ rest else rest

-- A column that may be NULL: NULL equals nothing.
abbrev pub eq_nullable : Option String → String → Bool
eq_nullable none s = false
eq_nullable (some r) s = str_eq r s

-- Two keys collide in a UNIQUE index only if neither is NULL.
abbrev pub collides : Option String → Option String → Bool
collides r none = false
collides r (some s) = eq_nullable r s
