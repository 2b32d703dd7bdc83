-- ===== src/Usecase/OpenWallet/Rollback.antt =====
-- OpenWalletUseCase.Execute: an error leaves nothing behind.
use go_challenge_fc.Base.{◌+◌, refl, inl, inr}
use go_challenge_fc.Errs.{Result, ok, err, Result-cases}
use go_challenge_fc.Store.Atomic.{Unchanged, with_tx-Unchanged}
use go_challenge_fc.Store.Session.{World, Env, ◌>>=◌, lift, pure, new_uuid, time_now, continue}
use go_challenge_fc.Store.Tables.Rows.{Tables}
use go_challenge_fc.Usecase.OpenWallet.{OpenInput, open_wallet, open_tx}
use go_challenge_fc.Wallet.{new_wallet}

then-Unchanged :
    {A B : Type 0} (t : Tables) (b : B) (r : Result A × World)
    → Unchanged t r
    → Unchanged t (continue (λ _. pure b) r)
unfolding pure
then-Unchanged t b (ok a, w) h = tt
then-Unchanged t b (err e, w) h = h

pub open_wallet-Unchanged :
    (env : Env) (i : OpenInput) (w : World) → Unchanged w.tables (open_wallet env i w)
unfolding open_wallet ◌>>=◌ lift new_uuid time_now
open_wallet-Unchanged env i w =
    elim (Result-cases (
      new_wallet (env.clock (w.draws + 1)) (env.uuid w.draws) i.player_id i.initial_balance.currency
        i.initial_balance)) [
          | inl (x, made) ↦ rw made (then-Unchanged _ _ _ (with_tx-Unchanged (open_tx env i x) _))
          | inr (x, failed) ↦ rw failed refl
        ]
