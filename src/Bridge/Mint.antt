-- ===== src/Bridge/Mint.antt =====
-- `mint` of tfchain_bridge/pkg/bridge/mint.go: deposits on Stellar.
pub mod Trace
use tfchain_tft_bridge.Prelude.{
  ℕ, ℤ, low_int64, leb_ℤ, List, [], ◌∷◌, Text, codes, text_eq, if◌then◌else◌,
}
use tfchain_tft_bridge.Errors.{sentinel, transaction_already_minted, Result, value, error}
use tfchain_tft_bridge.Exec.{pure, raise, lift, try, ◌>>=◌, ◌>>◌}
use tfchain_tft_bridge.Env.{Env}
use tfchain_tft_bridge.Env.Types.{Context, background, Transaction}
use tfchain_tft_bridge.World.{Action}
use tfchain_tft_bridge.Persistency.{save_stellar_cursor}
use tfchain_tft_bridge.Substrate.Client.{check_minted, retry_propose_mint_or_vote}
use tfchain_tft_bridge.Stellar.Deposits.{Senders}
use tfchain_tft_bridge.Bridge.State.{Bridge}
use tfchain_tft_bridge.Bridge.Memo.{get_substrate_address_from_memo}
use tfchain_tft_bridge.Bridge.Refund.{refund}

module _ {E : Env} (fuel : ℕ) (b : Bridge E) (ctx : Context) (tx : Transaction) where
  unfoldable pub mint_to : Text → ℤ → Action E Unit
  mint_to address amount = do
    account ← lift (E.from_address address)
    retry_propose_mint_or_vote fuel b.sub_client ctx tx.hash account amount
    save_stellar_cursor b.block_persistency tx.paging_token

  unfoldable pub mint_on_address : Text → ℤ → Result Text → Action E Unit
  mint_on_address receiver amount (value address) = mint_to address amount
  mint_on_address receiver amount (error _) =
      refund fuel b background receiver (low_int64 amount) tx

  unfoldable pub mint_deposit : Text → ℤ → Action E Unit
  mint_deposit receiver amount =
      if text_eq tx.memo []
      then refund fuel b background receiver (low_int64 amount) tx
      else if text_eq tx.memo_type (codes "return")
      then save_stellar_cursor b.block_persistency tx.paging_token
      else if leb_ℤ amount b.deposit_fee
      then refund fuel b background receiver (low_int64 amount) tx
      else do
        address ← try (get_substrate_address_from_memo tx.memo)
        mint_on_address receiver amount address

  -- With several senders the loop returns in its first round.
  unfoldable pub mint_senders : Senders → Action E Unit
  mint_senders [] = pure tt
  mint_senders ((receiver, amount) ∷ []) = mint_deposit receiver amount
  mint_senders ((sender, amount) ∷ _ ∷ _) = refund fuel b background sender (low_int64 amount) tx

  unfoldable pub mint : Senders → Action E Unit
  mint senders = do
    minted ← check_minted tx.hash
    if minted then raise (sentinel transaction_already_minted) else mint_senders senders
