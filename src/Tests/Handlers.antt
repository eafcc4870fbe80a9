-- ===== src/Tests/Handlers.antt =====
-- The theorems on the handlers of withdrawals, refunds and deposits, on the small chain.
use tfchain_tft_bridge.Prelude.{pos, [], ◌∷◌, codes}
use tfchain_tft_bridge.Exec.Rules.{Post}
use tfchain_tft_bridge.Env.Types.{running}
use tfchain_tft_bridge.Substrate.Events.{
  WithdrawCreatedEvent, WithdrawExpiredEvent, RefundTransactionExpiredEvent,
}
use tfchain_tft_bridge.Bridge.Withdraw.{handle_withdraw_ready}
use tfchain_tft_bridge.Bridge.Withdraw.Ready
use tfchain_tft_bridge.Bridge.Refund.{handle_refund_expired, handle_refund_ready, refund}
use tfchain_tft_bridge.Bridge.Refund.Ready as RefundReady
use tfchain_tft_bridge.Bridge.Refund.Expired.{
  ProposesRefund, handle_refund_expired-ProposesRefund, Refunds, refund-Refunds,
}
use tfchain_tft_bridge.Stellar.Deposits.{Senders}
use tfchain_tft_bridge.Tests.{bridge, fresh, deposit, stored_hash}

handle_withdraw_ready-HandlesReady_example :
    Post
      (handle_withdraw_ready 2 bridge running (record { id = 4 }))
      fresh
      (Ready.HandlesReady 2 bridge running 4 fresh)
handle_withdraw_ready-HandlesReady_example =
    Ready.handle_withdraw_ready-HandlesReady 2 bridge running (record { id = 4 }) fresh

handle_refund_ready-HandlesReady_example :
    Post
      (handle_refund_ready 2 bridge running (record { hash = stored_hash }))
      fresh
      (RefundReady.HandlesReady 2 bridge running stored_hash fresh)
handle_refund_ready-HandlesReady_example =
    RefundReady.handle_refund_ready-HandlesReady 2 bridge running (record { hash = stored_hash })
      fresh

abbrev senders : Senders
senders = (codes "GALICE", pos 50000000) ∷ []

abbrev created : WithdrawCreatedEvent
created = record { id = 4; source = 9 ∷ []; target = codes "GC"; amount = 25000000 }

abbrev expired : WithdrawExpiredEvent
expired = record { id = 4; target = codes "GC"; amount = 25000000 }

abbrev refund_expired : RefundTransactionExpiredEvent
refund_expired = record { hash = stored_hash; target = codes "GC"; amount = 5000000 }

handle_refund_expired-ProposesRefund_example :
    Post (handle_refund_expired 2 bridge running refund_expired) fresh (λ o t.
      ProposesRefund 2 bridge running refund_expired fresh.sequence_number fresh.trace o t.trace)
handle_refund_expired-ProposesRefund_example =
    handle_refund_expired-ProposesRefund 2 bridge running refund_expired fresh

refund-Refunds_example :
    Post (refund 2 bridge running (codes "GALICE") (pos 5000000) deposit) fresh (λ o t.
      Refunds 2 bridge running
        (codes "GALICE")
        (pos 5000000)
        deposit
        fresh.sequence_number
        fresh.trace
        o
        t.trace)
refund-Refunds_example =
    refund-Refunds 2 bridge running (codes "GALICE") (pos 5000000) deposit fresh
