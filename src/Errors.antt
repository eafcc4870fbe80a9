-- ===== src/Errors.antt =====
-- Go's errors as values: the sentinels of pkg/config.go, `errors.New`, `errors.Wrap` and
-- `errors.Is`, and the result `(T, error)` of a call.
use tfchain_tft_bridge.Prelude.{Bool, true, false, Text, ℕ}

-- The first four are declared in pkg/config.go; `mint_transaction_not_found` is the client
-- library's `ErrMintTransactionNotFound` and `canceled` is `context.Canceled`.
pub data Sentinel : Type 0 where
  transaction_already_refunded transaction_already_minted transaction_already_burned : Sentinel
  no_signatures mint_transaction_not_found canceled : Sentinel

pub data Error : Type 0 where
  sentinel : Sentinel → Error
  message : Text → Error
  foreign : ℕ → Error
  wrap : Error → Text → Error

abbrev pub same_sentinel : Sentinel → Sentinel → Bool
same_sentinel transaction_already_refunded transaction_already_refunded = true
same_sentinel transaction_already_minted transaction_already_minted = true
same_sentinel transaction_already_burned transaction_already_burned = true
same_sentinel no_signatures no_signatures = true
same_sentinel mint_transaction_not_found mint_transaction_not_found = true
same_sentinel canceled canceled = true
same_sentinel _ _ = false

-- `errors.Is`: looks through every `errors.Wrap`.
unfoldable pub is_error : Error → Sentinel → Bool
is_error (sentinel a) b = same_sentinel a b
is_error (wrap e _) b = is_error e b
is_error (message _) b = false
is_error (foreign _) b = false

-- What a call that returns `(T, error)` gives: beside an error the value is not used.
pub data Result (A : Type 0) : Type 0 where
  value : A → Result A
  error : Error → Result A

abbrev pub succeeded : {A : Type 0} → Result A → Bool
succeeded (value _) = true
succeeded (error _) = false

-- `errors.Wrap` on the error of a result.
abbrev pub wrap_error : {A : Type 0} → Text → Result A → Result A
wrap_error t (value a) = value a
wrap_error t (error e) = error (wrap e t)
