-- ===== src/Stellar/Wallet.antt =====
-- The wallet of tfchain_bridge/pkg/stellar/stellar.go: building, signing and submitting payments.
pub mod Ends
pub mod Effects
pub mod Generation
pub mod Trustline
pub mod Submission
pub mod Payments
pub mod Signing
use tfchain_tft_bridge.Prelude.{
  ℕ, ◌*◌, ℤ, pos, negsuc, ◌+ℤ◌, low_int64, to_int64, to_uint64, Bool, true, false, not, ◌||◌, List,
  [], ◌∷◌, Text, Bytes, codes, text_eq, Option, none, some, ltb, ◌==◌, if◌then◌else◌, length, take,
  ◌++◌,
}
use tfchain_tft_bridge.Errors.{Error, message, wrap, foreign, Result, value, error, wrap_error}
use tfchain_tft_bridge.Exec.{pure, raise, abort, lift, try, wrapping, ◌>>=◌, ◌>>◌}
use tfchain_tft_bridge.Config.{StellarConfig}
use tfchain_tft_bridge.Env.{Env}
use tfchain_tft_bridge.Env.Types.{
  StellarSignature, Account, Balance, HorizonClient, Payment, TransactionParams, Memo, no_memo,
  memo_return,
}
use tfchain_tft_bridge.World.{World, Action, ask}
use tfchain_tft_bridge.World.Calls
use tfchain_tft_bridge.Go.Rat.{float_string}
use tfchain_tft_bridge.Go.Hex.{hex_decode, copy_into}
use tfchain_tft_bridge.Go.Base64.{base64_encode}
use tfchain_tft_bridge.Stellar.Network.{
  get_horizon_client, get_network_pass_phrase, get_asset_code_and_issuer, asset_code, asset_issuer,
}

-- The part of `StellarWallet` that does not change; the sequence number is in the `World`.
pub record StellarWallet (E : Env) : Type 0 where
  pub keypair : E.Keypair
  pub config : StellarConfig
  pub signature_count : ℕ

abbrev pub is_zero : ℤ → Bool
is_zero (pos n) = n == 0
is_zero (negsuc _) = false

-- The number of a payment: the next one of the wallet if none is given (zero), or the given one.
abbrev pub taken : ℤ → ℤ → ℤ
taken n current = if is_zero n then low_int64 (current +ℤ pos 1) else n

unfoldable pub payment_params : (E : Env) → StellarConfig → Text → ℕ → Text → ℤ → TransactionParams
payment_params E config source amount destination sequence =
    let asset = get_asset_code_and_issuer config in
    record {
      operations =
          record {
            destination = destination;
            amount = float_string (to_int64 amount);
            asset_code = asset_code asset;
            asset_issuer = asset_issuer asset;
            source_account = source;
          }
          ∷ [];
      infinite_timeout = true;
      account_id = source;
      sequence = sequence;
      base_fee = E.min_base_fee * 1000;
      increment_sequence_num = false;
      memo = no_memo;
    }

module _ {E : Env} where
  unfoldable pub get_account_details : StellarConfig → Text → Action E Account
  get_account_details config address = do
    client ← lift (get_horizon_client config)
    wrapping (codes "failed to get account details for account: " ++ address)
        (ask (E.account_detail client address))

  unfoldable pub set_sequence_number : ℤ → Action E ℤ
  set_sequence_number n w = pure n (record w { sequence_number = n })

  -- The wallet keeps the number that it uses.
  unfoldable pub next_sequence : ℤ → Action E ℤ
  unfolding set_sequence_number
  next_sequence n w = set_sequence_number (taken n w.sequence_number) w

  unfoldable pub error_or_done : Option Error → Action E Unit
  error_or_done none = pure tt
  error_or_done (some e) = raise e

  -- `w.sequenceNumber, err = account.GetSequenceNumber()`: the number is stored beside an error too.
  unfoldable pub load_sequence_number : Account → Action E Unit
  load_sequence_number account = do
    set_sequence_number account.get_sequence_number.0
    error_or_done account.get_sequence_number.1

  unfoldable pub reset_account_sequence : StellarConfig → Action E Unit
  reset_account_sequence config = do
    account ← get_account_details config config.stellar_bridge_account
    load_sequence_number account

-- A balance in the asset with a limit that is a positive number.
unfoldable pub has_limit : (E : Env) → Balance → Bool
has_limit E balance = elim (E.parse_float balance.limit) [
  | error e ↦ false
  | value limit ↦ E.is_positive limit
]

unfoldable pub not_asset : List Text → Balance → Bool
not_asset asset balance =
    not (text_eq balance.code (asset_code asset))
    || not (text_eq balance.issuer (asset_issuer asset))

unfoldable pub has_trustline : (E : Env) → List Text → List Balance → Bool
unfolding has_limit not_asset
has_trustline E asset [] = false
has_trustline E asset (balance ∷ balances) =
    let rest = has_trustline E asset balances in
    if not_asset asset balance then rest else if has_limit E balance then true else rest

-- The signatures are added one by one; the first failure ends the loop.
unfoldable pub add_signatures : (E : Env) → Text → List StellarSignature → E.Tx → Result E.Tx
add_signatures E passphrase [] tx = value tx
add_signatures E passphrase (sig ∷ sigs) tx =
    elim (E.add_signature_base64 passphrase sig.stellar_address sig.signature tx) [
      | error e ↦ error e
      | value tx' ↦ add_signatures E passphrase sigs tx'
    ]

unfoldable pub parse_memo : Text → Result Memo
parse_memo hash = elim (hex_decode hash) [
  | none ↦ error (foreign 0)
  | some parsed ↦ value (memo_return (copy_into 32 parsed))
]

module _ {E : Env} (w : StellarWallet E) where
  unfoldable pub check_account : Text → Action E Unit
  check_account account = do
    acc ← get_account_details w.config account
    if has_trustline E (get_asset_code_and_issuer w.config) acc.balances
        then pure tt
        else raise (message (codes "addess has no trustline"))

  unfoldable pub generate_payment_operation : ℕ → Text → ℤ → Action E TransactionParams
  generate_payment_operation amount destination sequence_number =
      if amount == 0 then raise (message (codes "invalid amount")) else do
        source ←
            wrapping (codes "failed to get source account")
              (get_account_details w.config w.config.stellar_bridge_account)
        sequence ← next_sequence sequence_number
        pure (payment_params E w.config source.account_id amount destination sequence)

  unfoldable pub create_transaction : TransactionParams → Bool → Action E E.Tx
  create_transaction params sign = do
    tx ← lift (wrap_error (codes "failed to build transaction") (E.new_transaction params))
    if sign
        then lift (
            wrap_error (codes "failed to sign transaction with keypair")
              (E.sign (get_network_pass_phrase E w.config) w.keypair tx))
        else pure tx

  -- `signatures[0]`: a panic if there is none.
  unfoldable pub signature_and_sequence : E.Tx → Action E (Text × ℕ)
  signature_and_sequence tx = elim (E.signatures tx) [
    | [] ↦ abort
    | sig ∷ sigs ↦ pure (base64_encode sig, to_uint64 (E.sequence_number tx))
  ]

  unfoldable pub create_payment_and_return_signature : Text → ℕ → Action E (Text × ℕ)
  create_payment_and_return_signature target amount = do
    params ← generate_payment_operation amount target (pos 0)
    tx ← create_transaction params true
    signature_and_sequence tx

  unfoldable pub create_refund_and_return_signature : Text → ℕ → Text → Action E (Text × ℕ)
  create_refund_and_return_signature target amount hash = do
    params ← generate_payment_operation amount target (pos 0)
    memo ← lift (parse_memo hash)
    tx ← create_transaction (record params { memo = memo }) true
    signature_and_sequence tx

  unfoldable pub after_submit : Result Text → Action E Unit
  after_submit (value hash) = pure tt
  after_submit (error e) = do
    reset_account_sequence w.config
    raise (wrap e (codes "error submitting transaction"))

  unfoldable pub submit_transaction : E.Tx → Action E Unit
  submit_transaction tx = do
    client ← lift (wrap_error (codes "failed to get horizon client") (get_horizon_client w.config))
    r ← try (Calls.submit_transaction E client tx)
    after_submit r

  -- The end of both functions that submit: as many of the signatures as the account requires.
  unfoldable pub sign_and_submit : List StellarSignature → E.Tx → Action E Unit
  sign_and_submit signatures tx =
      if ltb (length signatures) w.signature_count
      then raise (message (codes "not enough signatures, aborting"))
      else do
        tx' ← lift (
            add_signatures E (get_network_pass_phrase E w.config)
              (take w.signature_count signatures) tx)
        submit_transaction tx'

  unfoldable pub create_payment_with_signatures_and_submit :
      Text → ℕ → List StellarSignature → ℤ → Action E Unit
  create_payment_with_signatures_and_submit target amount signatures sequence_number = do
    params ← generate_payment_operation amount target sequence_number
    tx ← create_transaction params false
    sign_and_submit signatures tx

  unfoldable pub create_refund_payment_with_signatures_and_submit :
      Text → ℕ → Text → List StellarSignature → ℤ → Action E Unit
  create_refund_payment_with_signatures_and_submit target amount hash signatures sequence_number =
      do
        params ← generate_payment_operation amount target sequence_number
        memo ← lift (parse_memo hash)
        tx ← create_transaction (record params { memo = memo }) false
        sign_and_submit signatures tx

-- `NewStellarWallet`: the threshold of the account is the number of signatures that it requires.
unfoldable pub new_stellar_wallet : {E : Env} → StellarConfig → Action E (StellarWallet E)
new_stellar_wallet {E} config = do
  keypair ← lift (E.parse_full config.stellar_seed)
  account ← get_account_details config config.stellar_bridge_account
  load_sequence_number account
  pure (record { keypair = keypair; config = config; signature_count = account.med_threshold })
