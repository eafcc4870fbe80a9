-- ===== src/Stellar/Wallet/Generation.antt =====
-- What `generatePaymentOperation` of tfchain_bridge/pkg/stellar/stellar.go builds, and which sequence
-- number it takes.
use tfchain_tft_bridge.Prelude.{
  ℕ, zero, suc, ◌*◌, ℤ, pos, negsuc, ◌+ℤ◌, low_int64, to_int64, ◌≡◌, ◌≢◌, refl, Bool, true, false,
  Option, none, some, [], ◌∷◌, Text, Bytes, codes, text_eq, arith, ◌==◌, if◌then◌else◌,
}
use tfchain_tft_bridge.Exec.{Outcome, ok, err, crash, unfinished, pure, raise, wrapping, ◌>>=◌}
use tfchain_tft_bridge.Exec.Rules.{Post, bind_post, if_post}
use tfchain_tft_bridge.Config.{StellarConfig}
use tfchain_tft_bridge.Env.{Env}
use tfchain_tft_bridge.Env.Types.{Account, TransactionParams, Memo, no_memo, memo_return}
use tfchain_tft_bridge.World.{World, Action, ask}
use tfchain_tft_bridge.Errors.{foreign, value, error}
use tfchain_tft_bridge.Go.Rat.{float_string}
use tfchain_tft_bridge.Go.Hex.{hex_decode, copy_into}
use tfchain_tft_bridge.Stellar.Network.{get_network_pass_phrase}
use tfchain_tft_bridge.Stellar.Asset.{testnet_or_not, tft_code, tft_issuer, asset_is_tft}
use tfchain_tft_bridge.Stellar.Wallet.{
  StellarWallet, check_account, get_account_details, taken, next_sequence, payment_params,
  parse_memo, generate_payment_operation,
}

-- The trace and the number of the wallet are as they were.
pub record IsSame {E : Env} (s t : World E) : Type 0 where
  pub trace : t.trace ≡ s.trace
  pub sequence_number : t.sequence_number ≡ s.sequence_number

account_asked :
    {E : Env} (text : Text) (config : StellarConfig) (address : Text) (s : World E)
    → Post
        (wrapping text (get_account_details config address))
        s
        (λ o t. IsSame s t × (o ≢ crash) × (o ≢ unfinished))
unfolding get_account_details ask ◌>>=◌
account_asked text config address s = (ground arith, ground arith, ground arith)

-- The memo of a refund: 32 bytes, of the hash that the text says in hexadecimal.
abbrev pub IsReturnMemo : Text → Memo → Type 0
IsReturnMemo hash memo =
    (raw : Bytes) × (hex_decode hash ≡ some raw) × (memo ≡ memo_return (copy_into 32 raw))

pub parse_memo-IsReturnMemo :
    (hash : Text) (memo : Memo) → parse_memo hash ≡ value memo → IsReturnMemo hash memo
unfolding parse_memo
parse_memo-IsReturnMemo hash memo h = go (hex_decode hash) refl h
  where
    go :
        (o : Option Bytes)
        → hex_decode hash ≡ o
        → elim o [ none ↦ error (foreign 0) | some raw ↦ value (memo_return (copy_into 32 raw)) ]
          ≡ value memo
        → IsReturnMemo hash memo
    go none e h = absurd (ground (arith, h))
    go (some raw) e h = (raw, e, cc)

-- The passphrase of the main network, and of every other one.
abbrev pub network_phrase : Env → StellarConfig → Text
network_phrase E config =
    if text_eq config.stellar_network (codes "production")
    then E.public_network_passphrase
    else E.test_network_passphrase

pub network_phrase_lem :
    (E : Env) (config : StellarConfig) → get_network_pass_phrase E config ≡ network_phrase E config
unfolding get_network_pass_phrase
network_phrase_lem E config =
    go (text_eq config.stellar_network (codes "testnet"))
      (text_eq config.stellar_network (codes "production")) (testnet_or_not config.stellar_network)
  where
    go :
        (testnet production : Bool)
        → (testnet ≡ true → production ≡ false)
        → (if testnet
            then E.test_network_passphrase
            else if production
            then E.public_network_passphrase
            else E.test_network_passphrase)
          ≡ (if production then E.public_network_passphrase else E.test_network_passphrase)
    go true true h = ground (arith, h refl)
    go true false h = refl
    go false true h = refl
    go false false h = refl

-- The number of the parameters: the one after the wallet's if zero is given, else the given one.
abbrev pub number_for : ℤ → ℤ → ℤ
number_for (pos zero) current = low_int64 (current +ℤ pos 1)
number_for (pos (suc n)) current = pos (suc n)
number_for (negsuc n) current = negsuc n

taken_lem : (n current : ℤ) → taken n current ≡ number_for n current
taken_lem (pos zero) current = refl
taken_lem (pos (suc n)) current = ground arith
taken_lem (negsuc n) current = refl

module _ {E : Env} (w : StellarWallet E) where
  -- One payment of the amount, with seven decimals, to the target, in the TFT of the network, from
  -- the account that Horizon gave and nobody else, at the sequence number as it is.
  abbrev pub IsPayment : Text → ℕ → ℤ → Memo → TransactionParams → Type 0
  IsPayment target amount sequence memo params =
      (source : Text) × (params ≡ record {
        operations =
            record {
              destination = target;
              amount = float_string (to_int64 amount);
              asset_code = tft_code;
              asset_issuer = tft_issuer w.config;
              source_account = source;
            }
            ∷ [];
        infinite_timeout = true;
        account_id = source;
        sequence = sequence;
        base_fee = E.min_base_fee * 1000;
        increment_sequence_num = false;
        memo = memo;
      })

  payment_params-IsPayment :
      (source target : Text) (amount : ℕ) (sequence : ℤ)
      → IsPayment target amount sequence no_memo
          (payment_params E w.config source amount target sequence)
  unfolding payment_params
  payment_params-IsPayment source target amount sequence = (source, rw (asset_is_tft w.config) refl)

  abbrev pub Generates : ℕ → Text → ℤ → World E → Outcome TransactionParams → World E → Type 0
  Generates amount target n s (ok params) t =
      (amount ≢ 0)
      × IsPayment target amount (number_for n s.sequence_number) no_memo params
      × (t.sequence_number ≡ number_for n s.sequence_number)
      × (t.trace ≡ s.trace)
  Generates amount target n s (err e) t = IsSame s t
  Generates amount target n s _ t = ⊥

  take_number :
      (amount : ℕ) (target : Text) (n : ℤ) (s t : World E) (account : Account)
      → amount ≢ 0
      → IsSame s t
      → let m : Action E TransactionParams = do
        sequence ← next_sequence n
        pure (payment_params E w.config account.account_id amount target sequence)
        in Post m t (Generates amount target n s)
  unfolding next_sequence ◌>>=◌
  take_number amount target n s t account h same =
      let e : taken n t.sequence_number ≡ number_for n s.sequence_number =
        rw (same.sequence_number, taken_lem n s.sequence_number) refl in
      (h, rw e (payment_params-IsPayment account.account_id target amount _), e, same.trace)

  -- A payment of a positive amount to the target in the parameters, with the next sequence number
  -- of the wallet if none is given, which the wallet keeps; or an error, and the wallet keeps the
  -- number that it had. Nothing is left in the trace.
  pub generate_payment_operation-Generates :
      (amount : ℕ) (target : Text) (n : ℤ) (s : World E)
      → Post (generate_payment_operation w amount target n) s (Generates amount target n s)
  unfolding generate_payment_operation
  generate_payment_operation-Generates amount target n s =
      if_post (Generates amount target n s) (amount == 0) _ _ s
        (λ _. unfold raise in record { trace = refl; sequence_number = refl })
        λ positive.
          bind_post (λ o t. IsSame s t × (o ≢ crash) × (o ≢ unfinished))
            (Generates amount target n s) _ _ s
            (record {
              on_err = λ e t r. r.0;
              on_crash = λ t r. absurd (r.1 refl);
              on_unfinished = λ t r. absurd (r.2 refl);
            })
            (λ account t r. take_number amount target n s t account (ground arith) r.0)
            (account_asked _ w.config w.config.stellar_bridge_account s)

  -- Looking an account up changes nothing that the daemon keeps, and returns.
  pub check_account-IsSame :
      (account : Text) (s : World E)
      → Post (check_account w account) s (λ o t. IsSame s t × (o ≢ crash) × (o ≢ unfinished))
  unfolding check_account get_account_details ask ◌>>=◌
  check_account-IsSame account s = (ground arith, ground arith, ground arith)
