-- ===== src/Tests/OnPallet.antt =====
-- The daemon on a chain that is the pallet, and that no withdrawal is paid twice there.
use tfchain_tft_bridge.Prelude.{
  ℕ, pos, ◌≡◌, refl, true, false, List, [], ◌∷◌, Text, codes, map, text_eq, low_int64, to_int64,
  to_uint64, ◌+ℤ◌,
}
use tfchain_tft_bridge.Errors.{Result, value, error, foreign}
use tfchain_tft_bridge.Exec.{ok, is_ok, ◌>>=◌}
use tfchain_tft_bridge.Go.Rat.{float_string}
use tfchain_tft_bridge.Go.Strconv.{format}
use tfchain_tft_bridge.Go.Strings.{split}
use tfchain_tft_bridge.Stellar.Network.{
  get_horizon_client, get_asset_code_and_issuer, get_network_pass_phrase,
}
use tfchain_tft_bridge.Stellar.Wallet.{
  create_payment_with_signatures_and_submit, generate_payment_operation, get_account_details,
  next_sequence, create_transaction, sign_and_submit, add_signatures, submit_transaction,
  after_submit, error_or_done, load_sequence_number, payment_params, reset_account_sequence,
  set_sequence_number,
}
use tfchain_tft_bridge.Substrate.Client as Client
use tfchain_tft_bridge.Substrate.Client.{
  after_attempt, after_check, retry, retry_loop, retry_set_withdraw_executed,
}
use tfchain_tft_bridge.Env.{Env, Chain, Stellar, Host, Call}
use tfchain_tft_bridge.Env.Types as Types
use tfchain_tft_bridge.Env.Types.{running}
use tfchain_tft_bridge.Bridge.Withdraw.Once.{OnlyAsked}
use tfchain_tft_bridge.World.{World, ask, perform, question}
use tfchain_tft_bridge.Substrate.Events.{WithdrawReadyEvent}
use tfchain_tft_bridge.Bridge.State.{Bridge}
use tfchain_tft_bridge.Bridge.Withdraw.{handle_withdraw_ready, pay_withdraw}
use tfchain_tft_bridge.Pallet.Keyed.{get, contains_key, nat_key, text_key}
use tfchain_tft_bridge.Pallet.Types.{BurnTransaction, StellarSignature, Storage, signed}
use tfchain_tft_bridge.Pallet.Dispatch.{Dispatched, done, failed, after}
use tfchain_tft_bridge.Pallet.Burn.{get_burn, set_stellar_burn_transaction_executed}
use tfchain_tft_bridge.Pallet.Validators.{check_if_validator_exists}
use tfchain_tft_bridge.Pallet.Calls.{set_burn_transaction_executed, dispatch}
use tfchain_tft_bridge.Pallet.Blocks.{build, Reaches, stop}
use tfchain_tft_bridge.Pallet.Client.{ServedBy, withdrawal-paid_once}
use tfchain_tft_bridge.Tests.{account_of, decode, config}
use tfchain_tft_bridge.Tests.Pallet.{small, genesis}

abbrev State : Type 0
State = Storage small

abbrev ran : State → Dispatched State Unit → Result Unit × State
ran s (done u t) = (value tt, t)
ran s (failed e) = (error (foreign 1), s)

abbrev answered : {A : Type 0} → A → Call State A
answered a s = (value a, s)

abbrev refused : {A : Type 0} → Call State A
refused s = (error (foreign 2), s)

abbrev as_stored : BurnTransaction → Types.BurnTransaction
as_stored tx = record {
  target = tx.target;
  amount = tx.amount;
  signatures =
      map
        (λ (sig : StellarSignature). record {
          signature = sig.signature;
          stellar_address = sig.stellar_pub_key;
        })
        tx.signatures;
  sequence_number = tx.sequence_number;
}

abbrev pallet_chain : Chain State
pallet_chain = record {
  Identity = ℕ;
  connect = λ url. answered tt;
  new_identity = λ seed. value 1;
  is_validator = λ identity. answered true;
  get_deposit_fee = answered (pos 10);
  is_minted_already = λ hash s. (value (contains_key hash s.executed_mint_transactions), s);
  is_refunded_already = λ hash s. (value (contains_key hash s.executed_refund_transactions), s);
  is_burned_already = λ id s. (value (contains_key id s.executed_burn_transactions), s);
  propose_or_vote_mint_transaction = λ identity hash target amount. refused;
  propose_burn_transaction_or_add_sig =
      λ identity id target amount signature address sequence. refused;
  set_burn_transaction_executed =
      λ identity id s. ran s (dispatch (signed identity) (set_burn_transaction_executed id) s);
  create_refund_transaction_or_add_sig =
      λ identity hash target amount signature address sequence. refused;
  set_refund_transaction_executed = λ identity hash. refused;
  get_burn_transaction = λ id s. (value (as_stored (get_burn id s.burn_transactions)), s);
  get_refund_transaction = λ hash. refused;
  get_twin = λ id. refused;
  get_farm = λ id. refused;
  get_node = λ id. refused;
  get_entity = λ id. refused;
  account_string = λ account. account;
  from_address = λ address. value address;
  get_events_for_block = λ height. refused;
  get_client = answered tt;
  subscribe_finalized_heads = answered tt;
  next_head = λ s. (Types.context_done, s);
  reopen = answered tt;
}

abbrev stellar : Stellar State
stellar = record {
  Keypair = Text;
  Tx = Types.TransactionParams × List Text;
  parse_full = λ seed. value seed;
  address = λ keypair. keypair;
  account_detail = λ client address. answered (account_of address);
  transactions = λ client account cursor. answered [];
  effects = λ client hash. answered [];
  operations = λ client hash. answered [];
  submit_transaction = λ client tx. answered (codes "f00d");
  new_transaction = λ params. value (params, []);
  sign = λ passphrase keypair tx. value (tx.0, keypair ∷ tx.1);
  signatures = λ tx. tx.1;
  sequence_number = λ tx. tx.0.sequence;
  add_signature_base64 = λ passphrase address signature tx. value (tx.0, signature ∷ tx.1);
  test_network_passphrase = codes "test";
  public_network_passphrase = codes "public";
  min_base_fee = 100;
  parse_int64 = λ amount. value (pos 0);
}

abbrev host : Host State
host = record {
  read_file = λ location s. (Types.not_exist, s);
  write_file = λ location b. answered tt;
  marshal = λ b. value (b.last_height ∷ b.stellar_cursor);
  unmarshal = decode;
  poll = λ s. (false, s);
  wait = λ s. (false, s);
  Float = ℕ;
  parse_float = λ limit. value 1;
  is_positive = λ f. true;
}

abbrev on_pallet : Env
on_pallet = record { State = State; chain = pallet_chain; stellar = stellar; host = host }

ran-after :
    (s : State) (r : Dispatched State Unit)
    → (ran s r).0 ≡ value tt
    → (r ≡ done tt (after s r)) × Reaches (after s r) (ran s r).1
ran-after s (done tt t) h = (refl, stop)
ran-after s (failed e) h = cc

served : ServedBy on_pallet small
served = record {
  storage = λ s. s;
  account = λ identity. identity;
  before = λ identity id s. s;
  included = λ identity id s h.
      ran-after s (dispatch (signed identity) (set_burn_transaction_executed id) s) h;
  told = λ id s b h. (stop, (cc));
}

abbrev bridge : Bridge on_pallet
bridge = record {
  wallet = record { keypair = codes "KEY"; config = config; signature_count = 2 };
  sub_client = record { identity = 1 };
  block_persistency = record { location = codes "height.json" };
  config = record {
    tfchain_url = codes "ws://localhost";
    tfchain_seed = codes "SEED";
    rescan_bridge_account = false;
    persistency_file = codes "height.json";
    stellar_config = config;
  };
  deposit_fee = pos 10;
}

abbrev ready_burn : BurnTransaction
ready_burn = record {
  block = 0;
  amount = 90;
  target = codes "GC";
  signatures =
      record { signature = codes "sig1"; stellar_pub_key = codes "GA" }
      ∷ record { signature = codes "sig2"; stellar_pub_key = codes "GB" }
      ∷ [];
  sequence_number = 8;
}

abbrev before_payment : World on_pallet
before_payment = record {
  outside = record genesis { burn_transactions = (4, ready_burn) ∷ [] };
  sequence_number = pos 7;
  trace = [];
}

abbrev ready : WithdrawReadyEvent
ready = record { id = 4 }

abbrev after_payment : World on_pallet
after_payment = (handle_withdraw_ready 2 bridge running ready before_payment).1

pays : (handle_withdraw_ready 2 bridge running ready before_payment).0 ≡ ok tt
unfolding handle_withdraw_ready build ◌>>=◌ perform question contains_key get get_burn ask
    pay_withdraw dispatch create_payment_with_signatures_and_submit generate_payment_operation
    get_account_details get_horizon_client text_eq next_sequence create_transaction sign_and_submit
    add_signatures submit_transaction after_submit float_string format split low_int64 to_int64
    to_uint64 ◌+ℤ◌ get_asset_code_and_issuer get_network_pass_phrase error_or_done
    load_sequence_number payment_params reset_account_sequence set_sequence_number after_attempt
    after_check retry retry_loop retry_set_withdraw_executed Client.wait
    set_stellar_burn_transaction_executed check_if_validator_exists
pays = refl

withdrawal-paid_once_example :
    (is_ok (handle_withdraw_ready 3 bridge running ready after_payment).0 ≡ false)
    × OnlyAsked 4 after_payment.trace
        (handle_withdraw_ready 3 bridge running ready after_payment).1.trace
withdrawal-paid_once_example =
    withdrawal-paid_once served 2 bridge running ready ready before_payment after_payment refl pays
      stop 3 bridge running
