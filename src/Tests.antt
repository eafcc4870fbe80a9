-- ===== src/Tests.antt =====
-- A small chain, Stellar network and machine on which the tests run.
pub mod Runs
pub mod Handlers
pub mod Parts
pub mod Streams
pub mod Daemon
pub mod Retries
pub mod Rounds
pub mod Pallet
pub mod OnPallet
pub mod Parser
use tfchain_tft_bridge.Prelude.{
  ℕ, zero, suc, ℤ, pos, ◌≡◌, refl, ◌⊎◌, inl, inr, Bool, true, false, if◌then◌else◌, Option, none,
  some, List, [], ◌∷◌, Text, Bytes, codes, arith, ◌<◌, ◌≤◌, ap,
}
use tfchain_tft_bridge.Errors.{
  Error, sentinel, foreign, mint_transaction_not_found, Result, value, error,
}
use tfchain_tft_bridge.Env.{Env, Chain, Stellar, Host, Call}
use tfchain_tft_bridge.Env.Types.{
  StellarSignature, BurnTransaction, RefundTransaction, Account, Balance, Transaction,
  TransactionParams, Blockheight, FileRead, not_exist, content, context_done, new_head,
}
use tfchain_tft_bridge.World.{World}
use tfchain_tft_bridge.Config.{StellarConfig, BridgeConfig}
use tfchain_tft_bridge.Persistency.{ChainPersistency}
use tfchain_tft_bridge.Persistency.Saved.{IsReliable}
use tfchain_tft_bridge.World.Timely.{Deadline, IsShort, IsSteady}
use tfchain_tft_bridge.Stellar.Network.{tft_test}
use tfchain_tft_bridge.Bridge.State.{Bridge}

-- The chain refuses what it is told until `rounds` waits are over; `done` says whether it has
-- been told since.
pub record Sim : Type 0 where
  pub rounds : ℕ
  pub done : Bool
  pub file : Option Bytes

abbrev pub tell : Call Sim Unit
tell s = elim s.rounds [
  | zero ↦ (value tt, record s { done = true })
  | suc n ↦ (error (foreign 1), s)
]

abbrev pub answer : {A : Type 0} → A → Call Sim A
answer a s = (value a, s)

abbrev pub is_done : Call Sim Bool
is_done s = (value s.done, s)

abbrev pub is_known : Call Sim Bool
is_known s = if s.done then (value true, s) else (error (sentinel mint_transaction_not_found), s)

abbrev pub two_signatures : List StellarSignature
two_signatures =
    record { signature = codes "sig1"; stellar_address = codes "GA" }
    ∷ record { signature = codes "sig2"; stellar_address = codes "GB" }
    ∷ []

abbrev pub stored_hash : Text
stored_hash = codes "0a1b"

abbrev pub sim_chain : Chain Sim
sim_chain = record {
  Identity = ℕ;
  connect = λ url. answer tt;
  new_identity = λ seed. value 0;
  is_validator = λ identity. answer true;
  get_deposit_fee = answer (pos 10000000);
  is_minted_already = λ hash. is_known;
  is_refunded_already = λ hash. is_done;
  is_burned_already = λ id. is_done;
  propose_or_vote_mint_transaction = λ identity hash target amount. tell;
  propose_burn_transaction_or_add_sig =
      λ identity id target amount signature address sequence. tell;
  set_burn_transaction_executed = λ identity id. tell;
  create_refund_transaction_or_add_sig =
      λ identity hash target amount signature address sequence. tell;
  set_refund_transaction_executed = λ identity hash. tell;
  get_burn_transaction = λ id. answer (record {
    target = codes "GC";
    amount = 25000000;
    signatures = two_signatures;
    sequence_number = 8;
  });
  get_refund_transaction = λ hash. answer (record {
    target = codes "GC";
    amount = 5000000;
    tx_hash = hash;
    signatures = two_signatures;
    sequence_number = 8;
  });
  get_twin = λ id. answer (id ∷ []);
  get_farm = λ id. answer id;
  get_node = λ id. answer id;
  get_entity = λ id. answer (id ∷ []);
  account_string = λ account. account;
  from_address = λ address. value address;
  get_events_for_block = λ height s. (error (foreign 2), s);
  get_client = answer tt;
  subscribe_finalized_heads = answer tt;
  next_head = λ s. elim s.rounds [
    | zero ↦ (context_done, s)
    | suc n ↦ (new_head n, record s { rounds = n })
  ];
  reopen = answer tt;
}

abbrev pub account_of : Text → Account
account_of address = record {
  account_id = address;
  med_threshold = 2;
  balances =
      record {
        code = codes "TFT";
        issuer = codes "GA47YZA3PKFUZMPLQ3B5F2E3CJIB57TGGU7SPCQT2WAEYKN766PWIMB3";
        limit = codes "1000";
      }
      ∷ [];
  get_sequence_number = (pos 7, none);
}

abbrev pub sim_stellar : Stellar Sim
sim_stellar = record {
  Keypair = Text;
  Tx = TransactionParams × List Bytes;
  parse_full = λ seed. value seed;
  address = λ keypair. keypair;
  account_detail = λ client address. answer (account_of address);
  transactions = λ client account cursor. answer [];
  effects = λ client hash. answer [];
  operations = λ client hash. answer [];
  submit_transaction = λ client tx. answer (codes "f00d");
  new_transaction = λ params. value (params, []);
  sign = λ passphrase keypair tx. value (tx.0, keypair ∷ tx.1);
  signatures = λ tx. tx.1;
  sequence_number = λ tx. tx.0.sequence;
  add_signature_base64 = λ passphrase address signature tx. value (tx.0, signature ∷ tx.1);
  test_network_passphrase = codes "test";
  public_network_passphrase = codes "public";
  min_base_fee = 100;
  parse_int64 = λ amount. value (pos 0);
}

abbrev pub decode : Bytes → Result Blockheight
decode [] = error (foreign 3)
decode (height ∷ cursor) = value (record { last_height = height; stellar_cursor = cursor })

abbrev pub as_read : Option Bytes → FileRead
as_read none = not_exist
as_read (some b) = content b

abbrev pub sim_host : Host Sim
sim_host = record {
  read_file = λ location s. (as_read s.file, s);
  write_file = λ location b s. (value tt, record s { file = some b });
  marshal = λ b. value (b.last_height ∷ b.stellar_cursor);
  unmarshal = decode;
  poll = λ s. elim s.rounds [ zero ↦ (true, s) | suc n ↦ (false, s) ];
  wait = λ s. elim s.rounds [ zero ↦ (true, s) | suc n ↦ (false, record s { rounds = n }) ];
  Float = ℕ;
  parse_float = λ limit. value 1;
  is_positive = λ f. true;
}

abbrev pub sim : Env
sim = record { State = Sim; chain = sim_chain; stellar = sim_stellar; host = sim_host }

pub sim-IsReliable : IsReliable sim
sim-IsReliable = record {
  unmarshal-marshal =
      λ b json ascii e. let p : json ≡ b.last_height ∷ b.stellar_cursor = cc in ap decode p;
  read-write = λ location b s e. refl;
}

-- A wait ends the context or uses one round up.
pub wait_ends_at :
    (n : ℕ) (done : Bool) (file : Option Bytes)
    → let s : Sim = record { rounds = n; done = done; file = file } in
      (((sim_host.wait s).0 ≡ true) × ((sim_host.wait s).1.rounds ≤ n))
      ⊎ ((sim_host.wait s).1.rounds < n)
wait_ends_at zero done file = inl (refl, omega arith)
wait_ends_at (suc n) done file = inr (omega arith)

abbrev pub sim_deadline : Deadline sim
sim_deadline = record { left = λ s. s.rounds; wait_ends = λ s. wait_ends_at s.rounds s.done s.file }

tell_at :
    (n : ℕ) (done : Bool) (file : Option Bytes)
    → (tell (record { rounds = n; done = done; file = file })).1.rounds ≤ n
tell_at zero done file = omega arith
tell_at (suc n) done file = omega arith

tell-IsShort : IsShort sim_deadline tell
tell-IsShort = record { at = λ s. tell_at s.rounds s.done s.file }

is_known_at :
    (n : ℕ) (done : Bool) (file : Option Bytes)
    → (is_known (record { rounds = n; done = done; file = file })).1.rounds ≤ n
is_known_at n true file = omega arith
is_known_at n false file = omega arith

pub sim_deadline-IsSteady : IsSteady sim_deadline
sim_deadline-IsSteady = record {
  is_minted_already = λ hash. record { at = λ s. is_known_at s.rounds s.done s.file };
  is_refunded_already = λ hash. record { at = λ s. omega arith };
  is_burned_already = λ id. record { at = λ s. omega arith };
  propose_or_vote_mint_transaction = λ identity hash target amount. tell-IsShort;
  propose_burn_transaction_or_add_sig =
      λ identity id target amount signature address sequence. tell-IsShort;
  set_burn_transaction_executed = λ identity id. tell-IsShort;
  create_refund_transaction_or_add_sig =
      λ identity hash target amount signature address sequence. tell-IsShort;
  set_refund_transaction_executed = λ identity hash. tell-IsShort;
  get_burn_transaction = λ id. record { at = λ s. omega arith };
  get_refund_transaction = λ hash. record { at = λ s. omega arith };
  account_detail = λ client address. record { at = λ s. omega arith };
  submit_transaction = λ client tx. record { at = λ s. omega arith };
}

abbrev pub config : StellarConfig
config = record {
  stellar_bridge_account = codes "GBRIDGE";
  stellar_network = codes "testnet";
  stellar_seed = codes "SSEED";
  stellar_horizon_url = [];
}

abbrev pub bridge : Bridge sim
bridge = record {
  wallet = record { keypair = codes "KEY"; config = config; signature_count = 2 };
  sub_client = record { identity = 0 };
  block_persistency = record { location = codes "height.json" };
  config = record {
    tfchain_url = codes "ws://localhost";
    tfchain_seed = codes "SEED";
    rescan_bridge_account = false;
    persistency_file = codes "height.json";
    stellar_config = config;
  };
  deposit_fee = pos 10000000;
}

-- One round of waiting before the chain listens, and nothing saved yet.
abbrev pub fresh : World sim
fresh = record {
  outside = record { rounds = 1; done = false; file = none };
  sequence_number = pos 7;
  trace = [];
}

abbrev pub deposit : Transaction
deposit = record {
  hash = stored_hash;
  memo = codes "twin_3";
  memo_type = codes "text";
  successful = true;
  paging_token = codes "77";
}
