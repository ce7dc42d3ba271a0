-- ===== src/Token/Cache.antt =====
-- The tasks of cic_eth/eth/erc20.py, cic_eth/eth/account.py and cic_eth/eth/gas.py that fill the transaction cache. The
-- decoding of a transaction's data and chainqueue's `cache_tx_dict` are arguments.
pub mod Balances
use cic_stack_v.Prelude.{ℕ}
use cic_stack_v.Store.Rows.{Text, zero_address}
use cic_stack_v.Store.Session.{create_session, close}
use cic_stack_v.Store.{Action, Result, ⊤, ◌>>=◌, ◌>>◌, pure, from_result}
use cic_stack_v.External.{Encoding, Queue}

-- `tx_dict`
pub record TxDict : Type 0 where
  pub hash : Text
  pub from_address : Text
  pub to_address : Text
  pub source_token : Text
  pub destination_token : Text
  pub from_value : ℕ
  pub to_value : ℕ

pub record Requests : Type 0 where
  -- `tx['data']` of a signed transaction on a chain
  pub data_of : Text → Text → Text
  -- recipient, value
  pub parse_transfer_request : Text → Result (Text × ℕ)
  -- holder, recipient, value
  pub parse_transfer_from_request : Text → Result (Text × Text × ℕ)
  -- spender, value
  pub parse_approve_request : Text → Result (Text × ℕ)
  pub parse_give_to_request : Text → Result Text
  pub parse_add_request : Text → Result Text

module _ (enc : Encoding) (queue : Queue) (requests : Requests)
    (cache_tx_dict : TxDict → Action ℕ) where
  -- The row goes in within a session of its own, and its id is returned with the hash.
  store : Text → TxDict → Action (Text × ℕ)
  store tx_hash tx_dict = do
    create_session
    cache_id ← cache_tx_dict tx_dict
    close
    pure (tx_hash, cache_id)

  -- What the caches of a transfer and of an approval hold.
  cache_request : Text → Text → Text → Text × ℕ → Action (Text × ℕ)
  unfolding store
  cache_request tx_hash signed chain request =
      let tx = queue.unpack (enc.strip_0x signed) chain in
      store tx_hash (record {
        hash = tx_hash;
        from_address = enc.wallet_address tx.sender;
        to_address = enc.wallet_address request.0;
        source_token = enc.executable_address tx.recipient;
        destination_token = enc.executable_address tx.recipient;
        from_value = request.1;
        to_value = request.1;
      })

  pub cache_transfer_data : Text → Text → Text → Action (Text × ℕ)
  unfolding cache_request
  cache_transfer_data tx_hash signed chain = do
    request ←
        from_result (requests.parse_transfer_request (requests.data_of (enc.strip_0x signed) chain))
    cache_request tx_hash signed chain request

  -- The sender of the transaction, who is the spender, and the recipient stand as they were decoded.
  pub cache_transfer_from_data : Text → Text → Text → Action (Text × ℕ)
  unfolding store
  cache_transfer_from_data tx_hash signed chain = do
    request ←
        from_result
          (requests.parse_transfer_from_request (requests.data_of (enc.strip_0x signed) chain))
    let tx = queue.unpack (enc.strip_0x signed) chain
    store tx_hash (record {
      hash = tx_hash;
      from_address = tx.sender;
      to_address = request.1;
      source_token = enc.executable_address tx.recipient;
      destination_token = enc.executable_address tx.recipient;
      from_value = request.2;
      to_value = request.2;
    })

  cache_approve_data : Text → Text → Text → Action (Text × ℕ)
  unfolding cache_request
  cache_approve_data tx_hash signed chain = do
    request ←
        from_result (requests.parse_approve_request (requests.data_of (enc.strip_0x signed) chain))
    cache_request tx_hash signed chain request

  -- A call of a contract moves no tokens. `unpack_normal` has normalised the transaction already, and
  -- the hash is its own; the hash that was given is returned.
  cache_call : Text → Text → Text → Action (Text × ℕ)
  unfolding store
  cache_call tx_hash signed chain =
      let tx = queue.unpack (enc.strip_0x signed) chain in
      store tx_hash (record {
        hash = enc.hash tx.hash;
        from_address = enc.wallet_address (enc.wallet_address tx.sender);
        to_address = enc.wallet_address (enc.wallet_address tx.recipient);
        source_token = enc.wallet_address zero_address;
        destination_token = enc.wallet_address zero_address;
        from_value = 0;
        to_value = 0;
      })

  cache_gift_data : Text → Text → Text → Action (Text × ℕ)
  unfolding cache_call
  cache_gift_data tx_hash signed chain = do
    request ←
        from_result (requests.parse_give_to_request (requests.data_of (enc.strip_0x signed) chain))
    cache_call tx_hash signed chain

  cache_account_data : Text → Text → Text → Action (Text × ℕ)
  unfolding cache_call
  cache_account_data tx_hash signed chain = do
    request ←
        from_result (requests.parse_add_request (requests.data_of (enc.strip_0x signed) chain))
    cache_call tx_hash signed chain

  -- `cache_gas_data` of cic_eth/eth/gas.py: value that moves without a contract.
  cache_gas_data : Text → Text → Text → Action (Text × ℕ)
  unfolding store
  cache_gas_data tx_hash signed chain =
      let tx = queue.unpack (enc.strip_0x signed) chain in
      store tx_hash (record {
        hash = enc.hash tx.hash;
        from_address = enc.wallet_address tx.sender;
        to_address = enc.wallet_address tx.recipient;
        source_token = enc.wallet_address zero_address;
        destination_token = enc.wallet_address zero_address;
        from_value = tx.value;
        to_value = tx.value;
      })
