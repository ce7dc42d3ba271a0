-- ===== src/Api/Listings.antt =====
-- `list` of cic_eth/api/api_task.py: the transactions of an account in the queue and, if a task of
-- another service is named, those that it tells of. tx_collate is linked to the query of the queue, and
-- is the body of the chord as well, so that with an external task it runs twice.
use cic_stack_v.Prelude.{ℕ, true, Option, none, some, List, [], ◌∷◌, ◌++◌}
use cic_stack_v.Store.Rows.{Text}
use cic_stack_v.Store.{Action, ◌>>=◌, ◌>>◌, pure}
use cic_stack_v.External.{Encoding}
use cic_stack_v.QueueQuery.{Queries, Selection, get_account_tx}
use cic_stack_v.Ext.{Lookup, BloomSpec, Entry, list_tx_by_bloom}
use cic_stack_v.Ext.Collate.{Item, raw, external, Sources, Row, tx_collate}
use cic_stack_v.Api.{Api, callback_with}
use cic_stack_v.Api.Balances.{aside, reporting}

-- The task of another service: offset, limit, address.
abbrev pub ExternalTask : Type 0
ExternalTask = ℕ → ℕ → Text → Action BloomSpec

-- The defaults of get_account_tx.
no_selection : Selection
no_selection = record { status = none; not_status = none; offset = none; limit = none }

-- The signed transactions of the queue, from a dictionary by hash.
local_items : List (Text × Text) → List Item
local_items [] = []
local_items ((hash, signed) ∷ txs) = raw signed ∷ local_items txs

external_items : List (Text × Entry) → List Item
external_items [] = []
external_items ((key, entry) ∷ txs) = external entry ∷ external_items txs

module _ (enc : Encoding) (queries : Queries (List (Text × Text))) (sources : Sources)
    (node_lookup : Lookup) (api : Api) where
  -- `s_brief` and its callbacks
  brief : ℕ → List Item → Action (List Row)
  brief limit items =
      reporting (callback_with 0 api.callback_param)
        (tx_collate enc sources items 0 limit true true)

  -- `s_local`
  local_txs : Text → Action (List Item)
  unfolding local_items
  local_txs address = do
    txs ← get_account_tx enc queries api.chain address true true none no_selection
    pure (local_items txs)

  -- The header of the chord.
  with_external : Text → ℕ → ExternalTask → Action (List Item)
  unfolding brief local_txs external_items
  with_external address limit external_task = do
    local ← local_txs address
    aside (brief limit local)
    spec ← external_task 0 limit address
    found ← list_tx_by_bloom enc node_lookup spec address
    pure (local ++ external_items found)

  -- `list`
  serve_list : Text → ℕ → Option ExternalTask → Action (List Row)
  unfolding with_external
  serve_list address limit none = do local ← local_txs address; brief limit local
  serve_list address limit (some external_task) = do
    items ← with_external address limit external_task
    brief limit items
