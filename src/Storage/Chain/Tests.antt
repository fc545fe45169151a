-- ===== src/Storage/Chain/Tests.antt =====
-- Concrete inputs at which the theorems about the chain store are applied.
use fry_chain.Storage.Chain.{
  get_hash_by_height, get_latest_height, put_block, set_latest_height, put_locations,
}
use fry_chain.Storage.{batch_put, write_batch, put}
use fry_chain.Core.Block.{new_stored, new_header, header_hash, header_bytes}
use fry_chain.Storage.Toy.{
  Table, empty_table, memory_rocks, memory_rocks-IsLawful, toy_hex, toy_hex_injective, toy_sha3,
  toy_sha3_width, genesis_stored, table_of,
}
use fry_chain.Storage.Chain.Spec.{empty_chain, Represents}
use fry_chain.Storage.Chain.Runs.{
  StoreOp, put_block_op, set_latest_op, HeightFits, spec_run, store_run, store_run_refines,
}
use fry_chain.Storage.{get}
use fry_chain.Results.{good}
use fry_chain.Core.Transaction.{new_transfer, signed_hash, transaction_hash, signing_bytes, type_id}
use fry_chain.Storage.Chain.{
  get_header, get_body, get_block_meta, get_tx_location, get_receipt, get_transaction, get_block,
}
use fry_chain.Storage.Chain.Holds.{Holds, Holds-Represents}
use fry_chain.Storage.Paid.{paid_codecs, paid_codecs-AreAllCodecs, paid_stored, payment}
use fry_chain.Prelude.{◌≡◌, some, refl, List, [], ◌∷◌, All, arith}

-- The store holds the genesis block and a block on it with a transaction.
abbrev two_blocks : List StoreOp
two_blocks =
    put_block_op genesis_stored ∷ set_latest_op 0 ∷ put_block_op paid_stored ∷ set_latest_op 1 ∷ []

two_blocks-HeightFits : All HeightFits two_blocks
unfolding new_stored new_header
two_blocks-HeightFits = (omega arith, (omega arith, (omega arith, (omega arith, tt))))

empty_table-Holds : Holds paid_codecs toy_hex toy_sha3 memory_rocks empty_table empty_chain
unfolding get_header get_body get_block_meta get_hash_by_height get_tx_location get_receipt
    get_latest_height get
empty_table-Holds = record {
  headers = λ k. refl;
  bodies = λ k. refl;
  metas = λ k. refl;
  heights = λ n h. refl;
  locations = λ k. refl;
  receipts = λ k. refl;
  latest = refl;
}

abbrev filled : Table
filled = table_of (store_run memory_rocks toy_hex paid_codecs toy_sha3 two_blocks empty_table)

store_run_refines_example :
    Represents paid_codecs toy_hex toy_sha3 memory_rocks filled
      (spec_run toy_sha3 two_blocks empty_chain)
unfolding put_block set_latest_height new_stored new_header put_locations batch_put write_batch
    header_hash header_bytes put new_transfer signed_hash transaction_hash signing_bytes type_id
store_run_refines_example =
    store_run_refines memory_rocks memory_rocks-IsLawful toy_hex toy_hex_injective paid_codecs
      paid_codecs-AreAllCodecs toy_sha3 toy_sha3_width two_blocks empty_table filled empty_chain
      two_blocks-HeightFits
      (Holds-Represents paid_codecs toy_hex toy_sha3 memory_rocks empty_table empty_chain
        empty_table-Holds)
      refl

-- The transaction is found.
payment_found :
    get_transaction paid_codecs toy_hex toy_sha3 memory_rocks filled (signed_hash toy_sha3 payment)
    ≡ good (some payment)
unfolding put_block set_latest_height new_stored new_header put_locations batch_put write_batch
    header_hash header_bytes put new_transfer signed_hash transaction_hash signing_bytes type_id
    get_transaction get_tx_location get_block get_header get_body get
payment_found = refl
