-- ===== src/Core/Config.antt =====
-- crates/frychain-core/src/config.rs: the chain configuration and the schedule of block rewards.
pub mod Emission
use fry_chain.Core.Address.{Address}
use fry_chain.Words.{u128_mod}
use fry_chain.Core.Amount.{TokenAmount, BlockHeight, units_per_fry, from_fry}
use fry_chain.Core.Difficulty.{new_difficulty, initial}
use fry_chain.Prelude.{
  ℕ, ◌-◌, ◌*◌, ◌/◌, ◌%◌, ◌^◌, String, Bool, true, false, Option, none, some, List, [], ◌∷◌, ◌++◌,
  leb, ◌==◌, if◌then◌else◌,
}

pub data NetworkId : Type 0 where
  mainnet_id testnet_id devnet_id local_id : NetworkId

unfoldable pub chain_id_of : NetworkId → ℕ
chain_id_of mainnet_id = 1
chain_id_of testnet_id = 2
chain_id_of devnet_id = 3
chain_id_of local_id = 1337

unfoldable pub from_chain_id : ℕ → Option NetworkId
from_chain_id id =
    if id == 1
    then some mainnet_id
    else if id == 2
    then some testnet_id
    else if id == 3
    then some devnet_id
    else if id == 1337
    then some local_id
    else none

pub record GenesisAllocation : Type 0 where
  pub address : Address
  pub balance : TokenAmount
  pub code : Option (List ℕ)
  pub is_device : Bool

pub record ChainConfig : Type 0 where
  pub network_id : NetworkId
  pub chain_id : ℕ
  pub chain_name : String
  pub token_symbol : String
  pub token_decimals : ℕ
  pub genesis_timestamp : ℕ
  pub initial_difficulty : ℕ
  pub target_block_time : ℕ
  pub difficulty_adjustment_interval : ℕ
  pub initial_block_reward : TokenAmount
  pub halving_interval : ℕ
  pub max_supply : TokenAmount
  pub genesis_allocations : List GenesisAllocation
  pub precompiles : List Address
  pub post_quantum_only : Bool
  pub depin_enabled : Bool
  pub min_gas_price : ℕ
  pub block_gas_limit : ℕ

unfoldable pub mainnet : ChainConfig
unfolding from_fry
mainnet = record {
  network_id = mainnet_id;
  chain_id = 1;
  chain_name = "FryChain Mainnet";
  token_symbol = "FRY";
  token_decimals = 18;
  genesis_timestamp = 1704067200;
  initial_difficulty = initial;
  target_block_time = 60;
  difficulty_adjustment_interval = 2016;
  initial_block_reward = from_fry 50;
  halving_interval = 2_100_000;
  max_supply = 210_000_000 * units_per_fry;
  genesis_allocations = [];
  precompiles = [];
  post_quantum_only = true;
  depin_enabled = true;
  min_gas_price = 1_000_000_000;
  block_gas_limit = 30_000_000;
}

unfoldable pub testnet : ChainConfig
unfolding from_fry new_difficulty
testnet = record {
  network_id = testnet_id;
  chain_id = 2;
  chain_name = "FryChain Testnet";
  token_symbol = "tFRY";
  token_decimals = 18;
  genesis_timestamp = 1704067200;
  initial_difficulty = new_difficulty 0x0000_0fff_ffff_ffff;
  target_block_time = 30;
  difficulty_adjustment_interval = 100;
  initial_block_reward = from_fry 100;
  halving_interval = 100_000;
  max_supply = 1_000_000_000 * units_per_fry;
  genesis_allocations = [];
  precompiles = [];
  post_quantum_only = false;
  depin_enabled = true;
  min_gas_price = 1_000_000;
  block_gas_limit = 50_000_000;
}

unfoldable pub devnet : ChainConfig
unfolding from_fry new_difficulty
devnet = record {
  network_id = devnet_id;
  chain_id = 3;
  chain_name = "FryChain Devnet";
  token_symbol = "dFRY";
  token_decimals = 18;
  genesis_timestamp = 0;
  initial_difficulty = new_difficulty 1;
  target_block_time = 5;
  difficulty_adjustment_interval = 10;
  initial_block_reward = from_fry 1000;
  halving_interval = 1000;
  max_supply = u128_mod - 1;
  genesis_allocations = [];
  precompiles = [];
  post_quantum_only = false;
  depin_enabled = true;
  min_gas_price = 1;
  block_gas_limit = 100_000_000;
}

unfoldable pub add_allocation : ChainConfig → Address → TokenAmount → ChainConfig
add_allocation c a b = record c {
  genesis_allocations =
      c.genesis_allocations
      ++ record { address = a; balance = b; code = none; is_device = false } ∷ [];
}

-- `none` is the panic of a division by an interval of zero.
unfoldable pub block_reward_at_height : ChainConfig → BlockHeight → Option TokenAmount
block_reward_at_height c height =
    if c.halving_interval == 0
    then none
    else let halvings = height / c.halving_interval in
      some (if leb 64 halvings then 0 else c.initial_block_reward / 2 ^ halvings)

unfoldable pub should_adjust_difficulty : ChainConfig → BlockHeight → Option Bool
should_adjust_difficulty c height =
    if height == 0
    then some false
    else if c.difficulty_adjustment_interval == 0
    then none
    else some (height % c.difficulty_adjustment_interval == 0)
