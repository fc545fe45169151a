-- ===== src/Vm/Types.antt =====
-- crates/frychain-vm/src/types.rs and lib.rs: what the machines share.
use fry_chain.Words.{wrapping_add}
use fry_chain.Core.Hash.{Hash256}
use fry_chain.Core.Amount.{TokenAmount, Gas}
use fry_chain.Core.Address.{Address, address_eq}
use fry_chain.Prelude.{
  ℕ, ◌^◌, String, Bool, true, false, Option, none, some, List, [], ◌∷◌, ltb, leb, if◌then◌else◌,
  length, get_or, take, list_beq, nat_eq, list_eq, string_eq,
}

-- `VMExecutionError`
pub data VmError : Type 0 where
  out_of_gas : ℕ → ℕ → VmError
  invalid_opcode : ℕ → VmError
  stack_overflow stack_underflow : VmError
  invalid_memory_access : ℕ → VmError
  invalid_contract execution_error account_error storage_error revert : String → VmError
  unsupported_vm_type gas_error : String → VmError

pub data ContractType : Type 0 where
  sbf avm pact kaspa native : ContractType

-- `bytecode[0..4] == [...]`
abbrev pub has_magic : List ℕ → List ℕ → Bool
has_magic magic bytecode = list_beq (take 4 bytecode) magic

unfoldable pub from_bytecode : List ℕ → Option ContractType
from_bytecode bytecode =
    if ltb (length bytecode) 4
    then none
    else if has_magic (0x7f ∷ b'E' ∷ b'L' ∷ b'F' ∷ []) bytecode
    then some sbf
    else if has_magic (0x50 ∷ 0x41 ∷ 0x43 ∷ 0x54 ∷ []) bytecode
    then some pact
    else if has_magic (0x4b ∷ 0x41 ∷ 0x53 ∷ 0x50 ∷ []) bytecode
    then some kaspa
    else if leb (get_or bytecode 0 0) 0x0a
    then some avm
    else none

unfoldable pub magic_bytes : ContractType → List ℕ
magic_bytes sbf = 0x7f ∷ b'E' ∷ b'L' ∷ b'F' ∷ []
magic_bytes avm = 0x06 ∷ []
magic_bytes pact = 0x50 ∷ 0x41 ∷ 0x43 ∷ 0x54 ∷ []
magic_bytes kaspa = 0x4b ∷ 0x41 ∷ 0x53 ∷ 0x50 ∷ []
magic_bytes native = 0xff ∷ 0xff ∷ []

pub record VmLog : Type 0 where
  pub address : Address
  pub topics : List Hash256
  pub log_data : List ℕ

pub record ExecutionContext : Type 0 where
  pub caller : Address
  pub address : Address
  pub value : TokenAmount
  pub gas_limit : Gas
  pub depth : ℕ
  pub is_static : Bool
  pub block_height : ℕ
  pub block_timestamp : ℕ
  pub chain_id : ℕ

unfoldable pub new_context : Address → Address → TokenAmount → Gas → ExecutionContext
new_context caller address value gas_limit = record {
  caller = caller;
  address = address;
  value = value;
  gas_limit = gas_limit;
  depth = 0;
  is_static = false;
  block_height = 0;
  block_timestamp = 0;
  chain_id = 1;
}

-- The context of a nested call.
unfoldable pub child : ExecutionContext → Address → TokenAmount → Gas → ExecutionContext
child c address value gas_limit = record c {
  caller = c.address;
  address = address;
  value = value;
  gas_limit = gas_limit;
  depth = wrapping_add (2 ^ 32) c.depth 1;
}

unfoldable pub is_depth_exceeded : ExecutionContext → Bool
is_depth_exceeded c = ltb 1024 c.depth

-- `VMResult`; the state changes of a machine are always empty.
pub record VmResult : Type 0 where
  pub success : Bool
  pub gas_used : Gas
  pub return_data : List ℕ
  pub error : Option VmError
  pub logs : List VmLog

unfoldable pub success_result : Gas → List ℕ → VmResult
success_result gas_used return_data = record {
  success = true;
  gas_used = gas_used;
  return_data = return_data;
  error = none;
  logs = [];
}

unfoldable pub failure_result : Gas → VmError → VmResult
failure_result gas_used error = record {
  success = false;
  gas_used = gas_used;
  return_data = [];
  error = some error;
  logs = [];
}
