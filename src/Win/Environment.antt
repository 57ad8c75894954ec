-- ===== src/Win/Environment.antt =====
-- catter-hook/win/env.h and payload/main.cc: the environment block of a new process. char and wchar_t
-- have the same code: a character is a number here, and a block the characters of the memory.
pub mod Fixed
use catter.Prelude.{
  ℕ, ◌+◌, Bool, true, false, not, Option, none, some, List, [], ◌∷◌, ◌++◌, ◌&&◌, ◌||◌, ◌==◌, Bytes,
  codes, bytes_eq, length, take, get_or, leb, if◌then◌else◌, map, is_empty,
}

-- ENV_VAR_RPC_ID
abbrev pub env_var_rpc_id : Bytes
env_var_rpc_id = codes "CATTER_RPC_ID"

-- EXE_NAME, DLL_NAME
abbrev pub exe_name : Bytes
exe_name = codes "catter-proxy.exe"

abbrev pub dll_name : Bytes
dll_name = codes "catter-hook-win64.dll"

unfoldable pub is_key_match : Bytes → Bytes → Bool
is_key_match entry target_key =
    if leb (length entry) (length target_key)
    then false
    else if not (get_or entry (length target_key) 0 == b'=')
    then false
    else bytes_eq (take (length target_key) entry) target_key

-- The walk over a block: its strings, up to an empty one; `cur` is what is read of one. Nothing
-- where the memory ends before.
abbrev pub cons_entry : Bytes → Option (List Bytes) → Option (List Bytes)
cons_entry s none = none
cons_entry s (some entries) = some (s ∷ entries)

unfoldable pub walk : Bytes → Bytes → Option (List Bytes)
walk cur [] = none
walk cur (c ∷ memory) =
    let end = (if is_empty cur then some [] else cons_entry cur (walk [] memory)) in
    let more = walk (cur ++ c ∷ []) memory in if c == 0 then end else more

-- Each entry with its 0, one behind the other.
unfoldable pub append_entries : List Bytes → Bytes
append_entries [] = []
append_entries (entry ∷ entries) = entry ++ 0 ∷ append_entries entries

unfoldable pub found_key : List Bytes → Bool
found_key [] = false
found_key (entry ∷ entries) = is_key_match entry env_var_rpc_id || found_key entries

-- What fix_env_block_helper returns for a block of these entries.
unfoldable pub fixed_block : List Bytes → Bytes → Bytes
fixed_block entries rpc_id_entry =
    append_entries entries ++ ((if found_key entries then [] else rpc_id_entry ++ 0 ∷ []) ++ 0 ∷ [])

abbrev pub fix_entries : Bytes → Option (List Bytes) → Option Bytes
fix_entries rpc_id_entry none = none
fix_entries rpc_id_entry (some entries) = some (fixed_block entries rpc_id_entry)

unfoldable pub fix_env_block_helper : Bytes → Bytes → Option Bytes
fix_env_block_helper env_block rpc_id_entry = fix_entries rpc_id_entry (walk [] env_block)

-- The result of fix_env_block: no block, or one of char or of wchar_t.
pub data Block : Type 0 where
  null : Block
  narrow : Bytes → Block
  wide : Bytes → Block

-- `std::format("{}={}", ENV_VAR_RPC_ID, get_rpc_id())`
abbrev pub rpc_id_entry_of : Bytes → Bytes
rpc_id_entry_of rpc_id = env_var_rpc_id ++ b'=' ∷ rpc_id

abbrev as_block : (Bytes → Block) → Option Bytes → Option Block
as_block make none = none
as_block make (some block) = some (make block)

-- Whether dwCreationFlags has CREATE_UNICODE_ENVIRONMENT is `unicode`.
unfoldable pub fix_env_block : Bool → Bytes → Option Bytes → Option Block
fix_env_block unicode rpc_id none = some null
fix_env_block unicode rpc_id (some env_block) =
    if unicode
    then as_block wide (fix_env_block_helper env_block (rpc_id_entry_of rpc_id))
    else as_block narrow (fix_env_block_helper env_block (rpc_id_entry_of rpc_id))
