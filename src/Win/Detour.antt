-- ===== src/Win/Detour.antt =====
-- catter-hook/win/payload/main.cc: the replaced CreateProcess functions, and the loading of the hook.
-- The functions of Windows and of Detours are parameters.
pub mod Converted
use catter.Prelude.{Bool, true, false, Option, none, some, List, [], ◌∷◌, ◌++◌, ℕ, Bytes, codes}
use catter.Crossplat.{PathOps, Module, module_path}
use catter.Win.Environment.{Block, fix_env_block, env_var_rpc_id, exe_name}

-- What the hooked process has: the file name of the hook's library, and what the buffer of 64
-- characters of get_rpc_id reads as after GetEnvironmentVariable.
pub record Process : Type 0 where
  pub ops : PathOps
  pub dll : Module
  pub variable : Bytes → Bytes

-- current_path and get_catter_exe_path, on the fuel of the loop over the buffer's sizes
unfoldable pub current_path : ℕ → Process → Option Bytes
current_path fuel p = elim (module_path fuel p.dll) [
  | none ↦ none
  | some path ↦ some (p.ops.parent_path path)
]

unfoldable pub get_catter_exe_path : ℕ → Process → Option Bytes
get_catter_exe_path fuel p = elim (current_path fuel p) [
  | none ↦ none
  | some path ↦ some (p.ops.append path exe_name)
]

unfoldable pub get_rpc_id : Process → Bytes
get_rpc_id p = p.variable env_var_rpc_id

-- Nothing where command_line is null: a string is built or formatted from nullptr.
unfoldable pub concat_cmdline : Option Bytes → Option Bytes → Option Bytes
concat_cmdline application_name none = none
concat_cmdline none (some command_line) = some command_line
concat_cmdline (some application_name) (some command_line) =
    some ((b'"' ∷ application_name) ++ b'"' ∷ b' ' ∷ command_line)

-- `std::format("{} -p {} -- {}", ...)`
unfoldable pub converted_cmdline : Bytes → Bytes → Bytes → Bytes
converted_cmdline exe_path rpc_id cmdline =
    exe_path ++ (codes " -p " ++ (rpc_id ++ (codes " -- " ++ cmdline)))

-- The arguments of a CreateProcess that the hook reads or changes, null ones included; `rest` stands
-- for the others.
pub record Call (Rest : Type 0) : Type 0 where
  pub application_name : Option Bytes
  pub command_line : Option Bytes
  pub unicode : Bool
  pub environment : Option Bytes
  pub rest : Rest

-- What target is called with.
pub record Target (Rest : Type 0) : Type 0 where
  pub application_name : Option Bytes
  pub command_line : Bytes
  pub unicode : Bool
  pub environment : Block
  pub rest : Rest

module _ {Rest : Type 0} where
  abbrev pub call_target : Call Rest → Bytes → Bytes → Block → Bytes → Target Rest
  call_target c exe_path rpc_id fixed_env cmdline = record {
    application_name = none;
    command_line = converted_cmdline exe_path rpc_id cmdline;
    unicode = c.unicode;
    environment = fixed_env;
    rest = c.rest;
  }

  -- CreateProcessA::detour and CreateProcessW::detour; nothing where a block
  -- has no end or the command line is null.
  unfoldable pub create_process : ℕ → Process → Call Rest → Option (Target Rest)
  create_process fuel p c = elim (fix_env_block c.unicode (get_rpc_id p) c.environment) [
    | none ↦ none
    | some fixed_env ↦ elim (get_catter_exe_path fuel p) [
      | none ↦ none
      | some exe_path ↦ elim (concat_cmdline c.application_name c.command_line) [
        | none ↦ none
        | some cmdline ↦ some (call_target c exe_path (get_rpc_id p) fixed_env cmdline)
      ]
    ]
  ]

-- CreateProcessAsUserA::detour and CreateProcessAsUserW::detour pass all their arguments on.
unfoldable create_process_as_user : {Args Result : Type 0} → (Args → Result) → Args → Result
create_process_as_user target args = target args

-- fn(): the functions that are replaced, in order.
pub data Hooked : Type 0 where
  create_process_a create_process_w create_process_as_user_a create_process_as_user_w : Hooked

abbrev fn : List Hooked
fn = create_process_a ∷ create_process_w ∷ create_process_as_user_a ∷ create_process_as_user_w ∷ []

-- The calls of Detours that DllMain makes.
pub data Detours : Type 0 where
  restore_after_with transaction_begin update_thread transaction_commit : Detours
  detour_attach : Hooked → Detours
  detour_detach : Hooked → Detours

unfoldable attach : List Hooked → List Detours
attach [] = []
attach (m ∷ fn) = detour_attach m ∷ attach fn

unfoldable detach : List Hooked → List Detours
detach [] = []
detach (m ∷ fn) = detour_detach m ∷ detach fn

pub data Reason : Type 0 where
  process_attach process_detach other_reason : Reason

-- DllMain: the calls, and whether dll_instance is set; it returns TRUE always.
unfoldable dll_main : Bool → Reason → List Detours × Bool
dll_main true reason = ([], false)
dll_main false process_attach = (
  restore_after_with ∷ transaction_begin ∷ update_thread ∷ (attach fn ++ transaction_commit ∷ []),
  true,
)
dll_main false process_detach =
    (transaction_begin ∷ update_thread ∷ (detach fn ++ transaction_commit ∷ []), false)
dll_main false other_reason = ([], false)
