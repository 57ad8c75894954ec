-- ===== src/Tests/Windows.antt =====
-- The hook on Windows, and the paths of the platforms.
use catter.Prelude.{
  ◌⊎◌, ℕ, suc, ◌≡◌, refl, arith, true, false, none, some, List, [], ◌∷◌, ◌++◌, Bytes, codes, length,
  take, All, ltb, if-eq_true, if-eq_false, if◌then◌else◌, ◌-◌,
}
use catter.Rpc.{Command}
use catter.Crossplat.{PathOps, Module, FileName, module_path}
use catter.Crossplat.Whole.{IsModule, module_path-whole}
use catter.Win.Quote.{cmdline_of, has_special}
use catter.Win.Quote.Program.{command_line, IsProgram, cmdline_of-command_line}
use catter.Win.Environment.{
  Block, append_entries, fix_env_block, fix_env_block_helper, rpc_id_entry_of, walk, found_key,
  env_var_rpc_id,
}
use catter.Win.Environment.Fixed.{Sets, SomeSets, IsEntry, fix_env_block_helper-walk}
use catter.Win.Detour.{Process, Call, Target, create_process, get_catter_exe_path, get_rpc_id}
use catter.Win.Detour.Converted.{words, create_process-words}
use catter.Win.Launch.{Windows, Created}

abbrev windows_command : Command
windows_command = record {
  working_dir = codes "C:/w";
  executable = codes "C:/P F/cc";
  args = codes "-DX=\"a b\"" ∷ [] ∷ codes "C:\\x y\\" ∷ [];
  env = [];
}

named : IsProgram (codes "C:/P F/cc")
named = (refl, (refl, (refl, (refl, (refl, (refl, (refl, (refl, (refl, refl)))))))))

cmdline_of-command_line_example :
    command_line (cmdline_of windows_command)
    ≡ codes "C:/P F/cc" ∷ codes "-DX=\"a b\"" ∷ codes "C:\\x y\\" ∷ []
cmdline_of-command_line_example = cmdline_of-command_line windows_command named

abbrev entries : List Bytes
entries = codes "A=1" ∷ codes "B" ∷ []

entries-IsEntry : All IsEntry entries
entries-IsEntry = ((refl, (refl, (refl, (refl, tt)))), ((refl, (refl, tt)), tt))

fix_env_block_helper-walk_example :
    (block : Bytes) × (fix_env_block_helper
        (append_entries entries ++ 0 ∷ [])
        (rpc_id_entry_of (codes "7"))
      ≡ some block)
    × ((SomeSets entries × (walk [] block ≡ some entries))
        ⊎ (All (λ e. ¬ Sets e) entries
            × (walk [] block ≡ some (entries ++ codes "CATTER_RPC_ID=7" ∷ []))))
fix_env_block_helper-walk_example =
    fix_env_block_helper-walk entries (codes "7") [] entries-IsEntry (refl, tt)

abbrev ops : PathOps
ops = record { parent_path = λ path. codes "C:"; append = λ path file. path ++ b'/' ∷ file }

abbrev windows : Windows
windows = record {
  ops = ops;
  root_path = codes "C:";
  with_variable = λ key value. some (append_entries entries ++ 0 ∷ []);
  create = λ line block dll. Created.exited 3;
  message = λ error. codes "error";
}

-- GetModuleFileNameA for a library at `path`.
abbrev module_at : Bytes → Module
module_at path size =
    if ltb (length path) size
    then record { returned = length path; buffer = path; insufficient = false }
    else record { returned = size; buffer = take (size - 1) path; insufficient = true }

module_at-IsModule : (path : Bytes) → IsModule (module_at path) path
module_at-IsModule path = record {
  fits = λ size h. if-eq_true (ltb (length path) size) _ _ (ground arith);
  too_small = λ size h. if-eq_false (ltb (length path) size) _ _ (ground arith);
}

module_path-whole_example :
    module_path (suc (length (codes "C:/x/hook.dll"))) (module_at (codes "C:/x/hook.dll"))
    ≡ some (codes "C:/x/hook.dll")
module_path-whole_example =
    module_path-whole (module_at (codes "C:/x/hook.dll")) (codes "C:/x/hook.dll")
      (module_at-IsModule (codes "C:/x/hook.dll"))
      (
        refl,
        (
          refl,
          (
            refl,
            (refl, (refl, (refl, (refl, (refl, (refl, (refl, (refl, (refl, (refl, tt)))))))))),
          ),
        ),
      )

abbrev hooked : Process
hooked = record { ops = ops; dll = module_at (codes "C:/hook.dll"); variable = λ key. codes "7" }

abbrev call : Call ℕ
call = record {
  application_name = some (codes "C:/P F/cc");
  command_line = some (codes "cc -c");
  unicode = true;
  environment = some (append_entries entries ++ 0 ∷ []);
  rest = 5;
}

hooked_path : get_catter_exe_path 5 hooked ≡ some (codes "C:/catter-proxy.exe")
unfolding get_catter_exe_path catter.Win.Detour.current_path module_path
    catter.Crossplat.module_loop
hooked_path = refl

hooked_id : get_rpc_id hooked ≡ codes "7"
unfolding get_rpc_id
hooked_id = refl

fixed :
    fix_env_block true (codes "7") (some (append_entries entries ++ 0 ∷ []))
    ≡ some (Block.wide (append_entries entries ++ codes "CATTER_RPC_ID=7" ++ 0 ∷ 0 ∷ []))
unfolding fix_env_block fix_env_block_helper walk append_entries catter.Win.Environment.fixed_block
    found_key catter.Win.Environment.is_key_match
fixed = refl

plain_path : has_special (codes "C:/catter-proxy.exe") ≡ false
unfolding has_special
plain_path = refl

plain_id : has_special (codes "7") ≡ false
unfolding has_special
plain_id = refl

create_process-words_example :
    (target : Target ℕ) × (create_process 5 hooked call ≡ some target)
    × (target.application_name ≡ none)
    × (target.environment
        ≡ Block.wide (append_entries entries ++ codes "CATTER_RPC_ID=7" ++ 0 ∷ 0 ∷ []))
    × (target.rest ≡ 5)
    × (command_line target.command_line
        ≡ codes "C:/catter-proxy.exe"
          ∷ codes "-p"
          ∷ codes "7"
          ∷ codes "--"
          ∷ words call.application_name (codes "cc -c"))
create_process-words_example =
    create_process-words 5 hooked call (codes "C:/catter-proxy.exe") [] (codes "cc -c")
      (Block.wide (append_entries entries ++ codes "CATTER_RPC_ID=7" ++ 0 ∷ 0 ∷ [])) b'7'
      hooked_path hooked_id refl fixed plain_path plain_id named
