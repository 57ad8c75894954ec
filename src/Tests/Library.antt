-- ===== src/Tests/Library.antt =====
-- The hook library, and the environment that catter-proxy gives it.
use catter.Prelude.{◌≡◌, refl, true, false, none, some, List, [], ◌∷◌, ◌++◌, Bytes, codes, arith}
use catter.Decimal.{to_string}
use catter.Launch.{child_env}
use catter.Launch.Environment.{child_env-id, child_env-proxy_path, child_env-outer_id}
use catter.Proxy.{set_mark}
use catter.Hook.Config.{key_catter_command_id, key_catter_proxy_path}
use catter.Hook.Buffer.{Memory, Buffer, store, push}
use catter.Hook.Buffer.Store.{Stored, store_fits, Refused, store_overflows, Pushed, push-Pushed}
use catter.Hook.Environment.{get_env_value, get_env_entry}
use catter.Hook.Environment.Lookup.{entry, Found, get_env-Found}
use catter.Hook.Session.{Session, Persisted, persist}
use catter.Hook.Session.Persist.{full, Keeps, persist-Keeps}
use catter.Hook.Paths.{entries}
use catter.Hook.Paths.Fields.{fields, entries-fields}
use catter.Hook.Resolver.{found, failed, from_search_path}
use catter.Hook.Resolver.Search.{Answer, from_search_path-Answer}
use catter.Hook.Command.{make, proxy_str}
use catter.Hook.Command.Proxy.{prefix_of, ProxyCommand, proxy_command}
use catter.Hook.Executor.{intercept, code}
use catter.Hook.Executor.Intercept.{
  Runs, session_of, intercept-Runs, intercept-failed, NeverProxy, intercept-NeverProxy,
}
use catter.Hook.Inject.{
  array, in_proxy, hook_execl, hook_execlp, hook_execle, hook_execve, hook_execvpe,
}
use catter.Hook.Inject.Variadic.{va_args, execl-execve}
use catter.Hook.Inject.Mark.{in_proxy-child_env}
use catter.Tests.{files, environment}

abbrev proxy_path : Bytes
proxy_path = codes "/opt/catter/catter-proxy"

abbrev lib_path : Bytes
lib_path = codes "/opt/catter/libcatter-hook-unix.so"

abbrev args : List Bytes
args = codes "-c" ∷ codes "x.c" ∷ []

intercept-Runs_example :
    Runs (prefix_of proxy_path (codes "7") ++ codes "--" ∷ codes "/bin/cc" ∷ args) (
      intercept true
        (λ f. found (codes "/bin/cc"))
        (session_of proxy_path (codes "7") none none)
        (some (codes "cc"))
        (codes "cc" ∷ args))
intercept-Runs_example =
    intercept-Runs proxy_path (codes "7") none none (λ f. found (codes "/bin/cc")) (codes "cc")
      (codes "/bin/cc") (codes "cc") args refl (omega arith) (omega arith)

intercept-failed_example :
    intercept true
      (λ f. failed 2)
      (session_of proxy_path (codes "7") none none)
      (some (codes "cc"))
      (codes "cc" ∷ args)
    ≡ code 2
intercept-failed_example =
    intercept-failed proxy_path (codes "7") none none true (λ f. failed 2) (codes "cc")
      (codes "cc" ∷ args) 2 refl (omega arith)

abbrev lost : Session
lost = record {
  proxy_path = none;
  self_id = some (codes "7");
  proxy_path_entry = none;
  command_id_entry = none;
}

intercept-NeverProxy_example :
    NeverProxy
      (intercept true (λ f. found (codes "/bin/cc")) lost (some (codes "cc")) (codes "cc" ∷ args))
intercept-NeverProxy_example =
    intercept-NeverProxy true (λ f. found (codes "/bin/cc")) lost (some (codes "cc"))
      (codes "cc" ∷ args) refl

proxy_command_example :
    ProxyCommand
      (make (some proxy_path) (some (codes "7")))
      (prefix_of proxy_path (codes "7") ++ codes "--" ∷ codes "/bin/cc" ∷ args)
      (proxy_str (make (some proxy_path) (some (codes "7"))) (codes "/bin/cc") (codes "cc" ∷ args))
proxy_command_example =
    proxy_command proxy_path (codes "7") (codes "/bin/cc") (codes "cc") args (omega arith)
      (omega arith)

from_search_path-Answer_example :
    Answer files
      (codes "cc")
      (fields (codes "/bin::/usr/bin"))
      (from_search_path files (codes "cc") (codes "/bin::/usr/bin"))
unfolding catter.Hook.Resolver.contains_dir_separator
from_search_path-Answer_example =
    from_search_path-Answer files (codes "cc") (codes "/bin::/usr/bin") refl

entries-fields_example : entries (codes ":/bin::") ≡ fields (codes ":/bin::")
entries-fields_example = entries-fields (codes ":/bin::")

get_env-Found_example :
    Found
      (codes "A")
      (codes "AB=1" ∷ codes "A=2" ∷ [])
      (get_env_entry (codes "AB=1" ∷ codes "A=2" ∷ []) (codes "A"))
      (get_env_value (codes "AB=1" ∷ codes "A=2" ∷ []) (codes "A"))
get_env-Found_example =
    get_env-Found (codes "AB=1" ∷ codes "A=2" ∷ []) (codes "A") (omega arith, tt)

child_env-id_example :
    get_env_value (child_env lib_path proxy_path environment 7) key_catter_command_id
    ≡ some (to_string 7)
unfolding catter.Hook.Environment.is_entry catter.Hook.Environment.equal_n
child_env-id_example = child_env-id lib_path proxy_path environment 7 (refl, tt)

child_env-proxy_path_example :
    get_env_value (child_env lib_path proxy_path environment 7) key_catter_proxy_path
    ≡ some proxy_path
unfolding catter.Hook.Environment.is_entry catter.Hook.Environment.equal_n
child_env-proxy_path_example = child_env-proxy_path lib_path proxy_path environment 7 (refl, tt)

child_env-outer_id_example :
    get_env_value
      (child_env lib_path proxy_path
        (environment ++ entry key_catter_command_id (codes "3") ∷ [])
        7)
      key_catter_command_id
    ≡ some (codes "3")
unfolding catter.Hook.Environment.is_entry catter.Hook.Environment.equal_n
child_env-outer_id_example =
    child_env-outer_id lib_path proxy_path environment [] (codes "3") 7 (refl, tt)

in_proxy-child_env_example :
    (in_proxy (set_mark environment) ≡ true)
    × (in_proxy (child_env lib_path proxy_path (set_mark environment) 7) ≡ false)
in_proxy-child_env_example =
    in_proxy-child_env environment (set_mark environment) lib_path proxy_path 7

execl-execve_example :
    (hook_execl files none true lost environment
        (codes "/bin/cc")
        (codes "cc")
        (va_args args (array [] ∷ []))
      ≡ some (
          hook_execve files none true lost environment
            (some (codes "/bin/cc"))
            (codes "/bin/cc" ∷ args)
            environment))
    × (hook_execlp files none true lost environment
          (codes "/bin/cc")
          (codes "cc")
          (va_args args (array [] ∷ []))
        ≡ some (
            hook_execvpe files none true lost environment
              (some (codes "/bin/cc"))
              (codes "/bin/cc" ∷ args)
              environment))
    × (hook_execle files none true lost environment
          (codes "/bin/cc")
          (codes "cc")
          (va_args args (array [] ∷ array [] ∷ []))
        ≡ some (
            hook_execve files none true lost environment
              (some (codes "/bin/cc"))
              (codes "/bin/cc" ∷ args)
              []))
execl-execve_example =
    execl-execve files none true lost environment (codes "/bin/cc") (codes "cc") args []
      (array [] ∷ [])

abbrev zeros : Memory
zeros a = 0

persist-Keeps_example :
    (p : Persisted) × (persist (full proxy_path (codes "7") (codes "P=1") (codes "I=7")) zeros 0 100
      ≡ some p)
    × Keeps p proxy_path (codes "7") (codes "P=1") (codes "I=7")
persist-Keeps_example =
    persist-Keeps zeros 0 100 proxy_path (codes "7") (codes "P=1") (codes "I=7") (omega arith)

abbrev small : Buffer
small = record { memory = zeros; top = 2; last = 6 }

store_fits_example :
    Stored small
      (store small (some (codes "abc"))).0
      (store small (some (codes "abc"))).1
      (codes "abc")
store_fits_example = store_fits small (codes "abc") (omega arith)

store_overflows_example :
    ((store small (some (codes "abcd"))).1 ≡ none)
    × Refused small (store small (some (codes "abcd"))).0
store_overflows_example = store_overflows small (codes "abcd") (omega arith) (omega arith)

push-Pushed_example : Pushed small (push small (some (codes "abcde"))).0
push-Pushed_example = push-Pushed small (some (codes "abcde")) (omega arith)
