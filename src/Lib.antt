-- ===== src/Lib.antt =====
-- A verification library of catter's C++ code (src/ of the repository): a compiler's commands are
-- intercepted in every process below `catter -- command...`, each is reported to the server in catter,
-- and is run with the hook library preloaded.
--
-- How the parts work together. catter (catter/main.cc) listens on a pipe and starts catter-proxy.
-- catter-proxy (catter-proxy/) asks for an id, sends its command, gets a decision and runs the command
-- with the hook library (catter-hook/linux-mac/payload) in LD_PRELOAD and its own path and id in the
-- environment (catter-hook/linux-mac/impl.cc). The hook replaces each exec and spawn by a call of
-- catter-proxy with the command behind "--", and so on down.
--
-- Which file models which part:
--   Serde, Serde/Readers     common/util/serde.h; class Read of common/uv/uv.h
--   Rpc                      common/uv/rpc_data.h
--   Spawn                    uv::async::spawn of common/uv/uv.h
--   Server, Server/Main      accept, loop and main of catter/main.cc
--   Proxy                    catter-proxy/rpc_handler.h, constructor.cc and main.cc
--   Launch                   catter-hook/linux-mac/impl.cc
--   Hook/Config              catter-hook/linux-mac/config.h
--   Hook/Buffer              payload/buffer.cc and array::copy of payload/array.h
--   Hook/Environment         payload/environment.cc
--   Hook/Session             payload/session.cc
--   Hook/Paths, Hook/Resolver  payload/paths.h and payload/resolver.cc
--   Hook/Command             payload/command.cc: CmdBuilder
--   Hook/Executor            payload/executor.cc and payload/linker.cc
--   Hook/Inject              payload/inject/lib.cc
--   Opt                      common/option: Opt/Info, Opt/Table (opt_table.h), Opt/Argument
--                            (parsed_arg.h), Opt/Accept (option.cc), and of opt_table.cc Opt/Text,
--                            Opt/Match, Opt/ParseOne (one argument) and Opt/Parse (the loop)
--   Opt/Tables               common/opt-data: the tables of catter and of catter-proxy
--   Crossplat                common/util/crossplat.cc
--   Win/Quote, Win/Launch    catter-hook/win/impl.cc
--   Win/Environment, Win/Detour  catter-hook/win/env.h and payload/main.cc
--   Core/Files               catter/core/capi/io.cc: the files of a script
--   Decimal                  std::format, std::to_string and std::stoi of the ids
-- The modules below these hold theorems. Prelude holds the shared names, Boolean tests and lists;
-- Tests the runs on concrete inputs.
--
-- How state is modelled. A C string is a list of bytes without its 0; the static buffers are functions
-- from addresses to bytes, so that stores which overwrite each other are seen. A reader is a function
-- from a length and the rest of the stream to bytes and what is left, or nothing where it throws. The
-- server's connection and the client's handler are records that the operations pass on; the n-th write
-- succeeds if a parameter says so, and a parameter says what a read that fails throws. An exception is a result with its what(). int and int32_t values
-- are 32-bit patterns. In the option parser a call that fails an assert, throws, or leaves the code's
-- defined behaviour is a fault; an Option is its Info, and the index is an unsigned that a call
-- returns. A block of Windows is the characters of the memory from its start.
--
-- Bounds and fuel. The loop of the server runs on one round more than the client has sent bytes, and
-- each round takes a byte. The awaiter Read runs on one callback more than bytes are asked for, and
-- each callback takes a byte or ends the read. The iteration over a search path runs on one step more than its length.
-- The decimal digits of an int are ten at most. The loop of the option parser runs on one round more
-- than argv has bytes and arguments, since each round takes an argument or a letter of a group; the
-- binary search over the options on their number; and the loop over the sizes of a buffer for a path
-- on one round more than the path has bytes.
--
-- Parameters stand for code outside the repository: libuv, the file system, std::filesystem::path,
-- std::fstream, confstr, popen, posix_spawn, waitpid, readlink, the functions of Windows and Detours,
-- and the functions that dlsym finds.
--
-- Not modelled: Option::print and Option::matches, which nothing calls, and the help texts; the rest
-- of the JavaScript engine (catter/core), which binds QuickJS and std::filesystem; coroutines
-- (common/util/lazy.h), logging and console output, the callbacks of libuv other than those of Read,
-- on_load and on_unload of the hook library, which put the addresses of the persisted strings into its
-- static session, and the macOS branches of the hook.
pub mod Prelude
pub mod Decimal
pub mod Spawn
pub mod Serde
pub mod Rpc
pub mod Hook
pub mod Server
pub mod Launch
pub mod Proxy
pub mod Opt
pub mod Crossplat
pub mod Win
pub mod Core
mod Tests
