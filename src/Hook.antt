-- ===== src/Hook.antt =====
-- src/catter-hook/linux-mac: the library that is preloaded into every process of the build and
-- turns each exec or spawn into a call of catter-proxy, and the launcher of the proxy (impl.cc).
pub mod Config
pub mod Buffer
pub mod Environment
pub mod Session
pub mod Paths
pub mod Resolver
pub mod Command
pub mod Executor
pub mod Inject
