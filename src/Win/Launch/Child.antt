-- ===== src/Win/Launch/Child.antt =====
-- catter-hook/win/impl.cc: theorems about the process that run creates.
