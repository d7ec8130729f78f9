-- ===== src/Ports.antt =====
-- internal/app/ports: the effects of the shell, as types, errors and a monad.
pub mod Vocabulary
pub mod Shell
