-- ===== src/Timers.antt =====
-- bundles/notGT/src/extension/timers.ts: the timers as the extension keeps them, and their commands.
-- What a command reads from outside it is an `Env`. A thrown `TimerError` is a result, without its
-- message. The listeners of `onChange` and the log are left out.
pub mod Params
pub mod Settle
pub mod Command
pub mod Stored
