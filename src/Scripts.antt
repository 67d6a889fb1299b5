-- ===== src/Scripts.antt =====
-- src/classes/scripts: the calls of the SQL functions and what the library makes of their answers.
-- The SQL functions are parameters.
pub mod Errors
pub mod Keep
pub mod Lifecycle
pub mod Answers
