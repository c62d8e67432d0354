-- ===== src/Exp.antt =====
-- Expression evaluation, src/src/exp.c.
pub mod Operators
pub mod Machine
pub mod Precedence
pub mod Literals
pub mod Scan
