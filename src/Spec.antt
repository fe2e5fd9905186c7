-- ===== src/Spec.antt =====
-- The system call specifications: packed values, the executable that a program is turned into, and
-- the program itself (script/spec_basis.py, script/spec_pack.py, script/spec_type_int.py).
pub mod Result
pub mod Pack
pub mod Executable
pub mod Blob
pub mod Bytecode
pub mod Int
pub mod Program
pub mod Synopsis
pub mod Inspect
