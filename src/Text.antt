-- ===== src/Text.antt =====
-- sharelib/ComFun.cpp: the functions on texts, one module for each family. The fixed buffers of
-- the source are large enough for the texts that reach them.
pub mod Flag
pub mod Trim
pub mod Replace
pub mod Words
pub mod FilePath
pub mod Ip
pub mod Path
pub mod EqualFile
