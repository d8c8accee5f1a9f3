-- ===== src/Symtable/Linked.antt =====
-- The functions of symtable.c over the nodes that they link, and that they do what the functions
-- on the list of records do.
pub mod Defs
pub mod Chain
pub mod Insert
pub mod Walk
