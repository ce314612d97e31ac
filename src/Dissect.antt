-- ===== src/Dissect.antt =====
-- processors/dissect: the tokenizer of `%{key}` patterns. The types and operations are in the children
-- named for the source files; the regular expressions of const.go are written out as functions.
pub mod Delimiter
pub mod KeyParts
pub mod Field
pub mod Parser
pub mod Extract
pub mod Resolve
pub mod Trim
