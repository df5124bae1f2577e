-- ===== src/Tokenizer.antt =====
-- src/text_tokenizer/bpe.c: the byte-level tokenizer. A string is the list of its bytes; a position
-- and what follows it is the rest of the list. An identifier or rank that is -1 is `none`.
pub mod Utf8
pub mod Alphabet
pub mod RoundTrip
pub mod Split
pub mod Pieces
pub mod Bounds
pub mod Merge
pub mod Tiles
pub mod Best
pub mod Words
pub mod Codec
pub mod Decode
pub mod Clean
pub mod Encode
pub mod Sound
pub mod Emit
pub mod Table
pub mod Probe
pub mod Filled
pub mod Lookup
pub mod Load
pub mod Longest
pub mod Names
pub mod Entries
pub mod Loaded
mod Runs
mod Files
