-- ===== src/Vad.antt =====
-- src/audio/vad.c: the voice activity detector, which cuts a stream of samples into utterances. A
-- `float` is a value of a type that is a parameter, with the operations that the file uses of it; the
-- counts of samples are numbers, and `int` sums are taken not to overflow. `vv_alloc` is the parameter
-- `alloc`: whether a request for room for so many samples succeeds.
pub mod Floats
pub mod Detector
pub mod Stream
pub mod Samples
pub mod Queue
pub mod Pieces
pub mod Buffers
pub mod Bounds
mod Runs
