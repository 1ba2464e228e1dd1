-- ===== src/Archiver/Tests.antt =====
-- Tests of the package archiver, and its theorems at concrete inputs.
mod Data
mod Selected
mod Answered
mod Bookkeeping
mod Streams
