-- ===== src/Bitmask/Confined.antt =====
-- No operation reads or writes memory behind a buffer: with other bytes behind the buffers, it does
-- the same to them and leaves these bytes as they were.
use jleaker.Common.{ℕ, List, ◌++◌}
use jleaker.Bitmask.Defs.{BitmaskSet}

-- The set with more memory behind its buffer.
abbrev pub beside : BitmaskSet → List ℕ → BitmaskSet
beside s rest = record s { bytes = s.bytes ++ rest }
