-- ===== src/Proto/Raw.antt =====
-- packages/agent_proto/src/raw_slice.rs: bytes that are written as they are and are never read.
use playit_ios.Common.{ℕ, List, ◌++◌, length, ◌==◌, if◌then◌else◌}
use playit_ios.Common.Io.{ok, err, write_zero, unsupported}
use playit_ios.Proto.Wire.{MessageEncoding, fail}

-- `out.write` takes every byte and answers how many it took.
unfoldable pub raw_slice : MessageEncoding (List ℕ)
raw_slice = record {
  write_to = λ bytes out.
      (let taken = length bytes in
        if taken == length bytes then ok (length bytes, out ++ bytes) else err write_zero);
  read_from = fail unsupported;
}
