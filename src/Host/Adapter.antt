-- ===== src/Host/Adapter.antt =====
-- crates/host/src/witness/adapter.rs: a witness as one buffer of three length-prefixed chunks.
pub mod RoundTrip
use open_zk.Common.{
  ℕ, ◌+◌, ◌*◌, ◌/◌, ◌%◌, ltb, if◌then◌else◌, Option, none, some, List, [], ◌∷◌, ◌++◌, length, take,
  drop,
}
use open_zk.Common.Maybe.{◌>>=◌}
use open_zk.Common.Words.{u32_mod}
use open_zk.Core.{Bytes}

-- crates/core/src/traits/witness.rs
pub record RawWitness : Type 0 where
  pub boot_info : Bytes
  pub oracle_data : Bytes
  pub blob_data : Bytes

-- `u32::to_le_bytes`
unfoldable pub to_le_bytes : ℕ → Bytes
to_le_bytes n = n % 256 ∷ n / 256 % 256 ∷ n / 65536 % 256 ∷ n / 16777216 % 256 ∷ []

-- `(len as u32).to_le_bytes()`: a length of 2 ^ 32 or more is cut.
unfoldable pub prefix_of : Bytes → Bytes
unfolding to_le_bytes
prefix_of chunk = to_le_bytes (length chunk % u32_mod)

unfoldable pub raw_witness_to_bytes : RawWitness → Bytes
unfolding prefix_of
raw_witness_to_bytes w =
    prefix_of w.boot_info
    ++ w.boot_info
    ++ prefix_of w.oracle_data
    ++ w.oracle_data
    ++ prefix_of w.blob_data
    ++ w.blob_data

-- `u32::from_le_bytes(slice.try_into().ok()?)`, of a slice that may not have four bytes.
unfoldable pub from_le_bytes : Bytes → Option ℕ
from_le_bytes (a ∷ b ∷ c ∷ d ∷ []) = some (a + 256 * b + 65536 * c + 16777216 * d)
from_le_bytes _ = none

-- `data[from..from + len]`, for bounds that were tested.
unfoldable pub slice : Bytes → ℕ → ℕ → Bytes
slice buf from len = take len (drop from buf)

-- The closure `read_chunk`: the chunk, and the offset behind it.
unfoldable pub read_chunk : Bytes → ℕ → Option (Bytes × ℕ)
unfolding from_le_bytes slice
read_chunk buf offset = if ltb (length buf) (offset + 4) then none else (do
  len ← from_le_bytes (slice buf offset 4)
  if ltb (length buf) (offset + 4 + len)
      then none
      else some (slice buf (offset + 4) len, offset + 4 + len))

unfoldable pub bytes_to_raw_witness : Bytes → Option RawWitness
unfolding read_chunk
bytes_to_raw_witness buf = do
  (boot_info, offset) ← read_chunk buf 0
  (oracle_data, offset2) ← read_chunk buf offset
  (blob_data, offset3) ← read_chunk buf offset2
  some (record { boot_info = boot_info; oracle_data = oracle_data; blob_data = blob_data })
