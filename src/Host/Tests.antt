-- ===== src/Host/Tests.antt =====
-- A witness of sixteen and twelve bytes, as in the repository's own test, and a buffer cut short.
use open_zk.Common.{◌≡◌, ◌↔◌, refl, none, [], ◌∷◌, ◌++◌, codes, arith}
use open_zk.Core.{Bytes}
use open_zk.Host.Adapter.{
  RawWitness, to_le_bytes, prefix_of, raw_witness_to_bytes, bytes_to_raw_witness, slice,
  from_le_bytes,
}
use open_zk.Common.{some}
use open_zk.Host.Pricing.{p75, parse, to_lowercase, field_name}
use open_zk.Host.Pricing.Percentiles.{parse-field_name}
use open_zk.Host.Adapter.RoundTrip.{IsSized, bytes_to_raw_witness_iff}

abbrev sample : RawWitness
sample = record {
  boot_info = [];
  oracle_data = codes "oracle-preimages";
  blob_data = codes "blob-sidecar";
}

truncated : bytes_to_raw_witness (5 ∷ 0 ∷ 0 ∷ 0 ∷ []) ≡ none
unfolding bytes_to_raw_witness slice from_le_bytes
truncated = refl

abbrev buffer : Bytes
buffer = 1 ∷ 0 ∷ 0 ∷ 0 ∷ 9 ∷ 2 ∷ 0 ∷ 0 ∷ 0 ∷ 7 ∷ 8 ∷ 0 ∷ 0 ∷ 0 ∷ 0 ∷ 33 ∷ []

abbrev read : RawWitness
read = record { boot_info = 9 ∷ []; oracle_data = 7 ∷ 8 ∷ []; blob_data = [] }

bytes_to_raw_witness_iff_example :
    (bytes_to_raw_witness buffer ≡ some read)
    ↔ (IsSized read × ((rest : Bytes) × (buffer ≡ raw_witness_to_bytes read ++ rest)))
bytes_to_raw_witness_iff_example = bytes_to_raw_witness_iff read buffer (ground arith)

sample-read : bytes_to_raw_witness (raw_witness_to_bytes sample) ≡ some sample
unfolding bytes_to_raw_witness raw_witness_to_bytes slice from_le_bytes prefix_of to_le_bytes
sample-read = refl

parse-field_name_example :
    (parse (codes "P75") ≡ some p75) ↔ (to_lowercase (codes "P75") ≡ field_name p75)
parse-field_name_example = parse-field_name (codes "P75") p75
