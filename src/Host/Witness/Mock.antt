-- ===== src/Host/Witness/Mock.antt =====
-- crates/host/src/witness/mock.rs: a witness made of the fields of the request. The text of a hash is
-- a parameter.
use open_zk.Common.{◌++◌, Text, codes, decimal}
use open_zk.Common.Outcome.{Result, ok}
use open_zk.Core.{B256, ProofRequest}
use open_zk.Host.Adapter.{RawWitness}

pub data MockWitnessError : Type 0 where
  mock_witness_error : Text → MockWitnessError

unfoldable pub mock_generate_witness :
    (B256 → Text) → ProofRequest → Result MockWitnessError RawWitness
unfolding decimal
mock_generate_witness display request = ok (record {
  boot_info =
      codes "boot:"
      ++ decimal request.l2_start_block
      ++ codes ":"
      ++ decimal request.l2_end_block
      ++ codes ":"
      ++ display request.l1_head;
  oracle_data =
      codes "oracle:"
      ++ decimal request.l2_start_block
      ++ codes ":"
      ++ decimal request.l2_end_block;
  blob_data = codes "blob:" ++ display request.l1_head;
})
