-- ===== src/Orchestrator/RpcMonitor/Answers.antt =====
-- What the monitor makes of the nodes' answers, where they are ABI words.
use open_zk.Common.{
  ℕ, ◌==◌, ◌≡◌, if◌then◌else◌, Option, none, some, [], ◌∷◌, ◌++◌, replicate, ap, ◌∙◌, arith,
}
use open_zk.Common.BigEndian.{be_bytes, be_value-be_bytes}
use open_zk.Common.Words.{IsU64}
use open_zk.Common.Outcome.{ok}
use open_zk.Core.{Bytes, B256}
use open_zk.Orchestrator.RpcMonitor.{
  RpcChainMonitor, Nodes, word_u64, proven_block, is_true_word, get_state, reported, check_block,
  check_dispute, active_dispute,
}

-- A `uint64`, and a `bool` given as a number, as ABI words: right-aligned in 32 bytes.
abbrev pub uint64_word : ℕ → Bytes
uint64_word n = replicate 24 0 ++ be_bytes 8 n

abbrev pub bool_word : ℕ → Bytes
bool_word b = replicate 31 0 ++ b ∷ []

word_u64-word : (n : ℕ) → IsU64 n → word_u64 (uint64_word n) ≡ n
unfolding word_u64 be_bytes
word_u64-word n h = be_value-be_bytes 8 n 0 h ∙ omega arith

proven_block-word : (n : ℕ) → IsU64 n → proven_block (uint64_word n) ≡ n
unfolding proven_block be_bytes
proven_block-word n h = word_u64-word n h

-- Where the L1 node knows its finalized block, the L2 node its safe block, and the oracle contract
-- answers with a `uint64`, the state that the monitor gives has these three, with the clock's time.
pub get_state-answers :
    {W : Type 0} (nodes : Nodes W) (self : RpcChainMonitor) (w w1 w2 w3 : W) (head : B256)
    (number safe proven : ℕ)
    → nodes.finalized w ≡ (ok (some (head, number)), w1)
    → nodes.safe w1 ≡ (ok (some safe), w2)
    → nodes.call self.oracle_address nodes.latest_block_number_call w2
      ≡ (ok (uint64_word proven), w3)
    → IsU64 proven
    → get_state nodes self w ≡ (
      ok (record {
        l1_head = head;
        l1_block_number = number;
        l2_proven_block = proven;
        l2_safe_block = safe;
        timestamp = nodes.now w3;
      }),
      w3,
    )
unfolding get_state
get_state-answers nodes self w w1 w2 w3 head number safe proven e1 e2 e3 fits =
    rw (e1, e2, e3, proven_block-word proven fits)

-- Where a dispute contract is configured, the oracle answers with a `uint64` and that contract with a
-- word, the monitor reports the oracle's latest block alone as disputed if the word is 1, and no
-- dispute if its last byte is another and the others are 0.
pub active_dispute-answers :
    {W : Type 0} (nodes : Nodes W) (self : RpcChainMonitor) (w w1 w2 : W) (address : Bytes)
    (latest answer : ℕ)
    → self.dispute_address ≡ some address
    → nodes.call self.oracle_address nodes.latest_block_number_call w
      ≡ (ok (uint64_word latest), w1)
    → nodes.call address (nodes.is_disputed_call latest) w1 ≡ (ok (bool_word answer), w2)
    → IsU64 latest
    → active_dispute nodes self w ≡ (
      (if answer == 1 then some (record { start_block = latest; end_block = latest }) else none),
      w2,
    )
unfolding active_dispute check_dispute check_block reported is_true_word be_bytes
active_dispute-answers nodes self w w1 w2 address latest answer configured e1 e2 fits =
    ap (λ (a : Option Bytes). check_dispute nodes a self w) configured
    ∙ ap (check_block nodes address) e1
    ∙ ap (λ (n : ℕ). reported nodes n (nodes.call address (nodes.is_disputed_call n) w1))
        (word_u64-word latest fits)
    ∙ ap (reported nodes latest) e2
