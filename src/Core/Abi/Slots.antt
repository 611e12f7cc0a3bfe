-- ===== src/Core/Abi/Slots.antt =====
-- A concrete codec that keeps the laws: a slot of 32 bytes for each field, numbers big endian and
-- right-aligned, as the layout in contracts/src/OpenZkL2OutputOracle.sol has them. It is not used by
-- the model; it shows that the laws can be kept, and the tests run on it.
use open_zk.Common.{
  ℕ, zero, suc, ◌*◌, ◌≡◌, refl, ◌∙◌, List, [], ◌∷◌, ◌++◌, length, take, drop, All, ◌==◌, ==_refl,
  if◌then◌else◌, arith, Text, codes, length-append, take-append_length, drop-append_length,
}
use open_zk.Common.BigEndian.{be_bytes, be_value, be_value-be_bytes, length-be_bytes}
use open_zk.Common.Outcome.{Result, ok, err}
use open_zk.Common.Words.{IsU64}
use open_zk.Core.Types.{Bytes}
use open_zk.Core.Abi.{
  StateTransitionOutput, BootInfoOutput, IsStateOutput, IsBootOutput, AbiCodec, IsAbi,
}

-- A number as a slot, and a slot as a number.
word : ℕ → Bytes
word n = be_bytes 32 n

slots : List Bytes → Bytes
slots [] = []
slots (s ∷ ss) = s ++ slots ss

unslot : ℕ → Bytes → List Bytes
unslot zero d = []
unslot (suc k) d = take 32 d ∷ unslot k (drop 32 d)

take_first : (n : ℕ) (xs ys : Bytes) → length xs ≡ n → take n (xs ++ ys) ≡ xs
take_first n xs ys e = rw (← e) (take-append_length xs ys)

drop_first : (n : ℕ) (xs ys : Bytes) → length xs ≡ n → drop n (xs ++ ys) ≡ ys
drop_first n xs ys e = rw (← e) (drop-append_length xs ys)

unslot-slots : (ss : List Bytes) → All (λ s. length s ≡ 32) ss → unslot (length ss) (slots ss) ≡ ss
unfolding slots unslot
unslot-slots [] h = refl
unslot-slots (s ∷ ss) h =
    rw (take_first 32 s (slots ss) h.0, drop_first 32 s (slots ss) h.0, unslot-slots ss h.1)

length-slots : (ss : List Bytes) → All (λ s. length s ≡ 32) ss → length (slots ss) ≡ 32 * length ss
unfolding slots
length-slots [] h = refl
length-slots (s ∷ ss) h = omega (arith, length-append s (slots ss), length-slots ss h.1)

word_value : (n : ℕ) → IsU64 n → be_value 0 (word n) ≡ n
unfolding word
word_value n h = be_value-be_bytes 32 n 0 (omega arith) ∙ omega arith

state_slots : StateTransitionOutput → List Bytes
state_slots o =
    o.l1_head
    ∷ o.l2_pre_root
    ∷ o.l2_post_root
    ∷ word o.l2_block_number
    ∷ o.rollup_config_hash
    ∷ o.program_id
    ∷ []

boot_slots : BootInfoOutput → List Bytes
boot_slots o =
    o.l1_head ∷ o.l2_pre_root ∷ o.l2_claim ∷ word o.l2_block_number ∷ o.rollup_config_hash ∷ []

state_of : List Bytes → Result Text StateTransitionOutput
state_of (a ∷ b ∷ c ∷ n ∷ d ∷ e ∷ []) = ok (record {
  l1_head = a;
  l2_pre_root = b;
  l2_post_root = c;
  l2_block_number = be_value 0 n;
  rollup_config_hash = d;
  program_id = e;
})
state_of _ = err (codes "invalid journal")

boot_of : List Bytes → Result Text BootInfoOutput
boot_of (a ∷ b ∷ c ∷ n ∷ d ∷ []) = ok (record {
  l1_head = a;
  l2_pre_root = b;
  l2_claim = c;
  l2_block_number = be_value 0 n;
  rollup_config_hash = d;
})
boot_of _ = err (codes "invalid boot info")

-- Six and five slots, and an error for any other length.
unfoldable pub slot_codec : AbiCodec
unfolding state_slots boot_slots state_of boot_of slots unslot word be_bytes be_value
slot_codec = record {
  encode_state = λ o. slots (state_slots o);
  decode_state =
      λ d. if length d == 192 then state_of (unslot 6 d) else err (codes "invalid journal");
  encode_boot = λ o. slots (boot_slots o);
  decode_boot =
      λ d. if length d == 160 then boot_of (unslot 5 d) else err (codes "invalid boot info");
}

-- Decoding undoes encoding as soon as it does so slot by slot.
slots_round_trip :
    {A : Type 0} (k n : ℕ) (f : List Bytes → Result Text A) (e : Text) (ss : List Bytes) {a : A}
    → All (λ s. length s ≡ 32) ss
    → length ss ≡ k
    → n ≡ 32 * k
    → f ss ≡ ok a
    → (if length (slots ss) == n then f (unslot k (slots ss)) else err e) ≡ ok a
slots_round_trip k n f e ss h len size good =
    let all : length (slots ss) ≡ n = length-slots ss h ∙ omega arith in
    let same : unslot k (slots ss) ≡ ss = rw (← len) (unslot-slots ss h) in
    rw (all, same) (rw (==_refl n) good)

state_slots-lengths :
    (o : StateTransitionOutput) → IsStateOutput o → All (λ s. length s ≡ 32) (state_slots o)
unfolding state_slots word
state_slots-lengths o h = (
  h.l1_head.0,
  (
    h.l2_pre_root.0,
    (
      h.l2_post_root.0,
      (length-be_bytes 32 o.l2_block_number, (h.rollup_config_hash.0, (h.program_id.0, tt))),
    ),
  ),
)

boot_slots-lengths : (o : BootInfoOutput) → IsBootOutput o → All (λ s. length s ≡ 32) (boot_slots o)
unfolding boot_slots word
boot_slots-lengths o h = (
  h.l1_head.0,
  (
    h.l2_pre_root.0,
    (h.l2_claim.0, (length-be_bytes 32 o.l2_block_number, (h.rollup_config_hash.0, tt))),
  ),
)

state_of-state_slots :
    (o : StateTransitionOutput) → IsStateOutput o → state_of (state_slots o) ≡ ok o
unfolding state_of state_slots
state_of-state_slots o h = rw (word_value o.l2_block_number h.l2_block_number)

boot_of-boot_slots : (o : BootInfoOutput) → IsBootOutput o → boot_of (boot_slots o) ≡ ok o
unfolding boot_of boot_slots
boot_of-boot_slots o h = rw (word_value o.l2_block_number h.l2_block_number)

length-state_slots : (o : StateTransitionOutput) → length (state_slots o) ≡ 6
unfolding state_slots
length-state_slots o = refl

length-boot_slots : (o : BootInfoOutput) → length (boot_slots o) ≡ 5
unfolding boot_slots
length-boot_slots o = refl

pub slot_codec-IsAbi : IsAbi slot_codec
unfolding slot_codec
slot_codec-IsAbi = record {
  decode-encode_state = λ o h.
      slots_round_trip 6 192 state_of _ (state_slots o) (state_slots-lengths o h)
        (length-state_slots o) refl (state_of-state_slots o h);
  length-encode_state = λ o h. length-slots (state_slots o) (state_slots-lengths o h) ∙ omega arith;
  decode-encode_boot = λ o h.
      slots_round_trip 5 160 boot_of _ (boot_slots o) (boot_slots-lengths o h) (length-boot_slots o)
        refl (boot_of-boot_slots o h);
  length-encode_boot = λ o h. length-slots (boot_slots o) (boot_slots-lengths o h) ∙ omega arith;
}
