-- ===== src/Host/Prover/RiscZero/Identifier.antt =====
-- The identifier of a RISC Zero program as a hash.
use open_zk.Common.{ℕ, ◌+◌, ◌*◌, ◌<◌, ◌≡◌, refl, List, [], ◌∷◌, All, length, arith}
use open_zk.Common.Words.{u32_mod}
use open_zk.Core.{Bytes, IsByte, IsB256}
use open_zk.Host.Adapter.{to_le_bytes}
use open_zk.Host.Prover.RiscZero.{image_id_to_bytes}

-- The words that bytes stand for, four bytes each.
abbrev pub words_of : Bytes → List ℕ
words_of (a ∷ b ∷ c ∷ d ∷ rest) = (a + 256 * b + 65536 * c + 16777216 * d) ∷ words_of rest
words_of _ = []

length-image_id_to_bytes : (id : List ℕ) → length (image_id_to_bytes id) ≡ 4 * length id
unfolding image_id_to_bytes to_le_bytes
length-image_id_to_bytes [] = refl
length-image_id_to_bytes (word ∷ words) = omega (arith, length-image_id_to_bytes words)

image_id_to_bytes-IsByte : (id : List ℕ) → All IsByte (image_id_to_bytes id)
unfolding image_id_to_bytes to_le_bytes
image_id_to_bytes-IsByte [] = tt
image_id_to_bytes-IsByte (word ∷ words) =
    (omega arith, (omega arith, (omega arith, (omega arith, image_id_to_bytes-IsByte words))))

cons2 : {a b : ℕ} {s t : List ℕ} → a ≡ b → s ≡ t → Path (List ℕ) (a ∷ s) (b ∷ t)
cons2 e f = cc

words_of-image_id_to_bytes :
    (id : List ℕ) → All (λ word. word < u32_mod) id → words_of (image_id_to_bytes id) ≡ id
unfolding image_id_to_bytes to_le_bytes
words_of-image_id_to_bytes [] small = refl
words_of-image_id_to_bytes (word ∷ words) (fits, small) =
    cons2 (omega arith) (words_of-image_id_to_bytes words small)

-- An identifier of eight words below 2 ^ 32 becomes a hash of 32 bytes, and the words can be read
-- back from it, so that different identifiers have different hashes.
pub image_id_to_bytes-IsB256 :
    (id : List ℕ)
    → length id ≡ 8
    → All (λ word. word < u32_mod) id
    → IsB256 (image_id_to_bytes id) × (words_of (image_id_to_bytes id) ≡ id)
image_id_to_bytes-IsB256 id eight small = (
  (omega (arith, length-image_id_to_bytes id), image_id_to_bytes-IsByte id),
  words_of-image_id_to_bytes id small,
)
