-- ===== src/Host/Adapter/RoundTrip.antt =====
-- Which buffers `bytes_to_raw_witness` of crates/host/src/witness/adapter.rs reads, and as what.
use open_zk.Common.{
  ℕ, ◌+◌, ◌-◌, ◌*◌, ◌≤◌, ◌<◌, ◌≡◌, ◌↔◌, refl, sym, ap, subst, ◌∙◌, false, ltb, some, [], ◌∷◌, ◌++◌,
  length, take, drop, All, All-drop, All-take, arith, length-drop, length-take, length-append,
  drop-drop, take-append-drop, take-append_length, drop-append_length, append_assoc,
}
use open_zk.Common.Maybe.{>>=-eq-some, guarded_some, some_inj}
use open_zk.Common.Words.{u32_mod}
use open_zk.Core.{Bytes, IsByte}
use open_zk.Host.Adapter.{
  RawWitness, to_le_bytes, prefix_of, raw_witness_to_bytes, from_le_bytes, slice, read_chunk,
  bytes_to_raw_witness,
}

from_le_bytes-prefix_of :
    (chunk : Bytes) → length chunk < u32_mod → from_le_bytes (prefix_of chunk) ≡ some (length chunk)
unfolding from_le_bytes prefix_of
from_le_bytes-prefix_of chunk h = ap some (omega arith)

cons4 :
    {a b c d a2 b2 c2 d2 : ℕ}
    → a ≡ a2
    → b ≡ b2
    → c ≡ c2
    → d ≡ d2
    → Path Bytes (a ∷ b ∷ c ∷ d ∷ []) (a2 ∷ b2 ∷ c2 ∷ d2 ∷ [])
cons4 e f g h = cc

from_le_bytes-some :
    (s : Bytes) (n : ℕ)
    → All IsByte s
    → from_le_bytes s ≡ some n
    → (s ≡ to_le_bytes n) × (n < u32_mod)
unfolding from_le_bytes to_le_bytes
from_le_bytes-some [] n h e = cc
from_le_bytes-some (a ∷ []) n h e = cc
from_le_bytes-some (a ∷ b ∷ []) n h e = cc
from_le_bytes-some (a ∷ b ∷ c ∷ []) n h e = cc
from_le_bytes-some (a ∷ b ∷ c ∷ d ∷ []) n h e =
    let (ha, (hb, (hc, (hd, _)))) = h in
    let v : a + 256 * b + 65536 * c + 16777216 * d ≡ n = some_inj e in
    (cons4 (omega arith) (omega arith) (omega arith) (omega arith), omega arith)
from_le_bytes-some (a ∷ b ∷ c ∷ d ∷ x ∷ s) n h e = cc

-- At `offset` stands a chunk with its prefix, and behind it `rest`.
record Framed (buf : Bytes) (offset : ℕ) (chunk rest : Bytes) : Type 0 where
  here : drop offset buf ≡ prefix_of chunk ++ (chunk ++ rest)
  small : length chunk < u32_mod

behind :
    (buf : Bytes) (offset : ℕ) (front back : Bytes)
    → drop offset buf ≡ front ++ back
    → drop (offset + length front) buf ≡ back
behind buf offset front back e =
    sym (drop-drop offset (length front) _ buf refl)
    ∙ ap (λ t. drop (length front) t) e
    ∙ drop-append_length front back

behind_prefix :
    (buf : Bytes) (offset : ℕ) (chunk back : Bytes)
    → drop offset buf ≡ prefix_of chunk ++ back
    → (take 4 (drop offset buf) ≡ prefix_of chunk)
      × (drop (offset + 4) buf ≡ back)
      × (length buf - offset ≡ 4 + length back)
unfolding prefix_of to_le_bytes
behind_prefix buf offset chunk back e = (
  ap (λ t. take 4 t) e,
  behind buf offset (prefix_of chunk) back e,
  sym (length-drop offset buf) ∙ ap length e ∙ omega arith,
)

read_chunk-Framed :
    (buf : Bytes) (offset : ℕ) (chunk rest : Bytes)
    → Framed buf offset chunk rest
    → (read_chunk buf offset ≡ some (chunk, offset + 4 + length chunk))
      × (drop (offset + 4 + length chunk) buf ≡ rest)
unfolding read_chunk slice
read_chunk-Framed buf offset chunk rest h =
    let (head, body, size) = behind_prefix buf offset chunk (chunk ++ rest) h.here in
    let parts = length-append chunk rest in
    let prefix_fits : ltb (length buf) (offset + 4) ≡ false = ground arith in
    let chunk_fits : ltb (length buf) (offset + 4 + length chunk) ≡ false = ground arith in
    (
      rw (
        prefix_fits,
        head,
        from_le_bytes-prefix_of chunk h.small,
        chunk_fits,
        body,
        take-append_length chunk rest,
      ),
      behind buf (offset + 4) chunk rest body,
    )

prefix_of-length :
    (chunk : Bytes) (len : ℕ)
    → length chunk ≡ len
    → len < u32_mod
    → prefix_of chunk ≡ to_le_bytes len
unfolding prefix_of
prefix_of-length chunk len e h = ap to_le_bytes (omega arith)

cut :
    (buf : Bytes) (offset len : ℕ)
    → All IsByte buf
    → from_le_bytes (take 4 (drop offset buf)) ≡ some len
    → offset + 4 + len ≤ length buf
    → Framed buf offset (take len (drop (offset + 4) buf)) (drop (offset + 4 + len) buf)
cut buf offset len bytes decodes fits =
    let s = drop offset buf in
    let t = drop (offset + 4) buf in
    let (front, small) =
      from_le_bytes-some (take 4 s) len (All-take IsByte 4 s (All-drop IsByte offset buf bytes))
        decodes in
    let size : length (take len t) ≡ len =
      length-take len t (omega (arith, length-drop (offset + 4) buf)) in
    record {
      here =
          sym (take-append-drop 4 s)
          ∙ rw
              (
                front,
                drop-drop offset 4 (offset + 4) buf refl,
                ← prefix_of-length (take len t) len size small,
              )
              (ap (λ r. prefix_of (take len t) ++ r)
                (sym (take-append-drop len t)
                  ∙ ap (λ r. take len t ++ r) (drop-drop (offset + 4) len _ buf refl)));
      small = omega arith;
    }

Framed-read_chunk :
    (buf : Bytes) (offset : ℕ) (chunk : Bytes) (next : ℕ)
    → All IsByte buf
    → read_chunk buf offset ≡ some (chunk, next)
    → Framed buf offset chunk (drop next buf)
unfolding read_chunk slice
Framed-read_chunk buf offset chunk next bytes h =
    let (room, h1) = guarded_some (ltb (length buf) (offset + 4)) _ h in
    let (len, decodes, h2) = >>=-eq-some (from_le_bytes (slice buf offset 4)) _ h1 in
    let (room2, h3) = guarded_some (ltb (length buf) (offset + 4 + len)) _ h2 in
    subst (λ (q : Bytes × ℕ). Framed buf offset q.0 (drop q.1 buf)) (some_inj h3)
      (cut buf offset len bytes decodes (ground arith))

-- Each chunk has a length that its prefix can hold.
abbrev pub IsSized : RawWitness → Type 0
IsSized w =
    (length w.boot_info < u32_mod)
    × (length w.oracle_data < u32_mod)
    × (length w.blob_data < u32_mod)

-- The encoding with what follows it, as a reader meets it.
raw_witness_to_bytes-append :
    (w : RawWitness) (rest : Bytes)
    → raw_witness_to_bytes w ++ rest
      ≡ prefix_of w.boot_info
        ++ (w.boot_info
            ++ (prefix_of w.oracle_data
                ++ (w.oracle_data ++ (prefix_of w.blob_data ++ (w.blob_data ++ rest)))))
unfolding raw_witness_to_bytes
raw_witness_to_bytes-append w rest = simp append_assoc

-- Every encoding is read back, whatever stands behind it.
raw_witness_to_bytes-read :
    (w : RawWitness) (rest buf : Bytes)
    → IsSized w
    → buf ≡ raw_witness_to_bytes w ++ rest
    → bytes_to_raw_witness buf ≡ some w
unfolding bytes_to_raw_witness
raw_witness_to_bytes-read w rest buf (s1, s2, s3) e =
    let (r1, e1) =
      read_chunk-Framed buf 0 w.boot_info _
        (record { here = e ∙ raw_witness_to_bytes-append w rest; small = s1 }) in
    let (r2, e2) = read_chunk-Framed buf _ w.oracle_data _ (record { here = e1; small = s2 }) in
    let (r3, _) = read_chunk-Framed buf _ w.blob_data rest (record { here = e2; small = s3 }) in
    rw (r1, r2, r3)

-- Three chunks that follow one another are an encoding.
chunks-written :
    (buf c1 c2 c3 : Bytes) (o1 o2 o3 : ℕ) (w : RawWitness)
    → Framed buf 0 c1 (drop o1 buf)
    → Framed buf o1 c2 (drop o2 buf)
    → Framed buf o2 c3 (drop o3 buf)
    → record { boot_info = c1; oracle_data = c2; blob_data = c3 } ≡ w
    → IsSized w × ((rest : Bytes) × (buf ≡ raw_witness_to_bytes w ++ rest))
chunks-written buf c1 c2 c3 o1 o2 o3 w f1 f2 f3 same =
    let v : RawWitness = record { boot_info = c1; oracle_data = c2; blob_data = c3 } in
    let tail2 = f2.here ∙ ap (λ t. prefix_of c2 ++ (c2 ++ t)) f3.here in
    subst
      (λ (u : RawWitness). IsSized u × ((rest : Bytes) × (buf ≡ raw_witness_to_bytes u ++ rest)))
      same
      (
        (f1.small, f2.small, f3.small),
        (
          drop o3 buf,
          f1.here
              ∙ ap (λ t. prefix_of c1 ++ (c1 ++ t)) tail2
              ∙ sym (raw_witness_to_bytes-append v (drop o3 buf)),
        ),
      )

bytes_to_raw_witness-written :
    (w : RawWitness) (buf : Bytes)
    → All IsByte buf
    → bytes_to_raw_witness buf ≡ some w
    → IsSized w × ((rest : Bytes) × (buf ≡ raw_witness_to_bytes w ++ rest))
unfolding bytes_to_raw_witness
bytes_to_raw_witness-written w buf bytes h =
    let ((c1, o1), r1, h1) = >>=-eq-some (read_chunk buf 0) _ h in
    let ((c2, o2), r2, h2) = >>=-eq-some (read_chunk buf o1) _ h1 in
    let ((c3, o3), r3, h3) = >>=-eq-some (read_chunk buf o2) _ h2 in
    chunks-written buf c1 c2 c3 o1 o2 o3 w (Framed-read_chunk buf 0 c1 o1 bytes r1)
      (Framed-read_chunk buf o1 c2 o2 bytes r2) (Framed-read_chunk buf o2 c3 o3 bytes r3)
      (some_inj h3)

-- A buffer of bytes is read as `w` exactly if it begins with the encoding of `w`, whose chunks are
-- each shorter than 2 ^ 32. What stands behind the encoding is not looked at.
pub bytes_to_raw_witness_iff :
    (w : RawWitness) (buf : Bytes)
    → All IsByte buf
    → (bytes_to_raw_witness buf ≡ some w)
      ↔ (IsSized w × ((rest : Bytes) × (buf ≡ raw_witness_to_bytes w ++ rest)))
bytes_to_raw_witness_iff w buf bytes =
    (bytes_to_raw_witness-written w buf bytes, λ h. raw_witness_to_bytes-read w h.1.0 buf h.0 h.1.1)
