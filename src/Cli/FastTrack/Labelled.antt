-- ===== src/Cli/FastTrack/Labelled.antt =====
-- The address behind a contract's name in what `forge` prints.
use open_zk.Common.{
  ℕ, ◌==◌, ◌≡◌, refl, sym, ap, ◌∙◌, true, false, if◌then◌else◌, Option, some, List, [], ◌∷◌, ◌++◌,
  length, take, drop, All, Text, leb, le→leb, append_assoc, append-nil, take-append_length,
  drop-append_length, length-append, arith,
}
use open_zk.Common.Outcome.{returned}
use open_zk.Core.{Bytes}
use open_zk.Cli.FastTrack.{
  without_cr, lines_from, lines, at_boundary, candidate, zero_x, find, contains, address_at,
  extract_from, extract_address,
}

-- A line as it is printed: no newline in it, and no carriage return at its end.
abbrev pub NoNewline : Text → Type 0
NoNewline [] = Unit {0}
NoNewline (c ∷ s) = ((c == 10) ≡ false) × NoNewline s

abbrev pub IsLine : Text → Type 0
IsLine line = NoNewline line × (without_cr line ≡ line)

-- The lines as `forge` prints them.
abbrev pub unlines : List Text → Text
unlines [] = []
unlines (line ∷ rest) = line ++ 10 ∷ unlines rest

lines_from-line :
    (line s rest : Text)
    → NoNewline s
    → lines_from line (s ++ 10 ∷ rest) ≡ without_cr (line ++ s) ∷ lines_from [] rest
unfolding lines_from
lines_from-line line [] rest clean = rw (append-nil line) refl
lines_from-line line (c ∷ s) rest (no_newline, clean) =
    ap
      (λ b.
        if b
        then without_cr line ∷ lines_from [] (s ++ 10 ∷ rest)
        else lines_from (line ++ c ∷ []) (s ++ 10 ∷ rest))
      no_newline
    ∙ lines_from-line (line ++ c ∷ []) s rest clean
    ∙ ap (λ l. without_cr l ∷ lines_from [] rest) (append_assoc line (c ∷ []) s)

lines-unlines : (ls : List Text) → All IsLine ls → lines (unlines ls) ≡ ls
unfolding lines lines_from
lines-unlines [] all = refl
lines-unlines (line ∷ rest) ((clean, bare), all) =
    lines_from-line [] line (unlines rest) clean
    ∙ ap (λ l. l ∷ lines_from [] (unlines rest)) bare
    ∙ ap (λ ls. line ∷ ls) (lines-unlines rest all)

candidate-address :
    (address tail : Text)
    → length address ≡ 42
    → at_boundary tail ≡ true
    → candidate (address ++ tail) ≡ returned address
unfolding candidate
candidate-address address tail size boundary =
    let long : leb 42 (length (address ++ tail)) ≡ true =
      le→leb 42 _ (omega (arith, length-append address tail)) in
    let front : take 42 (address ++ tail) ≡ address =
      ap (λ (n : ℕ). take n (address ++ tail)) (sym size) ∙ take-append_length address tail in
    let behind : drop 42 (address ++ tail) ≡ tail =
      ap (λ (n : ℕ). drop n (address ++ tail)) (sym size) ∙ drop-append_length address tail in
    rw (long, behind, boundary, front)

module _ (parse_address : Text → Option Bytes) (contract_name : Text) where
  extract_from-front :
      (front rest : List Text)
      → All (λ line. contains contract_name line ≡ false) front
      → extract_from parse_address (front ++ rest) contract_name
        ≡ extract_from parse_address rest contract_name
  unfolding extract_from
  extract_from-front [] rest without = refl
  extract_from-front (line ∷ front) rest (no_name, without) =
      rw (no_name) (extract_from-front front rest without)

  -- What stands in the first line that names the contract: a label with the name, and the address
  -- where `0x` first occurs.
  pub record IsLabelled (label address tail : Text) (found : Bytes) : Type 0 where
    pub named : contains contract_name (label ++ (address ++ tail)) ≡ true
    pub first_0x : find zero_x (label ++ (address ++ tail)) ≡ some (length label)
    pub size : length address ≡ 42
    pub boundary : at_boundary tail ≡ true
    pub valid : parse_address address ≡ some found

  -- In an output of whole lines, the address is found in the first line that names the contract,
  -- where it stands behind the label with 42 characters, whatever the other lines hold.
  pub extract_address-IsLabelled :
      (front rest : List Text) (label address tail : Text) (found : Bytes)
      → All IsLine (front ++ (label ++ (address ++ tail)) ∷ rest)
      → All (λ line. contains contract_name line ≡ false) front
      → IsLabelled label address tail found
      → extract_address parse_address
          (unlines (front ++ (label ++ (address ++ tail)) ∷ rest))
          contract_name
        ≡ returned (some found)
  unfolding extract_address extract_from address_at
  extract_address-IsLabelled front rest label address tail found are_lines without labelled =
      let line = label ++ (address ++ tail) in
      ap (λ ls. extract_from parse_address ls contract_name)
        (lines-unlines (front ++ line ∷ rest) are_lines)
      ∙ extract_from-front front (line ∷ rest) without
      ∙ rw (
        labelled.named,
        labelled.first_0x,
        drop-append_length label (address ++ tail),
        candidate-address address tail labelled.size labelled.boundary,
        labelled.valid,
      )
