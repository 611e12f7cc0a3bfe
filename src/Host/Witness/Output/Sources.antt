-- ===== src/Host/Witness/Output/Sources.antt =====
-- Where the output root comes from.
use open_zk.Common.{
  ℕ, ◌≡◌, refl, ap, sym, ◌∙◌, Option-cases, inl, inr, subst, Option, none, some, [], ◌∷◌, ◌++◌,
  Text, codes, hex,
}
use open_zk.Common.Outcome.{Result, ok, err}
use open_zk.Common.Io.{after-eq-ok, after-map_err, after-ok_or_fail, after-result}
use open_zk.Core.{B256}
use open_zk.Host.Witness.{RpcWitnessProvider, Values, Header, Outside}
use open_zk.Host.Witness.Answers.{answered_root}
use open_zk.Host.Witness.Output.{
  output_payload, output_at_block, op_node_root, derived_root, from_l2_node, or_l2_node,
  fetch_output_root,
}

module _ {W E A : Type 0} where
  ok_pair : {a b : A} {u v : W} → Path (Result E A × W) (ok a, u) (ok b, v) → (a ≡ b) × (u ≡ v)
  ok_pair h = (cc, cc)

module _ {W Json : Type 0} (values : Values Json) (outside : Outside W Json) where
  abbrev pub request_at : Text → ℕ → W → Result Text Json × W
  unfolding hex
  request_at url block_number =
      outside.raw_request url (codes "optimism_outputAtBlock")
        ((codes "0x" ++ hex block_number) ∷ [])

  -- The sources of a root, with the request that gave it, after which the world is `v`.
  pub data RootOf (self : RpcWitnessProvider) (l2_url : Text) (block_number : ℕ) (v : W)
      (root : B256) : Type 0 where
    of_op_node :
        (op_url url : Text) (u : W) (resp : Json)
        → self.op_node_url ≡ some op_url
        → outside.parse_url op_url ≡ ok url
        → request_at url block_number u ≡ (ok resp, v)
        → answered_root values outside (ok resp) ≡ some root
        → RootOf self l2_url block_number v root
    of_l2_node :
        (u : W) (resp : Json)
        → request_at l2_url block_number u ≡ (ok resp, v)
        → answered_root values outside (ok resp) ≡ some root
        → RootOf self l2_url block_number v root
    of_header :
        (u : W) (header : Header)
        → outside.get_block_by_number l2_url block_number u ≡ (ok (some header), v)
        → outside.keccak256 (output_payload header) ≡ root
        → RootOf self l2_url block_number v root

  answered :
      (r : Result Text Json) {root : B256}
      → answered_root values outside r ≡ some root
      → (resp : Json) × (r ≡ ok resp)
  unfolding answered_root
  answered (err e) h = cc
  answered (ok resp) h = (resp, refl)

  at_block :
      (url : Text) (block_number : ℕ) (w : W) {root : B256} {v : W}
      → (answered_root values outside (request_at url block_number w).0 ≡ some root)
        × ((request_at url block_number w).1 ≡ v)
      → (resp : Json) × (request_at url block_number w ≡ (ok resp, v))
        × (answered_root values outside (ok resp) ≡ some root)
  at_block url block_number w {root = root} (found, same) =
      let (resp, is_ok) = answered (request_at url block_number w).0 found in
      (
        resp,
        rw (sym is_ok, sym same),
        subst (λ r. answered_root values outside r ≡ some root) is_ok found,
      )

  op_node_root-RootOf :
      (self : RpcWitnessProvider) (l2_url : Text) (op_node_url : Option Text) (block_number : ℕ)
      (w v : W) (root : B256)
      → self.op_node_url ≡ op_node_url
      → op_node_root values outside op_node_url block_number w ≡ (ok (some root), v)
      → RootOf self l2_url block_number v root
  unfolding op_node_root output_at_block
  op_node_root-RootOf self l2_url none block_number w v root at h = cc
  op_node_root-RootOf self l2_url (some op_url) block_number w v root at h =
      let (url, parsed, rest) = after-result _ _ (outside.parse_url op_url) w h in
      let (resp, asked, found) = at_block url block_number w (ok_pair rest) in
      of_op_node op_url url w resp at parsed asked found

  derived_root-RootOf :
      (self : RpcWitnessProvider) (l2_url : Text) (block_number : ℕ) (w v : W) (root : B256)
      → derived_root outside l2_url block_number w ≡ (ok root, v)
      → RootOf self l2_url block_number v root
  unfolding derived_root
  derived_root-RootOf self l2_url block_number w v root h =
      let (found, u, got, rest) =
        after-map_err _ _ (outside.get_block_by_number l2_url block_number w) h in
      let (header, is_some, last) = after-ok_or_fail found _ _ u rest in
      of_header w header
        (got ∙ ap (λ o. (ok o, u)) is_some ∙ ap (λ t. (ok (some header), t)) (ok_pair last).1)
        (ok_pair last).0

  or_l2_node-RootOf :
      (self : RpcWitnessProvider) (l2_url : Text) (block_number : ℕ) (w v : W) (root : B256)
      (answer : Option B256 × W)
      → output_at_block values outside l2_url block_number w ≡ answer
      → from_l2_node values outside l2_url block_number answer ≡ (ok root, v)
      → RootOf self l2_url block_number v root
  unfolding output_at_block
  or_l2_node-RootOf self l2_url block_number w v root (some found, u) at h =
      let (resp, asked, is_root) = at_block l2_url block_number w (
        ap (λ (r : Option B256 × W). r.0) at ∙ ap some (ok_pair h).0,
        ap (λ (r : Option B256 × W). r.1) at ∙ (ok_pair h).1,
      ) in
      of_l2_node w resp asked is_root
  or_l2_node-RootOf self l2_url block_number w v root (none, u) at h =
      derived_root-RootOf self l2_url block_number u v root h

  pub fetch_output_root-RootOf :
      (self : RpcWitnessProvider) (l2_url : Text) (block_number : ℕ) (w v : W) (root : B256)
      → fetch_output_root values outside self l2_url block_number w ≡ (ok root, v)
      → RootOf self l2_url block_number v root
  unfolding fetch_output_root
  fetch_output_root-RootOf self l2_url block_number w v root h =
      let (first, u, op, rest) =
        after-eq-ok (or_l2_node values outside l2_url block_number)
          (op_node_root values outside self.op_node_url block_number w) h in
      elim (Option-cases first) [
        | inl missing ↦
            or_l2_node-RootOf self l2_url block_number u v root _ refl
              (ap (λ o. or_l2_node values outside l2_url block_number o u) (sym missing) ∙ rest)
        | inr (found, is_found) ↦
            let last =
              ok_pair (
                ap (λ o. or_l2_node values outside l2_url block_number o u) (sym is_found)
                ∙ rest) in
            op_node_root-RootOf self l2_url self.op_node_url block_number w v root refl (
              op
              ∙ ap (λ o. (ok o, u)) (is_found ∙ ap some last.0)
              ∙ ap (λ t. (ok (some root), t)) last.1)
      ]
