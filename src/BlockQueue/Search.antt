-- ===== src/BlockQueue/Search.antt =====
-- The search that skips blocks takes the first candidate of the flat list.
use dr_evt.Base.{
  ℕ, suc, ◌+◌, ◌≤◌, ◌≡◌, refl, sym, ◌∙◌, ap, true, false, Option, none, some, List, [], ◌∷◌, ◌++◌,
  arith, ltb, leb, ◌==◌, length, All, Bool-cases, inl, inr, ==_iff,
}
use dr_evt.BlockQueue.{
  BlockJob, BlockInfo, Stats, get_min_run_time, get_min_nodes, first_run_time, first_nodes,
  least_run_time, least_nodes,
}
use dr_evt.BlockQueue.Backfill.{
  Searched, is_candidate, scan_block, search_blocks, check_block, take_found, pass_block,
}
use dr_evt.BlockQueue.Flat.{flat, AreBlocks, Ids, Ids-lower, All-weaken}

least_run_time-le :
    (j : BlockJob) (js : List BlockJob)
    → All (λ k. least_run_time j js ≤ k.run_time_estimate) (j ∷ js)
unfolding least_run_time
least_run_time-le j [] = (omega arith, tt)
least_run_time-le j (k ∷ js) =
    (ground arith, All-weaken _ _ (λ x le. ground arith) (k ∷ js) (least_run_time-le k js))

least_nodes-le :
    (j : BlockJob) (js : List BlockJob) → All (λ k. least_nodes j js ≤ k.nodes_requested) (j ∷ js)
unfolding least_nodes
least_nodes-le j [] = (omega arith, tt)
least_nodes-le j (k ∷ js) =
    (ground arith, All-weaken _ _ (λ x le. ground arith) (k ∷ js) (least_nodes-le k js))

first_run_time-le : (js : List BlockJob) → All (λ k. first_run_time js ≤ k.run_time_estimate) js
unfolding first_run_time
first_run_time-le [] = tt
first_run_time-le (j ∷ js) = least_run_time-le j js

first_nodes-le : (js : List BlockJob) → All (λ k. first_nodes js ≤ k.nodes_requested) js
unfolding first_nodes
first_nodes-le [] = tt
first_nodes-le (j ∷ js) = least_nodes-le j js

module _ (available now reservation : ℕ) where
  abbrev pub IsNone : BlockJob → Type 0
  IsNone j = is_candidate available now reservation j ≡ false

  -- No job of the block is a candidate.
  IsNone-by_time :
      (b : BlockInfo)
      → (b.active_count == 0) ≡ false
      → leb reservation (now + get_min_run_time b) ≡ true
      → All IsNone b.block
  unfolding get_min_run_time is_candidate
  IsNone-by_time b some_active late =
      All-weaken _ _ (λ j le. ground arith) b.block (first_run_time-le b.block)

  IsNone-by_nodes :
      (b : BlockInfo)
      → (b.active_count == 0) ≡ false
      → ltb available (get_min_nodes b) ≡ true
      → All IsNone b.block
  unfolding get_min_nodes is_candidate
  IsNone-by_nodes b some_active large =
      All-weaken _ _ (λ j le. ground arith) b.block (first_nodes-le b.block)

  scan_none :
      (js ks : List BlockJob)
      → All IsNone js
      → (scan_block available now reservation (js ++ ks)).job
          ≡ (scan_block available now reservation ks).job
        × ((scan_block available now reservation (js ++ ks)).rest
            ≡ js ++ (scan_block available now reservation ks).rest)
  unfolding scan_block
  scan_none [] ks all = (refl, refl)
  scan_none (j ∷ js) ks all =
      let rest = scan_none js ks all.1 in rw (all.0) (rest.0, ap (λ l. j ∷ l) rest.1)

  scan_append_none :
      (js ks : List BlockJob)
      → (scan_block available now reservation js).job ≡ none
      → (scan_block available now reservation (js ++ ks)).job
          ≡ (scan_block available now reservation ks).job
        × ((scan_block available now reservation (js ++ ks)).rest
            ≡ js ++ (scan_block available now reservation ks).rest)
  unfolding scan_block
  scan_append_none [] ks eq = (refl, refl)
  scan_append_none (j ∷ js) ks eq = elim (Bool-cases (is_candidate available now reservation j)) [
    | inl here ↦ absurd (taken here eq)
    | inr other ↦
        let rest = scan_append_none js ks (passed other eq) in
        rw other (rest.0, ap (λ l. j ∷ l) rest.1)
  ]
    where
      taken :
          is_candidate available now reservation j ≡ true
          → (scan_block available now reservation (j ∷ js)).job ≡ none
          → ⊥
      taken here eq =
          let found : (scan_block available now reservation (j ∷ js)).job ≡ some j = rw here refl in
          cc (found, eq)

      passed :
          is_candidate available now reservation j ≡ false
          → (scan_block available now reservation (j ∷ js)).job ≡ none
          → (scan_block available now reservation js).job ≡ none
      passed other eq =
          let same : (scan_block available now reservation (j ∷ js)).job
              ≡ (scan_block available now reservation js).job =
            rw other refl in
          sym same ∙ eq

  -- What a scan that finds the job `x` leaves, whatever follows the block.
  record Takes (js ks : List BlockJob) (x : BlockJob) : Type 0 where
    job : (scan_block available now reservation (js ++ ks)).job ≡ some x
    rest :
        (scan_block available now reservation (js ++ ks)).rest
        ≡ (scan_block available now reservation js).rest ++ ks
    shorter : suc (length (scan_block available now reservation js).rest) ≡ length js
    ids : (lo hi : ℕ) → Ids lo hi js → Ids lo hi (scan_block available now reservation js).rest

  scan-Takes :
      (js ks : List BlockJob) (x : BlockJob)
      → (scan_block available now reservation js).job ≡ some x
      → Takes js ks x
  unfolding scan_block
  scan-Takes [] ks x eq = absurd (cc eq)
  scan-Takes (j ∷ js) ks x eq = elim (Bool-cases (is_candidate available now reservation j)) [
    | inl here ↦ record {
      job = rw here (sym (first here) ∙ eq);
      rest = rw here refl;
      shorter = rw here (omega arith);
      ids = λ lo hi ids. rw here (Ids-lower (suc j.job_id) lo hi js (omega arith) ids.1);
    }
    | inr other ↦
        let t = scan-Takes js ks x (sym (later other) ∙ eq) in
        record {
          job = rw other t.job;
          rest = rw other (ap (λ l. j ∷ l) t.rest);
          shorter = rw other (omega (arith, t.shorter));
          ids = λ lo hi ids. rw other (ids.0, t.ids (suc j.job_id) hi ids.1);
        }
  ]
    where
      first :
          is_candidate available now reservation j ≡ true
          → (scan_block available now reservation (j ∷ js)).job ≡ some j
      first here = rw here refl

      later :
          is_candidate available now reservation j ≡ false
          → (scan_block available now reservation (j ∷ js)).job
            ≡ (scan_block available now reservation js).job
      later other = rw other refl

  -- The search agrees with the scan of the flat list, and keeps the blocks well-formed.
  pub record Agrees (size lo : ℕ) (bs : List BlockInfo) (r : Searched) : Type 0 where
    pub job : r.job ≡ (scan_block available now reservation (flat bs)).job
    pub rest : flat r.blocks ≡ (scan_block available now reservation (flat bs)).rest
    pub blocks : AreBlocks size lo r.blocks

  -- A block without a candidate.
  passes-Agrees :
      (size lo : ℕ) (b : BlockInfo) (bs : List BlockInfo) (r : Searched)
      → AreBlocks size lo (b ∷ bs)
      → (scan_block available now reservation (b.block ++ flat bs)).job
          ≡ (scan_block available now reservation (flat bs)).job
        × ((scan_block available now reservation (b.block ++ flat bs)).rest
            ≡ b.block ++ (scan_block available now reservation (flat bs)).rest)
      → Agrees size (lo + size) bs r
      → Agrees size lo (b ∷ bs) (pass_block b r)
  unfolding flat
  passes-Agrees size lo b bs r v same a = record {
    job = a.job ∙ sym same.0;
    rest = ap (λ l. b.block ++ l) a.rest ∙ sym same.1;
    blocks = (v.0, v.1, a.blocks);
  }

  found-Agrees :
      (size lo : ℕ) (b : BlockInfo) (bs : List BlockInfo) (s : Stats) (again : Stats → Searched)
      (o : Option BlockJob)
      → AreBlocks size lo (b ∷ bs)
      → (scan_block available now reservation b.block).job ≡ o
      → ((s : Stats) → Agrees size (lo + size) bs (again s))
      → Agrees size lo
          (b ∷ bs)
          (take_found b bs s (scan_block available now reservation b.block).rest again o)
  unfolding take_found flat
  found-Agrees size lo b bs s again none v eq hyp =
      passes-Agrees size lo b bs (again s) v (scan_append_none b.block (flat bs) eq) (hyp s)
  found-Agrees size lo b bs s again (some x) v eq hyp =
      let t = scan-Takes b.block (flat bs) x eq in
      record {
        job = sym t.job;
        rest = sym t.rest;
        blocks = (t.ids lo (lo + size) v.0, omega (arith, v.1, t.shorter), v.2);
      }

  check_block-Agrees :
      (size lo : ℕ) (b : BlockInfo) (bs : List BlockInfo) (s : Stats) (again : Stats → Searched)
      → AreBlocks size lo (b ∷ bs)
      → (b.active_count == 0) ≡ false
      → ((s : Stats) → Agrees size (lo + size) bs (again s))
      → Agrees size lo (b ∷ bs) (check_block available now reservation b bs s again)
  unfolding check_block
  check_block-Agrees size lo b bs s again v some_active hyp =
      elim (Bool-cases (leb reservation (now + get_min_run_time b))) [
        | inl late ↦ rw late (
            passes-Agrees size lo b bs _ v
              (scan_none b.block (flat bs) (IsNone-by_time b some_active late)) (hyp _))
        | inr early ↦ rw early (elim (Bool-cases (ltb available (get_min_nodes b))) [
          | inl large ↦ rw large (
              passes-Agrees size lo b bs _ v
                (scan_none b.block (flat bs) (IsNone-by_nodes b some_active large)) (hyp _))
          | inr small ↦ rw small (found-Agrees size lo b bs _ again _ v refl hyp)
        ])
      ]

  pub search_blocks-Agrees :
      (size lo : ℕ) (bs : List BlockInfo) (s : Stats)
      → AreBlocks size lo bs
      → Agrees size lo bs (search_blocks available now reservation bs s)
  unfolding search_blocks
  search_blocks-Agrees size lo [] s v =
      unfold flat scan_block in record { job = refl; rest = refl; blocks = tt }
  search_blocks-Agrees size lo (b ∷ bs) s v = elim (Bool-cases (b.active_count == 0)) [
    | inl empty ↦ rw empty (
        passes-Agrees size lo b bs _ v
          (scan_none b.block (flat bs) (no_jobs b.block (omega (arith, v.1, (==_iff _ 0).0 empty))))
          (search_blocks-Agrees size (lo + size) bs _ v.2))
    | inr active ↦ rw active (
        check_block-Agrees size lo b bs _ _ v active
          (λ s'. search_blocks-Agrees size (lo + size) bs s' v.2))
  ]
    where
      no_jobs : (js : List BlockJob) → length js ≡ 0 → All IsNone js
      no_jobs [] h = tt
      no_jobs (j ∷ js) h = absurd (omega arith)
