-- ===== src/BlockQueue/Candidate.antt =====
-- `find_and_remove_backfill_candidate` in terms of the waiting jobs alone.
use dr_evt.Base.{
  ℕ, suc, ◌-◌, ◌^◌, ◌≡◌, refl, sym, ◌∙◌, ap, true, Option, none, some, List, [], ◌∷◌, ◌++◌, arith,
  if◌then◌else◌, length, All, Bool-cases, inl, inr, subst, length-append,
}
use dr_evt.BlockQueue.{BlockJob, BlockInfo, BlockWaitQueue, Stats, is_some}
use dr_evt.BlockQueue.Backfill.{
  is_candidate, scan_block, search_blocks, find_and_remove_backfill_candidate,
}
use dr_evt.BlockQueue.Flat.{flat, waiting, IsBelow, All-part, All-join}
use dr_evt.BlockQueue.Blocks.{Inv}
use dr_evt.BlockQueue.Search.{IsNone, search_blocks-Agrees}

module _ (available now reservation : ℕ) where
  -- The job is the first candidate of the list and the rest is the list without it; or there is no
  -- candidate, and the list is unchanged.
  abbrev pub TakesFirst : List BlockJob → Option BlockJob → List BlockJob → Type 0
  TakesFirst js none left = All (IsNone available now reservation) js × (left ≡ js)
  TakesFirst js (some j) left =
      (before : List BlockJob) × (after : List BlockJob) × (js ≡ before ++ j ∷ after)
      × All (IsNone available now reservation) before
      × (is_candidate available now reservation j ≡ true)
      × (left ≡ before ++ after)

  TakesFirst-cons :
      (j : BlockJob) (js : List BlockJob) (o : Option BlockJob) (left : List BlockJob)
      → IsNone available now reservation j
      → TakesFirst js o left
      → TakesFirst (j ∷ js) o (j ∷ left)
  TakesFirst-cons j js none left other (all, same) = ((other, all), ap (λ l. j ∷ l) same)
  TakesFirst-cons j js (some x) left other (before, after, eq, all, here, same) =
      (j ∷ before, after, ap (λ l. j ∷ l) eq, (other, all), here, ap (λ l. j ∷ l) same)

  scan_block-TakesFirst :
      (js : List BlockJob)
      → let f = scan_block available now reservation js in TakesFirst js f.job f.rest
  unfolding scan_block
  scan_block-TakesFirst [] = (tt, refl)
  scan_block-TakesFirst (j ∷ js) = elim (Bool-cases (is_candidate available now reservation j)) [
    | inl here ↦ rw here ([], js, refl, tt, here, refl)
    | inr other ↦ rw other (TakesFirst-cons j js _ _ other (scan_block-TakesFirst js))
  ]

  -- Numbers and bounds of what is left.
  left_length :
      (js : List BlockJob) (o : Option BlockJob) (left : List BlockJob) (count : ℕ)
      → TakesFirst js o left
      → count ≡ length js
      → (if is_some o then count - 1 else count) ≡ length left
  unfolding is_some
  left_length js none left count (all, same) eq = eq ∙ sym (ap length same)
  left_length js (some x) left count (before, after, parts, all, here, same) eq = omega (
    arith,
    ap length parts,
    ap length same,
    length-append before (x ∷ after),
    length-append before after,
  )

  left-IsBelow :
      (id : ℕ) (js : List BlockJob) (o : Option BlockJob) (left : List BlockJob)
      → TakesFirst js o left
      → IsBelow id js
      → IsBelow id left
  left-IsBelow id js none left (all, same) below = subst (IsBelow id) (sym same) below
  left-IsBelow id js (some x) left (before, after, parts, all, here, same) below =
      let (a, b) = All-part _ before (x ∷ after) (subst (IsBelow id) parts below) in
      subst (IsBelow id) (sym same) (All-join _ before after a b.1)

  -- On a well-formed queue, the search that skips blocks by their least run time and node count
  -- takes the first waiting job, in the order of the IDs, that has arrived, requests at most the
  -- available nodes and ends strictly before the reservation, and leaves the others; it finds none
  -- exactly if no waiting job is such a candidate. The queue is well-formed afterwards.
  pub find_and_remove-TakesFirst :
      (shift : ℕ) (q : BlockWaitQueue)
      → Inv shift q
      → let r = find_and_remove_backfill_candidate q available now reservation in
        TakesFirst (waiting q) r.1 (waiting r.0) × Inv shift r.0
  unfolding find_and_remove_backfill_candidate
  find_and_remove-TakesFirst shift q v =
      let r = search_blocks available now reservation q.blocks q.stats in
      let a =
        search_blocks-Agrees available now reservation (2 ^ shift) q.first_job_id q.blocks q.stats
          v.blocks in
      let f = scan_block available now reservation (waiting q) in
      let first : TakesFirst (waiting q) r.job (flat r.blocks) =
        subst (λ o. TakesFirst (waiting q) o (flat r.blocks)) (sym a.job)
          (subst (TakesFirst (waiting q) f.job) (sym a.rest) (scan_block-TakesFirst (waiting q))) in
      (
        first,
        record {
          blocks = a.blocks;
          counted = left_length (waiting q) r.job (flat r.blocks) q.active_count first v.counted;
          last = left-IsBelow (suc q.last_job_id) (waiting q) r.job (flat r.blocks) first v.last;
          first = v.first;
          fresh = λ none_yet. no_blocks q.blocks q.stats (v.fresh none_yet);
        },
      )
    where
      no_blocks :
          (bs : List BlockInfo) (s : Stats)
          → bs ≡ []
          → (search_blocks available now reservation bs s).blocks ≡ []
      no_blocks bs s eq =
          subst (λ l. (search_blocks available now reservation l s).blocks ≡ []) (sym eq)
            (unfold search_blocks in refl)
