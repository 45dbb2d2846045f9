-- ===== src/HybridDeque/Follow.antt =====
-- The scan of FCFSHybridDequeScheduler::schedule (src/sim/scheduler_fcfs_hybrid_deque.cpp) follows
-- the walk over the jobs: its two plans are what the books leave.
use dr_evt.Base.{
  ℕ, suc, ◌<◌, ◌≡◌, ◌≢◌, refl, sym, ◌∙◌, ap, subst, true, false, ◌||◌, Option, some, List, [], ◌∷◌,
  ◌++◌, arith, ltb, ◌==◌, length, Bool-cases, if_ind, ==_iff, ◌⊎◌, inl, inr,
}
use dr_evt.Deque.{JobEntry}
use dr_evt.HybridDeque.Backfill.{
  ScanContext, ScanState, Scan, scan, protected_start, duration_now, is_now, takes_no_slot,
  slots_used,
}
use dr_evt.HybridDeque.Rounds.{Rounds, IsOver, examining, scan_ind}
use dr_evt.HybridDeque.Ledger.{is_now-some}
use dr_evt.HybridDeque.Walk.{
  Books, IsFirst, unreserved, unclaimed, reserved, IsPassed, IsExamined, IsDone, Walk, ends,
  passes_by, starts_now, reserves,
}
use dr_evt.HybridDeque.Agrees.{
  Agrees, Agrees-examining, search_near, search_start, protect_job-Agrees, start_job-Agrees,
}

append_none : {A : Type 0} → (xs : List A) → xs ++ [] ≡ xs
append_none [] = refl
append_none (x ∷ xs) = ap (λ l. x ∷ l) (append_none xs)

append_more : {A : Type 0} → (xs ys zs : List A) → (xs ++ ys) ++ zs ≡ xs ++ (ys ++ zs)
append_more [] ys zs = refl
append_more (x ∷ xs) ys zs = ap (λ l. x ∷ l) (append_more xs ys zs)

module _ (c : ScanContext) (flat : c.base.planning_time_resolution ≡ 0) (supply : ℕ → ℕ) where
  abbrev Walks : ℕ → List JobEntry → Books → Books → Type 0
  Walks = Walk c.base c.now c.protected_depth c.queue_depth supply

  abbrev reserves_for : Books → JobEntry → Option ℕ → Books
  reserves_for = reserved c.base c.now c.protected_depth c.queue_depth supply

  abbrev left_by : Books → ℕ → ℕ
  left_by = unclaimed c.base c.now c.protected_depth c.queue_depth supply

  abbrev left_by_starts : Books → ℕ → ℕ
  left_by_starts = unreserved c.base c.now c.protected_depth c.queue_depth supply

  passed :
      (s : ScanState) (bk : Books) (j : JobEntry)
      → Agrees c flat supply s bk
      → takes_no_slot c s j ≡ true
      → IsPassed c.base c.now c.protected_depth c.queue_depth supply bk j
  unfolding takes_no_slot
  passed s bk j a slot = elim (Bool-cases j.removed) [
    | inl removed ↦ inl removed
    | inr present ↦ inr (_, search_near c flat supply s bk j a, ground (arith, slot, present))
  ]

  examined :
      (s : ScanState) (bk : Books) (j : JobEntry)
      → Agrees c flat supply s bk
      → slots_used c s ≡ false
      → takes_no_slot c s j ≡ false
      → IsExamined c.base c.now c.protected_depth c.queue_depth supply bk j
  unfolding takes_no_slot slots_used
  examined s bk j a room slot = (
    ground (arith, slot),
    (_, search_near c flat supply s bk j a, ground (arith, slot)),
    elim (Bool-cases (c.queue_depth == 0)) [
      | inl no_limit ↦ inl (ground (arith, no_limit))
      | inr limit ↦ inr (ground (arith, limit, room, a.slots))
    ],
  )

  done :
      (n : ℕ) (q : List JobEntry) (s : ScanState) (bk : Books)
      → Agrees c flat supply s bk
      → IsOver c n q s
      → IsDone c.base c.now c.protected_depth c.queue_depth supply n q bk
  unfolding slots_used
  done n q s bk a (inl none_left) = inl none_left
  done n q s bk a (inr (inl behind)) = inr (inl behind)
  done n q s bk a (inr (inr (inl used))) =
      inr (inr (inl (ground (arith, used), ground (arith, used, a.slots))))
  done n q s bk a (inr (inr (inr full))) = inr (inr (inr (sym a.free ∙ full)))

  -- The scan is a walk from the books, which starts the jobs of the scan.
  pub record Follows (n : ℕ) (q : List JobEntry) (bk : Books) (k : Scan) : Type 0 where
    pub books : Books
    pub walk : Walks n q bk books
    pub started : books.starts ≡ bk.starts ++ k.started
    pub agrees : Agrees c flat supply k.state books

  abbrev Following : ℕ → List JobEntry → ScanState → Scan → Type 0
  Following n q s k = (bk : Books) → Agrees c flat supply s bk → Follows n q bk k

  not_now : (o : Option ℕ) → is_now c.now o ≡ false → o ≢ some c.now
  unfolding is_now
  not_now o h eq =
      let same : is_now c.now o ≡ true = ap (is_now c.now) eq ∙ (==_iff c.now c.now).1 refl in
      cc (same, h)

  waits :
      (s : ScanState) (bk : Books) (j : JobEntry)
      → Agrees c flat supply s bk
      → (s.available < j.nodes_requested)
        ⊎ (is_now c.now (protected_start c (examining s) j) ≡ false)
      → (bk.free < j.nodes_requested) ⊎ (protected_start c (examining s) j ≢ some c.now)
  waits s bk j a (inl short) = inl (omega (arith, short, a.free))
  waits s bk j a (inr later) = inr (not_now _ later)

  pub reserved_starts :
      (bk : Books) (j : JobEntry) (o : Option ℕ) → (reserves_for bk j o).starts ≡ bk.starts
  reserved_starts bk j o =
      if_ind (λ (x : Books). x.starts ≡ bk.starts)
        (c.protected_depth == 0 || ltb (length bk.claims) c.protected_depth) _ _ (λ opened. refl)
        (λ closed. refl)

  rounds-Follows : Rounds c Following
  unfolding duration_now
  rounds-Follows = record {
    stops = λ n q s over bk a. record {
      books = bk;
      walk = ends (done n q s bk a over);
      started = sym (append_none bk.starts);
      agrees = a;
    };
    skips = λ n j q s k slot rest bk a.
        let f = rest bk a in
        record {
          books = f.books;
          walk = passes_by (passed s bk j a slot) f.walk;
          started = f.started;
          agrees = f.agrees;
        };
    protects = λ n j q s k r room slot why given rest bk a.
        let a' = Agrees-examining c flat supply s bk a in
        let o = protected_start c (examining s) j in
        let f = rest (reserves_for (record bk { slots = suc bk.slots }) j o) (
          protect_job-Agrees c flat supply (examining s) (record bk { slots = suc bk.slots }) j r
            given a') in
        record {
          books = f.books;
          walk =
              reserves {bk = bk} {o = o} (examined s bk j a room slot) (waits s bk j a why)
                (search_start c flat supply (examining s) (record bk { slots = suc bk.slots }) j a')
                f.walk;
          started =
              f.started
              ∙ ap (λ l. l ++ k.started) (reserved_starts (record bk { slots = suc bk.slots }) j o);
          agrees = f.agrees;
        };
    begins = λ n j q s k room slot fits here rest bk a.
        let a' = Agrees-examining c flat supply s bk a in
        let slotted : Books = record bk { slots = suc bk.slots } in
        let f = rest _ (start_job-Agrees c flat supply (examining s) slotted j here a') in
        record {
          books = f.books;
          walk =
              starts_now {bk = bk} (examined s bk j a room slot) (omega (arith, fits, a.free))
                (subst (IsFirst c.now (left_by slotted) j.nodes_requested (duration_now c j))
                  (is_now-some c flat c.now _ here)
                  (search_start c flat supply (examining s) slotted j a'))
                f.walk;
          started = f.started ∙ append_more bk.starts (j ∷ []) k.started;
          agrees = f.agrees;
        };
  }

  pub scan-Follows :
      (n : ℕ) (q : List JobEntry) (s : ScanState) (bk : Books)
      → Agrees c flat supply s bk
      → Follows n q bk (scan c n q s)
  scan-Follows n q s bk a = scan_ind c Following rounds-Follows n q s bk a
