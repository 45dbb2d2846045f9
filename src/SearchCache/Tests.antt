-- ===== src/SearchCache/Tests.antt =====
-- The cache on a small plan.
use dr_evt.Base.{ℕ, ◌≡◌, refl, none, some, List, [], ◌∷◌, arith}
use dr_evt.Timeline.{Segment, Timeline}
use dr_evt.Timeline
use dr_evt.Timeline.Free.{free_at}
use dr_evt.Timeline.Safe.{IsUnsigned}
use dr_evt.SearchCache.{init, earliest_fit}
use dr_evt.SearchCache.Refine.{init-Inv, Answers, earliest_fit-Answers}
use dr_evt.SearchCache.Run.{
  Request, ask, book, answers_cached, answers_plain, answers_cached-eq-plain,
}

abbrev segment : ℕ → ℕ → Segment
segment time free = record { time = time; free = free }

abbrev plan : Timeline
plan = segment 0 4 ∷ segment 10 6 ∷ segment 20 2 ∷ []

abbrev requests : List Request
requests = ask 5 8 3 ∷ book 10 5 8 ∷ ask 5 8 3 ∷ ask 4 5 0 ∷ ask 4 5 0 ∷ []

plan_small : IsUnsigned plan
unfolding free_at
plan_small t begun = ground arith

answers_cached-eq-plain_example : answers_cached (init plan) requests ≡ answers_plain plan requests
answers_cached-eq-plain_example =
    answers_cached-eq-plain plan requests (omega arith) plan_small (omega arith)

earliest_fit-Answers_example : Answers (init plan) 5 8 3 (earliest_fit (init plan) 5 8 3)
unfolding init
earliest_fit-Answers_example =
    earliest_fit-Answers (init plan) 5 8 3 (init-Inv plan (omega arith) plan_small) (omega arith)

run_requests : answers_plain plan requests ≡ some 10 ∷ none ∷ some 0 ∷ some 0 ∷ []
unfolding answers_plain Timeline.earliest_fit Timeline.reserve Timeline.split_at
    Timeline.subtract_range Timeline.coalesce Timeline.sub_nodes
run_requests = refl
