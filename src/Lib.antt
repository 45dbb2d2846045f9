-- ===== src/Lib.antt =====
-- A model of the scheduling core of DR_EVT (src/sim), and the theorems that make it correct.
--
-- The program simulates the job scheduler of a cluster. The driver (src/sim/sim.cpp) moves a clock
-- from event to event: ends of jobs and releases of nodes in the queue of the trace (src/trace),
-- arrivals, and changes of the capacity. A scheduler owns a wait queue. On each pass
-- the simulation hands it the free nodes, the running jobs and the current time, and it returns the
-- jobs to start. To decide which jobs may pass a blocked queue head it projects the free nodes over
-- time (SchedulerBase::reservation_timeline), finds the head's reservation in that projection,
-- reserves it, and starts a job behind the head only if its whole interval still fits.
--
-- Which file models which part:
--   Base, Base/Lists, Base/Tests, Base/Int: shared names, list lemmas, Boolean tests, integers.
--   Timeline: Reservation_Timeline (src/sim/scheduler_base.hpp): split_at, earliest_fit, can_fit,
--     reserve. Its children: Free (the free nodes at each time), Spec (the contract of a search),
--     Fit, Split, Reserve and Safe (the proofs), Tests.
--   SearchCache: Reservation_Search_Cache (src/sim/reservation_search_cache.hpp); Refine and Run.
--   Scheduler: SchedulerBase (src/sim/scheduler_base.hpp and .cpp); Policy has the enumerations of
--     src/sim/scheduler_policies.hpp, Project the proofs about the projection (Net, Rise), Outlook
--     what it shows in terms of the jobs and the capacity changes.
--   Deque: the members and methods of the deque-backed queue (src/sim/scheduler_fcfs_easy_deque.hpp
--     and .cpp), one function for each method and each loop of schedule; Invariant and Front.
--   EasyDeque: FCFSEasyDequeScheduler::schedule (src/sim/scheduler_fcfs_easy_deque.cpp); Scanning,
--     Correct, Guarantee and Steady. Deque/Keeps, Pass and Plan are the proofs that both deque-backed
--     schedulers share.
--   HybridDeque: FCFSHybridDequeScheduler (src/sim/scheduler_fcfs_hybrid_deque.hpp and .cpp); Backfill
--     is its scan, Window the method calculate_hybrid_window, Queue the methods that only touch the
--     queue. Walk says what a pass starts and reserves, without its plans. Rounds is the induction over
--     the scan; Correct, Ledger, Agrees, Follow and Guarantee, Depth, Accounting and Budget are the proofs.
--   BlockQueue: BlockWaitQueue (src/sim/block_wait_queue.hpp); Backfill is its search. Flat is the
--     view as one list, Blocks lookup and removal, Search and Candidate the search, Insert and Iterate
--     the rest.
--   Factory: create_scheduler (src/sim/scheduler_base.cpp); Choices has its arguments and results, Block
--     the choice of the block size, Sound and Accepts the proofs.
--
--   Events: the event kinds, events and their ordered queue (src/dr_evt_types.hpp,
--     src/trace/dr_event.hpp); Compare what the comparison decides, Order the proofs about the queue.
--     A std::set is the list of its entries in their order; its insertion is written out.
--   Trace: the job records and the state of the trace (src/trace/job_record.hpp, src/trace/trace.hpp);
--     Output what is written and reclaimed, Append how jobs enter the store, Step insert_job, the
--     processing of events and the loops over them (src/trace/trace.cpp). Store (lookup and write),
--     Flush, Appended, Ledger (what a well-formed trace is), Edit, Settle, Process, Depart,
--     Release, Start and RunStart are the proofs.
--   Simulation: the members of the driver (src/sim/sim.hpp), and the scheduler's methods as a record of
--     functions; Running (its maps), Capacity, Submit, Append, Start and Advance are its methods, the
--     last two with the parts of advance_to_impl (src/sim/sim.cpp). Contract states what the driver
--     relies on of a scheduler, Invariant what a well-formed simulation is. Launch, Started, StartOne,
--     StartAll and Scheduling prove the calls of the scheduler, Handle and Drain the events at one time,
--     Arrivals and Move the move of the clock, Sampled and Change the capacity changes, Loop and Select one round of the
--     main loop, Total and Entry the whole, Submission, WithRecord, Queries and Appending the submission of a job. Queue and
--     Easy put FCFSEasyDequeScheduler behind the interface; Examples applies the theorems on the
--     trace and the driver at concrete inputs.
--   Base/Results and Base/Sums: computations that may throw, and sums over lists.
--
-- How the model reads the program:
--   Times and durations are `double` seconds in the source and natural numbers of ticks here, so that
--     sums are exact; std::numeric_limits<double>::max() is the whole number 2^1024 - 2^971.
--   Node counts are `unsigned`: where the source subtracts with no guard, the wrap-around is written
--     out (sub_nodes). Where a guard stands before the subtraction, it is the subtraction of ℕ.
--   The signed balance of a projection is an unbounded integer in place of int64_t.
--   Iterators are suffixes or indices of lists; std::sort and std::lower_bound are written as the
--     functions that they are on their inputs. std::prev at the first segment is undefined in the
--     source and stays at the first segment here; every theorem about a search asks that the timeline
--     has begun by then.
--   An exception is the value none in the schedulers and a value of Thrown in the trace and the driver;
--     the state behind it is not modelled.
--   Times of job records (epoch_t) are whole seconds in one number; the random release delay is a
--     function of the number of delays drawn and of the nodes.
--   advance_to_impl is modelled without resource accounting, warm start and periodic backfill. The parts
--     of the two loops that call the scheduler are functions of their own, as are the branches of the
--     main loop.
--   The builds modelled have no DR_EVT_LEGACY_RESERVATION_BARRIER; calculate_hybrid_window and
--     find_and_remove_backfill_candidate, which only the builds with it call, are modelled as well.
--   Loops of the schedulers are structural recursion, or have the length of their list as fuel; the
--     theorems on their results show that this is enough. The loops of the driver and the trace run on
--     fuel: the calls of the scheduler need four rounds more than there are pending jobs, the events at
--     one time one more than twice the running and once the releasing jobs, and the main loop six more
--     than Simulation.Loop.work, which counts the pending jobs, their arrivals, the events and the
--     capacity changes.
--
-- Not modelled: the periodic and warm-start variants of the event loop, checkpoints, the memory-pressure
-- check, Redis output, parsing and formatting of rows, the gRPC service, the bindings, and the estimate
-- of prediction_horizon, which divides floating-point numbers.
pub mod Base
pub mod Timeline
pub mod SearchCache
pub mod Scheduler
pub mod Deque
pub mod EasyDeque
pub mod HybridDeque
pub mod BlockQueue
pub mod Factory
pub mod Events
pub mod Trace
pub mod Simulation
