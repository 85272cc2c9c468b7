-- ===== src/Lib.antt =====
-- OptiPilot AI: a Kubernetes optimizer that scores scaling plans against objectives and CEL policies,
-- applies the chosen one behind safety checks, and coordinates several clusters from a hub.
--
-- Parts and files (paths from the repository's root):
-- Prelude: shared names, integers with the wrap-around of int32, maps, float64 as an interface.
-- Engine (internal/engine) and Cel (internal/cel): one cycle for one service. `solve` of Engine/Solver
--   is Solver.Solve: candidates (Engine/Candidates, Engine/Cost), scores (Engine/Scorer), the CEL
--   constraints (Engine/Constraints, Cel), the Pareto front and the choice from it (Engine/Pareto, whose
--   double loop is Engine/Dominance), the action and the decision record;
--   Engine/Signals is advanced_signals.go.
-- Actuator (internal/actuator): the data of interface.go in Actuator/Types and the SafetyGuard of safety.go
--   in Actuator/Guard: `check_cooldown`, `check_circuit`, `record_outcome`, `allow` and the others are its
--   methods. Actuator/Pipeline is actuate of internal/controller/optimizer_controller.go, which passes the
--   engine's actions through the guard, has them applied and records the outcome.
-- Global (internal/global): the hub. Directives are Global/Messages (grpc/messages.go); Global/Lifecycle is
--   the LifecycleManager of lifecycle.go, where `begin_hibernate`, `hibernate_calls` and `end_hibernate` are
--   the steps of executeHibernate, and the same for executeWakeUp with `forget_idle` as its last; Global/Snapshot has the reads of both
--   over clusters; Global/Solve is Solve of solver.go and Global/Hibernation its solveLifecycle, whose
--   directives the manager executes.
--   Global/Weights has the traffic weights: `scores_to_weights` and what leads to it from solver.go, and
--   `clamp_weights` of traffic.go.
--
--   Global/Hub is the MemoryHubService of grpc/hub_server.go, from which a spoke fetches its directives and
--   to which it reports; Global/Spoke is the agent of spoke/agent.go, and Global/Spoke/Connected the two
--   together, over a network that may lose requests and answers.
-- Tuning (internal/tuning): the optimizer of optimizer.go. Tuning/Grid is GenerateGrid, Tuning/Choice what
--   the observations lead to, Tuning/Cycle RunCycle with its guards; `generate_grid` runs on maxPoints + 1
--   rounds of fuel, which is enough because the loop stops at its cap.
-- Tenant (internal/tenant): quotas (quota.go), the fairness index (fairness.go), the fair shares of
--   fairshare.go, with its ten rounds, the noisy neighbour detector (noisy_neighbor.go) and the manager of
--   profiles and usage (manager.go).
-- Storage (internal/storage): the recommender of recommender.go.
-- Accuracy (internal/forecaster): the AccuracyTracker of accuracy_tracker.go; when it puts a service in
--   fallback is in Accuracy/Fallback.
--
-- Conventions. float64 is a type with the operations of Prelude/Float; a theorem that needs the order
-- of IEEE 754 takes it as the hypothesis IsOrdered, which Prelude/Thousandths meets. `int` and `int64`
-- are unbounded integers, an int32 result is wrapped where the code can leave the range. A time is a
-- number of nanoseconds. A Go map is an association list whose order is one order that `range` may
-- take. Locks are left out: each method is one step, and where the code releases its lock between
-- steps the steps are separate.
--
-- Hypotheses on what is not code of the repository, in addition to IsOrdered: sort.Slice keeps the elements
-- and orders them when its test is a strict weak order on them (Prelude/Sorting, met by insertion sort), and
-- the fair shares need the sums with 0 and the signs of differences of IEEE 754 (`Differences` of
-- Tenant/Shares/Guarantee, met by Prelude/Thousandths).
--
-- Parameters: cel-go, math/rand, sort.Slice, uuid.New, the Kubernetes client, the hub's scaler, drainer,
-- tenant locator and forecaster, math.MaxFloat64, the clock, the ID generator, strconv,
-- the SLO fetcher, the applier of a parameter and the result of applying an action are arguments of the definitions that use them.
--
-- Not modelled: the patching and rollback of traffic shifts, the canary; HTTP and gRPC
-- transport, Kubernetes reconcilers, Prometheus queries, the SQLite journal, the Python ML service, the dashboard; the texts of log messages.
pub mod Prelude
pub mod Engine
pub mod Cel
pub mod Actuator
pub mod Global
pub mod Tuning
pub mod Tenant
pub mod Storage
pub mod Accuracy
