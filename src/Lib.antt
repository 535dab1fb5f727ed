-- ===== src/Lib.antt =====
-- Opera predicts collisions between humans and robots at run time: the states of the bodies are
-- received as messages, the samples of each robot mode are kept as a history, and look-ahead jobs
-- go through the modes that are predicted to follow, looking for a sample of the robot that meets
-- one of the human. A job keeps its findings as a sequence of minimum distance barriers, so that it
-- can be resumed for a later human sample instead of starting again.
--
-- The modules, with the code that they model (paths from the root of the repository):
--
-- - Prelude: shared names. Prelude.Results has the exceptions of include/macros.hpp and of the
--   standard containers as values, and do blocks over them; Prelude.Lists the containers, measured
--   by native numbers; Prelude.Texts std::string as its bytes. Prelude.Doubles is the interface to
--   the machine's floating-point numbers, which are a parameter: a type with the comparisons that
--   the code makes, and, as a hypothesis of the theorems that need it, the order that they have on
--   values that are no NaN. Prelude.Millimetres is a value of that parameter.
-- - TraceSampleRange: include/trace_sample_range.hpp, src/trace_sample_range.cpp.
-- - Barrier: MinimumDistanceBarrier of include/barrier.hpp and src/barrier.cpp.
-- - Section: MinimumDistanceBarrierSequenceSectionBase of the same files. The two distances that
--   its subclasses define are the parameter SectionKind. Section.Reset has `_reuse_element` and
--   `reset` with their loops.
-- - Sequence: MinimumDistanceBarrierSequence of the same files, with its three update policies.
-- - Mode: Mode of include/mode.hpp and src/mode.cpp, a std::map as the list of its entries in order.
-- - ModeTrace: ModeTrace of the same files; what it does with likelihoods is a parameter.
--   ModeTrace.Next has `next_modes` and `merge`.
-- - History: HumanStateHistory and SamplesHistory of include/state.hpp and src/state.cpp. The samples
--   of an instance are an argument.
-- - Geometry: points, boxes and spheres of include/geometry.hpp and src/geometry.cpp, the distances
--   (Geometry.Segments) and the medians (Geometry.Median). Prelude.Arithmetic is the interface to
--   the arithmetic of doubles, with what the theorems need of it as a hypothesis.
-- - Bodies: include/body.hpp, src/body.cpp; Bodies.Sample has the samples of segments.
--   Section.Kinds has the distances of the two kinds of sections on them.
-- - Intervals: include/interval.hpp, on SizeType.
-- - RobotHistory: RobotStateHistory of include/state.hpp and src/state.cpp; RobotHistory.Snapshot has
--   the methods of a snapshot, which is a history and a time, RobotHistory.Acquiring has `acquire`.
-- - Queue: include/synchronised_queue.hpp. Queue.Workers has the loop of the threads that
--   src/runtime.cpp starts, as a step relation on the queue and what the threads hold.
-- - JobPath, JobIdentifier: LookAheadJobPath and LookAheadJobIdentifier of
--   include/lookahead_job.hpp and src/lookahead_job.cpp.
-- - JobRegistry: include/lookahead_job_registry.hpp, src/lookahead_job_registry.cpp. A set of
--   children is a list in the order of the priorities, a map an association list whose keys are
--   compared as std::map does, by `operator<`. Each call is one step, as the mutexes make it.
-- - LookAhead: the jobs of include/lookahead_job.hpp and src/lookahead_job.cpp, with their searches
--   (LookAhead.Searching). LookAhead.Creating, LookAhead.Awakening and LookAhead.Factories have
--   include/lookahead_job_factory.hpp and src/lookahead_job_factory.cpp.
-- - BodyRegistry: include/body_registry.hpp, src/body_registry.cpp, and the messages that it takes
--   of include/message.hpp.
-- - Receiver: RuntimeReceiver of include/runtime_io.hpp and src/runtime_io.cpp. Its handlers are
--   functions on one state, which holds the registry and the jobs of both queues too.
-- - Runtime: RuntimeConfiguration of include/runtime.hpp and src/runtime.cpp; Runtime.Processing has
--   `_process_one_working_job`, one step on the receiver's state, the counts and the notifications.
-- - CommandLine: include/command_line_interface.hpp, src/command_line_interface.cpp. The calls of
--   the logger, which is a library, are recorded as effects.
--
-- A method that changes its object returns the new one, and Result says how the call ends: with a
-- value, or in an exception. After an exception the object is not modelled. An access to an end of
-- an empty container, which C++ leaves undefined, is the error `undefined`.
--
-- Numbers of type SizeType and TimestampType are natural numbers; where a difference can wrap
-- around in the code (`update_with`) it is written with its modulus. Counts and sums of sizes are
-- taken not to reach 2 ^ 64. An int has 32 bits: what std::stoi, a parameter, returns is below
-- 2 ^ 31, and its conversion to an unsigned int is written with the modulus.
--
-- The while loops take fuel: one more than the length of the container that they shorten, one more
-- than the trace index that they run up to, one more than the interval that the search halves, one
-- more than the entries of two modes together, one more than the arguments, one more than the
-- entries of a trace. The loop of `geometric_median` makes the 200 iterations of the code at most.
-- Each round takes one away from what is counted, so that the rounds outlast the loop.
--
-- Not modelled: the sending of notifications, the brokers and topics; printing to streams,
-- logging, the waiting on condition variables, serialisation, the access to Kafka and MQTT.
pub mod Prelude
pub mod TraceSampleRange
pub mod Barrier
pub mod Section
pub mod Sequence
pub mod Mode
pub mod ModeTrace
pub mod History
pub mod Queue
pub mod JobPath
pub mod JobIdentifier
pub mod JobRegistry
pub mod CommandLine
pub mod Geometry
pub mod Bodies
pub mod Intervals
pub mod RobotHistory
pub mod LookAhead
pub mod BodyRegistry
pub mod Receiver
pub mod Runtime
