-- ===== src/Lib.antt =====
-- libfranka: the client library of the Franka robots. A client program holds a `Robot`, which talks to
-- the robot over two channels: commands and their responses over TCP, and the states of the robot and
-- the commands of a motion over UDP, one datagram of each every millisecond.
--
-- The parts and their files:
--   * Interface: the wire types of common/include/research_interface/robot (rbk_types.h,
--     service_types.h, service_traits.h). A mode byte is one of its enumerators; a status byte is
--     decoded, a byte without enumerator included. `WireState` and `WireCommand` are the structs
--     `RobotState` and `RobotCommand` there.
--   * Robot: `Robot::Impl` of src/robot_impl.h and src/robot_impl.cpp. The object is the record `Impl`;
--     a method is a function from the object to a result and the object (Prelude/Effects), where an
--     exception leaves the object as it was changed so far. The connection is the parameter `Network`,
--     a record with the operations that `Robot::Impl` calls, over any type of states.
--     Robot/Responses has `handleCommandResponse`, Robot/Channel `sendRobotCommand`,
--     `receiveRobotState`, `update` and `readOnce`, Robot/Commands the checks of commands, `writeOnce`,
--     `executeCommand` and `throwOnMotionError`, Robot/Motions `startMotion`, `finishMotion` and
--     `cancelMotion`, Robot/Construct the constructor with the handshake of src/network.h. The other
--     files below Robot have the proofs.
--   * ActiveControl: src/active_control.cpp, src/active_motion_generator.cpp and
--     src/active_torque_control.cpp, which drive `Robot::Impl` while they hold the control mutex.
--   * Logger: src/logger.cpp, the ring of the last states and commands that `update` fills and that
--     `finishMotion` and `throwOnMotionError` read.
--   * ControlTools: the checks of include/franka/control_tools.h. ControlTypes:
--     include/franka/control_types.h. RobotState: include/franka/robot_state.h and
--     `convertRobotState`. LoadCalculations: src/load_calculations.cpp. Duration: src/duration.cpp.
--     Exceptions: include/franka/exception.h.
--   * RateLimiting: src/rate_limiting.cpp, every overload of `limitRate`, and the limits of
--     include/franka/rate_limiting.h. LowpassFilter: src/lowpass_filter.cpp. Geometry: the vectors,
--     rotations and poses of Eigen that both call, a parameter.
--   * ControlLoop: src/control_loop.h, src/control_loop.cpp and src/motion_generator_traits.h. Convert
--     has `convertMotion` for the four types of motions, Loop `spinMotion`, `spinControl` and
--     `operator()` over `RobotControl` (src/robot_control.h), a record that `Robot::Impl` fills, and
--     Construct the constructors. A callback is a method over a state `U` of the user, so that it may
--     throw and remember; a `Session` is the robot and that state.
--   * RobotApi: src/robot.cpp and include/franka/robot.h. Lock has the control mutex, a flag, and the
--     locks around a block; Calls the operations under the lock, with the blocks that construct and run
--     a `ControlLoop`, and the starts of an active control; Settings the commands without a lock. Steps
--     has threads that use one robot: what runs under the lock, the active controls that live, and
--     their steps in any order, each block of an operation as one step.
--   * Tcp: the TCP half of `Network`, src/network.h, over a socket of the library Poco. Channel has
--     `tcpReadFromBuffer` with the maps that it fills, Responses the requests and the two ways to
--     receive a response; Frames, Headers and Reads have the proofs on one read, Steady, Messages and
--     Arrival those on a connection that keeps delivering.
--   * Device, Gripper and VacuumGripper: src/gripper.cpp and src/vacuum_gripper.cpp, with the types of
--     common/include/research_interface/gripper and vacuum_gripper. Device has what both files say in
--     the same words. ControlTypes/FromLists: the constructors of src/control_types.cpp.
--   * Udp: the datagrams of `Network`, over a socket of Poco. Connection: both channels together, which
--     fill the record `Network` that `Robot::Impl` takes.
--   * Model: src/model.cpp over the functions of src/libfcimodels.h, and the way of the library from the
--     robot through a file (src/library_downloader.cpp, src/library_loader.cpp, src/model_library.cpp);
--     Connection/Library has `loadModel` on the TCP channel.
--   * Printing: `Errors` as text (src/errors.cpp, with the names of
--     common/include/research_interface/robot/error.h), the states as text (src/robot_state.cpp,
--     src/gripper_state.cpp, src/vacuum_gripper_state.cpp) and the log as CSV (src/log.cpp). A text is
--     the list of its codes.
--
-- Numbers: `uint64_t` wraps in `Duration` and in the count of lost packets; a message id is a natural
-- number, since it is only compared, and so is the size of a message, below 2 ^ 31 for the casts to
-- `int` in src/network.h. `double` is a type with the operations that the code uses
-- (Prelude/Floats), and Eigen a record of the matrix operations it is called for. Only the bounds of
-- RateLimiting assume something of either: that the comparisons of values other than NaN are an order.
--
-- Loops: a loop that waits for the network takes fuel and is `running` when it has used it up,
-- which is neither a result nor an exception. `fuel` counts datagrams and `rounds` the rounds of a
-- loop of `startMotion`, `finishMotion` or `cancelMotion`, each of which may use `fuel` datagrams.
-- More fuel than there are datagrams on the socket is enough for `receiveRobotState` when one of
-- them is newer than the last accepted state; how long the robot may take to send one, or to stop,
-- is not bounded by the code. A control loop takes `cycles`, one for each state that it handles;
-- how many are enough depends on the callbacks, and is stated by a measure of the user's state.
-- `read` takes `cycles` too, and the blocking receive of a response fuel for its reads; more reads
-- than bytes to come are enough on a socket that keeps delivering.
--
-- Not modelled: the calls of Poco that connect the sockets and close them, the wait for a mutex of
-- `Network` that another thread holds, the move operations of `Robot`, and the interleaving of
-- threads inside one call. What the operating system says of the thread and the kernel is the
-- parameter `System`, and the layout of the messages in memory is the record `Layout`.
pub mod Prelude
pub mod Interface
pub mod Duration
pub mod Geometry
pub mod LoadCalculations
pub mod RobotState
pub mod ControlTypes
pub mod Exceptions
pub mod Logger
pub mod ControlTools
pub mod RateLimiting
pub mod LowpassFilter
pub mod Robot
pub mod ControlLoop
pub mod RobotApi
pub mod Tcp
pub mod Device
pub mod Gripper
pub mod VacuumGripper
pub mod ActiveControl
pub mod Model
pub mod Printing
pub mod Udp
pub mod Connection
pub mod Tests
