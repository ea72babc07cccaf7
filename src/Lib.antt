-- ===== src/Lib.antt =====
-- A model of cyberdaemon, a Go library that turns an application into a daemon and controls it: its
-- controllers and daemonizers on Linux with systemd or System V, on macOS and on Windows, and the
-- example program.
--
-- The program has two halves. A controller (control/) installs, removes, starts, stops and asks
-- after a daemon: on Linux by writing one file and running the command line tools of the service
-- manager, on Windows and macOS by calls of packages outside the repository. A daemonizer (the
-- root package) runs inside the daemon. On System V the halves meet in the init.d script, which
-- the controller writes and in which the daemon looks up its PID file.
--
-- Files, and the code that they model:
--   Prelude.antt, Prelude/: shared names, byte texts, results, integers. A Go string is a list of
--     bytes (`Bytes`), an `error` is its text, and `int` is 64 bits wide. Prelude/Effects.antt has
--     code that changes a world and may return an error (`Effect`); Prelude/Keeps.antt follows a
--     property of the world through it, and Prelude/Ensures.antt one of the value that it returns.
--   Text.antt, Text/: what the program uses of the packages strings, strconv and path. The texts
--     of the program's own constants are ASCII, and are written as strings (`codes`).
--   Os.antt: the calls of os, os/exec, os/user and io/ioutil as an interface `Os` over an unknown
--     state. Code that calls it is an `Action`: it takes a `World`, the state with a journal of the
--     calls that change something, and returns a result and a world. Os/Laws.antt states what is
--     relied on of these calls; Os/Plans.antt compares a journal with a plan of calls;
--     Os/Simulated.antt is a small system that keeps the laws, on which the program is run.
--   ServiceManager.antt, ServiceManager/: the calls of golang.org/x/sys/windows and the clock, as an
--     interface `Machine`, with a journal and with the handles that are held.
--   Launchd.antt, Launchd/: the calls of github.com/stephen-fox/launchctlutil, and those of os and
--     os/user that the macOS controller makes, as an interface `Mac`.
--   Osutil.antt, Osutil/: internal/osutil/util_linux.go (`IsSystemd` is `is_systemd`, and so on).
--   Control.antt, Control/Commands.antt: control/common.go. `Controller` is a record of effects
--     over any world, and `execute` is `Execute`.
--   Control/Contract.antt: what a caller may expect of every controller (`IsFaithful`), which
--     Faithful.antt in Control/Systemd/, Control/Systemv/, Control/Windows/ and Control/Darwin/
--     fills, and a caller that gives one command after the other. Control/Linux/Faithful.antt is
--     about whatever `NewController` of Linux returns.
--   Control/Lsb.antt: the reading of exit codes in the two `Status` methods.
--   Control/Systemd.antt, Control/Systemd/: control/controller_systemd_linux.go. The methods of
--     `systemdController` are `status`, `install`, `uninstall`, `start` and `stop`;
--     `newSystemdController` is `new_systemd_controller`, and `runSettings` is `run_settings`.
--   Control/Systemv.antt, Control/Systemv/: control/controller_systemv_linux.go, in the same way.
--     Control/Systemv/Template/ holds the whole init.d template, byte for byte, as literal text
--     and placeholders.
--   Control/Linux.antt, Control/Linux/: control/controller_linux.go.
--   Control/Windows.antt, Control/Windows/: control/controller_windows.go and
--     control/options_windows.go; Control/ServiceStop.antt, Control/ServiceStop/: `stopAndWait` and
--     `defaultServiceStopTimeout` of the same file.
--   Control/Darwin.antt, Control/Darwin/: control/controller_darwin.go; Jobs.antt there says which
--     launchd job a configuration calls for.
--   Daemon.antt: `Host`, what a daemonizer uses of its process and of the application, and the state
--     of a run: the world, the standard logger, and the steps that were taken, the latest first.
--   Daemon/Run.antt, Daemon/Run/: daemon_systemd_linux.go, daemon_darwin.go and daemon_linux.go.
--   Daemon/Systemv/: daemon_systemv_linux.go. Files.antt has `tinyRead`; Parents.antt the search
--     for init.d among the parents, `isInitdOurParent`, `manualParentPid` and `isPidInitd`;
--     PidFile.antt `pidFilePathFromInitdScript`; Handover.antt what the controller's script and
--     the daemon's reading of it make together; Run.antt `RunUntilExit`; Race.antt the PID file
--     between the process that init.d started and the daemon, as interleaved calls.
--   Daemon/Windows.antt, Daemon/Windows/: the `serviceWrapper` of daemon_windows.go;
--     Daemon/WindowsRun.antt, Daemon/WindowsRun/: its `RunUntilExit` and `eventLogWriter`.
--   Filewriter.antt, Filewriter/Stopping.antt, Filewriter/Returning.antt: the application of
--     examples/filewriter/main.go, `Stop` beside `updateFileLoop`, as interleaved steps;
--     Filewriter/Program.antt, Filewriter/Program/: its `main`, and `Start`.
--   Tests.antt, Tests/: runs on simulated systems, and the results at concrete inputs.
--
-- Parameters: `unit.Serialize` of github.com/coreos/go-systemd (`serialize`), and the text of the
-- error of `strconv.ParseUint` (`num_error`), the application, what `svc.Run` makes of a service
-- (`service_run`), and the interfaces `Os`, `Machine`, `Mac` and `Host`.
--
-- Bounds: the loops are structural, over lists of directories, arguments and bytes. The search for
-- init.d has the five rounds of the source. Decimal printing has as much fuel as the number itself,
-- which is more than it has digits. Files of /proc and scripts are read up to 100000 bytes, and a
-- scanned line has less than 64 KiB, as in the source.
--
-- A wait for a signal is a look at whether one is ever received; a program that waits for ever has
-- the exit `waiting`, and a theorem on what it returns says so. The `select` of `stopAndWait` takes
-- its events from a sequence that ends with the timer (`Wakes`): that the timer fires, and that a
-- `select` with the ticker comes to take it, is in that type.
--
-- Not modelled: what the init.d script does when the shell runs it, and the help text and the flags
-- of the example. That a deleted service is gone is a law of the service manager for services that
-- are stopped; handles of other processes, which delay it, are left out.
pub mod Prelude
pub mod Text
pub mod Os
pub mod ServiceManager
pub mod Launchd
pub mod Osutil
pub mod Control
pub mod Daemon
pub mod Filewriter
pub mod Tests
