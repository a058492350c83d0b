-- ===== src/Lib.antt =====
-- Verification of the Python tools that the app manager ships under ADB/systrace/catapult.
--
-- Parts. `dependency_manager` finds files: configs name, for a dependency and a platform, local
-- paths and an object of cloud storage; a manager joins the configs and fetches paths; a writable
-- config records updates and uploads them. `devil` drives a device: its flag changer writes the
-- command line of a browser to a file and restores it; its shared preferences are read from the
-- device, changed and committed; its forwarder maps ports of devices to ports of the host; it reads
-- the output of commands by lines; and it retries and waits within timeouts. `battor` talks to a
-- power monitor by a shell, for which it waits with `py_utils`. `systrace` starts and stops a set
-- of tracing agents and collects their results, `py_trace_event` is the log that Python code
-- writes its own trace events to, and trace data holds the results. Where one part calls another
-- its model does: battor waits by the wait of py_utils, and the waits of devil ask its watchdog.
--
-- Files, and what they model below ADB/systrace/catapult:
--   Devil/Flags/Text: _ParseFlags, _SerializeFlags and _QuoteFlag of
--     devil/devil/android/flag_changer.py, on bytes; Strip and Sets: str.strip and Python's sets;
--     Changer: FlagChanger and CustomCommandLineFlags, a function of the state each.
--   Devil/SharedPrefs: devil/devil/android/sdk/shared_prefs.py; Elements are BasePref and its
--     subclasses, Collection the reads and writes of SharedPrefs, Commit what talks to a device.
--   Devil/Forwarder: the port maps of devil/devil/android/forwarder.py; Inverse, Cleared and Steps
--     are what holds of them.
--   Devil/CmdOutput: _IterCmdOutputLines of devil/devil/utils/cmd_helper.py, on bytes.
--   Devil/Retry: Run of devil/devil/utils/timeout_retry.py, and TimeoutDeco of
--     common/py_utils/py_utils/__init__.py; its child Wait: WaitFor and GetRemainingTime of
--     timeout_retry.py, and devil/devil/utils/watchdog_timer.py.
--   PyUtils: WaitFor of common/py_utils/py_utils/__init__.py; Clock is the time it goes by.
--   Battor: common/battor/battor/battor_wrapper.py; Wrapper is the object and its shell, its child
--     Session flashing and tracing, and Running what the methods keep.
--   Dependency/LocalPaths, Dependency/Uploader, Dependency/Remote, Dependency/Info:
--     local_path_info.py, uploader.py, archive_info.py with cloud_storage_info.py, and
--     dependency_info.py of dependency_manager/dependency_manager.
--   Dependency/Config: base_config.py; Data is its json data, Platform the access to it, Jobs the
--     update jobs, Infos what a manager reads.
--   Dependency/Manager: manager.py.
--   Systrace/Controller: systrace/systrace/tracing_controller.py; Calls is the row of calls that
--     the agents get, which they write down.
--   TraceEvent/Log: common/py_trace_event/py_trace_event/trace_event_impl/log.py; its globals are
--     the fields of State.
--   TraceData: tracing/tracing/trace_data/trace_data.py; Handle are the traces on disk, Builder the
--     collection as it is made, Traces what reads and cleans it, Create is raw json data.
--   Base: Boolean tests, lists and dicts. Tests, below each part: concrete instances.
--
-- An exception is a value of a result type, or `none` where only one kind is told apart. Objects
-- that Python changes in place are passed and returned. A device, cloud storage and the host with
-- its file system are records of functions, and what the code relies on is a record of laws for
-- each; the tests give an instance. The calls of the flag changer on its device are taken to return,
-- and so are the lock and the writes of the trace event log. Agents, one try of Run, the parsers
-- and printers of json and xml, a process's output and thread idents are parameters too. Python's
-- iteration over a set is any function that keeps the members, and dicts are iterated over in the
-- order of insertion.
--
-- Loops are recursions on their lists; the retries of PrefetchPaths are one on the rounds left,
-- cloud_storage_retries + 1 at first, and those of Run one on the retries left. The loops
-- that wait are on fuel: WaitFor of py_utils has a round for each tenth of a second of its timeout
-- and three more, which is enough on a lawful clock since each sleep takes a tenth of a second at
-- least; WaitFor of devil is on the number of its tries, and where that is not bounded on any
-- number that reaches past the deadline of its thread group.
--
-- Not modelled: what each agent does; the registration of handlers with atexit; log lines and
-- the text of exceptions; the json text of a config; file locks and the threads that share an
-- object; the conversion of traces to html; the tools that are device commands, input
-- and output; the third-party copies of pyserial and zipfile; and the app itself, which is Java.
pub mod Base
pub mod PyUtils
pub mod Devil
pub mod Battor
pub mod Dependency
pub mod Systrace
pub mod TraceEvent
pub mod TraceData
