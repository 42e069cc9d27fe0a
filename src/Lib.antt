-- ===== src/Lib.antt =====
-- Tobiko: a library for cloud test cases. This development models its core, the package
-- tobiko/common, and what stands on it: the ping generator of tobiko/shell/ping, the processes and
-- the reboot of tobiko/shell/sh, the search of log files of tobiko/shell/files, and of
-- tobiko/openstack the Heat stacks, the quotas and the shared resources. It states what makes each
-- part correct.
--
-- The parts and the files that model them:
-- - Time: tobiko/common/_time.py, readings of time values and the bounds of several.
-- - Retry: tobiko/common/_retry.py. Retry/Rules.antt has the rules by which the loops of the other parts
--   are proved. Retry.antt has the options, the attempts and their limits;
--   Retry/Loop.antt the generator Retry.__iter__ joined with the for loop that consumes it, and the
--   wrapper of retry_on_exception.
-- - Select: tobiko/common/_select.py, selections by attributes, unique objects.
-- - Exceptions: tobiko/common/_exception.py, the walk of a MultipleExceptions and its handling.
-- - Fixture: tobiko/common/_fixture.py. Fixture/Shared.antt has SharedFixture, Fixture/Manager.antt the
--   FixtureManager, Fixture/Setup.antt setup_fixture, which handles exceptions as Exceptions does.
-- - Cached: tobiko/common/_cached.py, a property that keeps its value in the object.
-- - Skip: tobiko/common/_skip.py, the wrapper of the skip decorators.
-- - Operation: tobiko/common/_operation.py, operations that run once; their tests are skipped with Skip.
-- - Version: tobiko/common/_version.py, ranges of versions.
-- - Case: tobiko/common/_case.py, the stack of running test cases, and forwarded results.
-- - Detail: tobiko/common/_detail.py, details gathered under unique names.
-- - Shelves: tobiko/common/_shelves.py, the tests that share a resource.
-- - Loader: tobiko/common/_loader.py, objects found by their dotted names, and the cache of them.
-- - Process: tobiko/shell/sh/_process.py, the command, the exit status and the end of a process, and the
--   restart of an external one.
-- - Reboot: tobiko/shell/sh/_reboot.py, the order to reboot a host and the wait for it, on Retry.
-- - Table: tobiko/common/_tabledata.py. Table.antt has the class TableData, its validation and its
--   constructor, Table/Editing.antt the methods that change a table, Table/Reading.antt those that read
--   it, Table/Csv.antt tables from columns and from lines, Table/Printing.antt the printed text. Rows that
--   fit a schema are in Table/Fitting.antt and Table/Renaming.antt, what is made of lines in
--   Table/Lines.antt.
-- - Ping: tobiko/shell/ping. Ping/Statistics.antt has PingStatistics, Ping/Rounds.antt the generator
--   iter_statistics and get_statistics, which read the clock of Retry, Ping/Parameters.antt the sizes of
--   packets, Ping/Merging.antt the defaults of parameters, Ping/Errors.antt execute_ping and the errors
--   it reads, Ping/Hosts.antt the hosts that answer, Ping/Until.antt the functions for one type of
--   message, Ping/Asserting.antt the assertions on statistics.
-- - Heat: tobiko/openstack/heat/_stack.py. Heat/Waiting.antt has the waits for the status of a stack,
--   whose rounds are those of Retry, and Heat/Creating.antt create_stack, which uses them. What ensures
--   its results is in Heat/Submitting.antt and Heat/Created.antt, what ends it in Heat/Ending.antt,
--   Heat/Disappearing.antt and Heat/Completing.antt.
-- - Quota: tobiko/openstack/nova/_quota_set.py and tobiko/openstack/neutron/_quota_set.py, the loops
--   that raise limits, on Retry.
-- - Resource: tobiko/openstack/base/_fixture.py, resources that tests share, counted by Shelves.
-- - Logs: tobiko/shell/files/_logs.py, the lines found in log files, and which of them are new.
-- Prelude has what they share: Boolean tests, the results of code that raises, dictionaries.
--
-- Objects are records and a method returns the changed object beside its result; an exception is an
-- err of Result, with the state that the code left. Functions that the code takes as arguments, and the
-- libraries it calls (fixtures, testtools, unittest, packaging, the ping command, the clients of
-- OpenStack, the clock), are parameters.
--
-- Times are natural numbers of ticks of the clock, where the code has floats. Differences of times are
-- cut off at 0: the clock does not go back wherever a theorem needs that.
--
-- Loops take fuel, and none means that it ran out. A retry loop with a count needs one round more than
-- the count, one with a timeout and no count needs timeout + 1 rounds that take time; the generator of
-- pings, and a wait for a stack, needs timeout + 2 rounds; a reboot 61 for each of its loops, whose
-- default count is 60; the walk of exceptions needs the size of the
-- tree; the search for the name of a detail needs two rounds more than there are details.
--
-- Left out are the texts of messages, logging, tracebacks and the representation of objects; the
-- discovery of required fixtures and operations in a class; and the parts of the program that reach
-- remote services and hosts, which are wrappers of other programs.
pub mod Prelude
pub mod Time
pub mod Retry
pub mod Select
pub mod Exceptions
pub mod Fixture
pub mod Ping
pub mod Cached
pub mod Skip
pub mod Operation
pub mod Version
pub mod Case
pub mod Detail
pub mod Shelves
pub mod Loader
pub mod Table
pub mod Process
pub mod Reboot
pub mod Heat
pub mod Quota
pub mod Resource
pub mod Logs
