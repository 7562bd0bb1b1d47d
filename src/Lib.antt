-- ===== src/Lib.antt =====
-- doris-sync copies tables of one Apache Doris cluster to another through Parquet files in a bucket
-- (OUTFILE on the source, INSERT from s3() on the target), and keeps what it has done in an SQLite
-- file, so that a process that was killed can go on.
--
-- The parts, from the inside out:
--   Base        texts, tables (association lists) and actions with errors; lemmas on them
--   Config      config.go: records, filters, partition names
--   Sql         sql.go: the builders of statements; Sql.Quote, Sql.Literal and Sql.Escape read quoted
--               text back; targetDDL and closingParen (Create, with the grammar in Create.Closing)
--   State       state.go, tasks.go, fulltable.go: the rows of the file and the maps in memory;
--               State.Keys is stateKey and splitStateKey; State.Encoding is the JSON of
--               a partition entry, and State.Encoding.Reread reads it back
--   Rows        database.go: rows of a result as maps from normalised headers
--   World       the state of a run, and the calls that leave the program
--   Store       objectstore.go: prefixes, list, clear
--   Database    database.go: metadata queries, ranges of partitions, matchTargetPartition
--   Clock       Go's time for a location, and the other parameters (SHA-256, regular expressions)
--   Columns     the checks on columns of hourly.go, incremental.go and main.go
--   SyncState   state.go: the save operations, and the loading of the rows by openState
--   Hourly      hourly.go: syncHourlyTable (Hourly) and syncHourlyWindow (Hourly.Window); the order
--               of checkpoints and imports (Protocol, with the proofs in Exports, Steps, Run and Table),
--               many
--               processes (Once), an abstract machine for them (Chain), the end of the loop (Fuel,
--               Ends), interrupted imports (Unknown), windows that complete (Answers, Completes)
--   Partition   main.go: syncPartition (Full); its records and statements (Announce, with the
--               proofs in Order and Imports); incremental.go: the time-window mode (Delta)
--   Tasks       tasks.go, and the tasks of fulltable.go: registration, results, the marks of the file
--   Targets     main.go, fulltable.go: the creation of a target table that is missing
--   FullTable   fulltable.go: syncFullTable
--   Cycle       main.go: ensureTargetTable (Ensure), syncTable (Table), maybeScanCompleted (Scan)
--               and cycle; what they send and save in Prepares, Sends, Plans, Guard and Imports
--   OverwritePlan  overwrite_plan.go: the checks of a plan and its execution
--   HourlyCycle hourly.go: cycleHourly, and cycleManagedHourly (Managed), which runs the tasks
--   Start       config.go: loadOptions (Load); main.go: run, from the flags (Flags) to the state
--               file and the loop over the cycles (Session)
--   Status      status.go: readStatus, with the partitions in Status.Partitions; its numbers in
--               Status.Tallied and Status.Counts, its times in Status.Due
--   TaskStatus  taskstatus.go: the comparison of a day and of a whole table
--   TaskCommand taskcli.go: runTaskCommand, over Tasks, Status, TaskStatus and Start.Load
--   Tests       data, and runs at concrete inputs (Tests.Values, Tests.Runs, Tests.Starts)
-- World.Keeps has the rules by which a statement about the history is carried through the calls that
-- the components share; Cycle and OverwritePlan use it for what may be sent to the target.
--
-- State and failures. A `World` holds the SQLite file, the maps in memory, the number of calls that
-- have left the program and the history of what they did. What the databases, the bucket, the file
-- system, the clock and the context answer is an `Env`, a parameter: at each call any value, an
-- error, or the end of the process in that call. A statement counts as sent also when the process
-- dies in it; a write to the file is all or nothing. A Go method is an action `World → Result ×
-- World`; a method that mutates a record through a pointer is an action on the map in memory
-- (partition entries) or passes the record on (hourly checkpoints). The processes of a deployment
-- follow one another: `Processes` in Hourly.Once runs the table any number of times, with a new
-- memory in between.
--
-- Loops. The endless loop of syncHourlyTable has fuel: a run that uses it up returns `none`, which
-- the code never does; each round takes an hour off the time that is left up to the clock. Loops
-- over lists are structural; the three attempts of queryMetadata are counted down; the search for
-- range keys has the length of the text as fuel, and each round takes a character. The loop of a
-- service over its cycles (serve in Start.Session) has the number of its rounds as fuel and answers
-- `none` behind them, as a service that is still running. Within a cycle of the hourly mode, a table
-- that uses up its fuel ends like a process that was killed; with one unit more than the clock has
-- hours this does not happen.
--
-- Numbers are times in seconds and counts, far from 2^63; the row counts of taskstatus.go wrap as
-- int64 values do, with a difference in two's complement below 2^64. Texts are sequences of code
-- points. Letters outside ASCII keep their case, and error texts keep their fixed part only.
--
-- Not modelled: main with its flag package, the lock file, the signals, the wait between two cycles
-- and logging (main.go); opening of connections and of the client of the bucket, and
-- session statements (a call of the driver stands for them); the directory and the mode of the state
-- file, and the columns of partition_state that are only written; the text of JSON, whose values are
-- kept by tag for partition entries and as decoded for hourly checkpoints; the counters
-- of `stats` but for failures; the matchers of regular expressions in sql.go, parameters; the
-- percentage of a report, a float, and reports on files that lack a table (status.go).
pub mod Base
pub mod Config
pub mod Sql
pub mod State
pub mod Rows
pub mod World
pub mod Store
pub mod Database
pub mod Clock
pub mod Columns
pub mod SyncState
pub mod Hourly
pub mod Partition
pub mod Tasks
pub mod Targets
pub mod FullTable
pub mod Cycle
pub mod OverwritePlan
pub mod HourlyCycle
pub mod Start
pub mod Status
pub mod TaskStatus
pub mod TaskCommand
pub mod Tests
