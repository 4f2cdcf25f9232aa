-- ===== src/Lib.antt =====
-- A model of parts of the ailes node daemon, the program that runs game servers in containers, with
-- the theorems that make these parts correct. Paths are from the repository's root.
--
-- The parts and where they are modelled:
-- * Usage, application/src/server/filesystem/usage.rs: the tree of directory sizes that the disk
--   limit is checked against. Usage.Space has the two counters with their saturating `u64`
--   arithmetic, Usage.Tree the tree and its operations. The proofs stand in Usage.Lookup (one
--   node's entries), Usage.Update, Usage.Removal and Usage.Adding (what an operation does to every
--   size), Usage.Sorted and Usage.SortedOps (the order of the entries), Usage.Accounts and
--   Usage.Balance (sums) and Usage.Paths (the operations that take a path).
-- * Io.LineBuffer, application/src/io/line_buffer.rs: the buffer that turns container output into
--   console lines. Io.LineBuffer.Chunks is the task of
--   application/src/server/executor/docker/mod.rs that feeds it and emits the lines.
-- * Io.Readers, Io.Range, Io.Fixed and Io.Limited, application/src/io/range_reader.rs,
--   fixed_reader.rs, limited_reader.rs and limited_writer.rs: readers around another reader, which
--   is a parameter with the law that it gives a run of bytes. Io.Range.Positions is about the
--   range, Io.Range.Slice and Io.Fixed.Padding about the bytes, and Io.Limited.Rate, Stretches, Polls
--   and Writes about the bytes in a stretch of time.
-- * ServerState, application/src/server/state.rs: the power state of a server and the mutex under
--   which power actions run. ServerState.Steps lets any number of tasks call `execute_action`,
--   `set_state` and `set_pending_restart`, cut into steps at each load and store and where a call
--   waits. Its proofs are about the mutex (Exclusion), the flag of a pending restart (Pending), a
--   call that no other task's steps fall into (Settling), the state that a failed action leaves
--   (Reverting) and the waits for a state (Waiting).
-- * Ssh.Limiter, application/src/ssh/limiter.rs: the limits on login attempts (Attempts), sessions
--   (Sessions) and open file handles (Handles). Ssh.Auth, application/src/ssh/auth.rs: the login,
--   which asks the limiter, the panel and the permissions. Its proofs are about user names
--   (Usernames), what the answers mean (Admission, Answers) and guessing passwords (Attacks).
-- * Permissions, application/src/server/permissions.rs: the permissions, their names (Names), and
--   those of the users of a server (Users, with the proofs in Access). A login sets them.
-- * Remote.Jwt, application/src/remote/jwt.rs: the claims of the panel's tokens (Validity), the
--   uses of a token (Uses), and what the cleanup forgets (Expiry).
-- * Websocket, application/src/server/websocket: the guard in front of the messages of a websocket,
--   jwt.rs in Websocket.Jwt, which asks Remote.Jwt and Permissions. Websocket.Guards has its
--   proofs. Websocket.Messages is message_handler.rs, every event of a socket, as the list of its
--   effects, with the power actions, the console and the editing in child modules; Websocket.Keeping
--   has what all handlers keep, Websocket.Effects which effects a token allows and Websocket.Audit
--   the logging of activities, each with the same child modules.
-- * Schedule, application/src/server/schedule: the variables of a run, conditions.rs in
--   Schedule.Conditions (with Duals), the steps of actions.rs that need no server in
--   Schedule.Actions (with Schedule.Templates on the texts of `Format`), and mod.rs in
--   Schedule.Executor: the check of the structure and the executor's round with its stack of
--   frames. Executor.Blocks is the independent description, the tree of `if` blocks and its
--   meaning; Executor.Closing and Structure are about what the check accepts, Executor.Steps,
--   Refines and Trees about the run of a tree, and Executor.Locked about a locked server.
--   Schedule.Watch is the task of a resource trigger, with Watch.Periods, and Schedule.Console that
--   of a console trigger. Schedule.Triggers and Schedule.Manager are the triggers and manager.rs;
--   Manager.Updates is about the schedules behind an update, Manager.Notices about notifications
--   and the tasks that are created anew. Conditions read ServerState.
-- * Activity, application/src/server/activity.rs: the activities that a server logs, the merge of a
--   batch and the task that sends them. Activity.Groups is about one group of merged activities,
--   Kept and Merges about the loop, Merged and Windows about the result and Sending about the
--   rounds of the task. A websocket logs activities.
-- * Pbs, pbs-client/src/catalog.rs: the catalogue of a backup. Pbs.Varint has its two encodings of
--   numbers (Encoding, RoundTrip, and Standing for encodings inside other bytes). Pbs.Catalog has
--   the formats, Catalog.Writer and Catalog.Reader the two sides, Encoded, Table, Forest, Writing,
--   Visited, Blocks and Walking the steps to Catalog.RoundTrip, and Catalog.Limits the bounds of a
--   reader.
-- Common has the tests, list laws, names, text, maps, numbers, bits and results that these parts
-- share.
--
-- How the code is rendered. A `u64` or `usize` is a native number and its saturating operations are
-- written out; an `i64` is an integer, and in a token its distance from the smallest; a byte is a
-- number and text is its list of bytes, compared as `str::cmp` does. A method on `&mut self`
-- returns the new value. `binary_search_by` on the sorted vector of entries is a scan to the same
-- place. A path is its list of components. Where a loop of the code has no bound of its own, the
-- model gives it rounds and the theorem shows that the rounds are enough: the loop over `next_line`
-- has one round more than there are bytes, since each line takes a byte at least. A hash map is the
-- function of its look-ups. An `Instant` and a `DateTime` are nanoseconds, and an operation takes
-- the time at which it reads the clock. Tasks that share an object are a relation with one step for
-- each stretch in which a task holds the lock or runs one atomic operation. Text of names and
-- tokens is its code points.
--
-- In the catalogue a `usize` has 64 bits, a path is its bytes, and `-(value as i64) - 1` wraps as a
-- release build does; the reader's depth counter is the number of depths left, so that the walk is
-- structural; its stack and the schedule's stack of frames have the innermost first. A float of a
-- schedule is of any type with its five comparisons. A round of the executor and its steps are
-- functions to the state they leave, the errors a hash map. The looks of a resource trigger come
-- one after another, each with one time for all its readings of the clock, and a timer that cannot
-- have ended is no event. A permit of a `Notify` is a flag, since it holds one at most.
--
-- Parameters. For the websocket: how each call on the server and the collaborative editing ends,
-- whether a save writes its file, and the token before and after a call. For schedules: what
-- conditions see of the server, whether it is locked, and every step that calls it; a regular
-- expression is the function of its captures. For the catalogue: the sink that is told of each
-- path. For the activities: the order of the values of a hash map, each once, and JSON values, as
-- the fields that are read. What is sent is what the client is given; the code only logs whether
-- that fails.
--
-- Not modelled: the containers, the network, the file system itself and the clocks, which these
-- parts only call; the throttling of console lines; the signatures of tokens, the globs of ignored
-- files, the matching of regular expressions and the times of cron expressions, which other crates
-- do; the channels of an SSH session; the cron task of schedules and the report of their
-- completions; a call of `execute_action` that is
-- dropped while it waits; all other parts of the daemon.
pub mod Common
pub mod Io
pub mod Activity
pub mod Usage
pub mod ServerState
pub mod Ssh
pub mod Schedule
pub mod Remote
pub mod Websocket
pub mod Pbs
pub mod Permissions
