-- ===== src/Lib.antt =====
-- Susanin, a controller that keeps adaptive routing rules on a RouterOS device over its API.
--
-- The program's parts, and the files that model them:
--
--   src/routeros_api.c    Ros: the API client. Ros/Socket is `read_all` over the segments, interruptions
--                         and errors that `recv` meets. Ros/Frame is the length prefix (`encode_len`,
--                         `recv_len`, `send_word`), Ros/Sentence is `recv_sentence`, `ros_is_reply` and
--                         `ros_get_attr`, and Ros/Command is `ros_command`: `wire_command` on the byte
--                         stream and `drain` on received sentences. Ros/Session is the client as the
--                         other parts call it, with the router behind it as a parameter: a state, an
--                         answer to every command, and what becomes of the state while the client sleeps.
--   src/fingerprint.c     Fingerprint: FNV-1a on 64 bits and its hexadecimal text.
--   src/state_cleanup.c   StateCleanup: the matchers (Match), `collect_ids` and the removals (Scan), the
--                         loop of `cleanup_matching` (Matching), the entry points for promotion and
--                         rollback (Entry) and the fail-open fallback (Disable).
--   src/gc.c              Gc: names, budgets and parsers (Names), the queries and their callbacks
--                         (Queries), the ownership gate (Gate), lazy rules (Lazy), connection marks
--                         (Marks), the fail-safe fallback (FailSafe) and `susanin_gc_run_once` (Run).
--                         Commands says which commands the collection may send, and Spent what a stage
--                         has used of its budget.
--
--   src/config.c          Config: option names and tests, `config_set_option` and `config_save_target` up
--                         to the write (Options), `config_load_local` over the file's bytes (Load), and
--                         the bytes of `write_nonsecret_config` (Write).
--   src/direct.c          Direct: kinds, addresses and names (Value), the policy file (Database), queries
--                         and removals by what they show (Collect), `direct_sync` (Sync), and
--                         `direct_add` and `direct_remove` over the file, what the file system does, and
--                         the session (Change).
--   src/target.c          Target: interfaces, gateways and tables (Interfaces), the routes and
--                         `ensure_dedicated_table` (Routes), `target_set_interface` and
--                         `target_set_routing_table` (Select).
--   src/renderer.c        Renderer: `replace_all` (Replace), `lan_match_snippet` with its buffer (Snippet),
--                         and the queries and templates of `renderer_build` (Build). Gc/Run/Rendered is
--                         a collection run with these scripts.
--   src/stage.c           Stage: the look for a staged script, its removal with retries, `stage_run` and
--                         `stage_clean_run`.
--   src/apply.c           Apply: `apply_dry_run` with its queries and counts; the fixed rules are in Rules.
--   src/promote.c         Promote: `promote_run` as a chain of stages (`promote_bundle` to `commit`),
--                         `promote_dry_run`, and `rollback_run` (Rollback).
--
-- Prelude has the shared types, C strings as lists of bytes, `strtoul`, `%u` and bit lemmas. Tests has
-- small routers and the theorems applied to them.
--
-- How code and model correspond. A function keeps its name without the prefix `susanin_`. A client with
-- its router is a `Session`, passed in and returned; it logs the commands that were sent, so that a
-- theorem can say what a function sends and how often it changes the router. A result that C leaves
-- behind a pointer is returned beside the return value, `none` stands for -1 where nothing else is
-- returned, and a callback returns its result and its context. `snprintf` into a buffer cuts the text
-- (`copy_to`). Counters of type `unsigned` wrap at 2 ^ 32 where nothing bounds them.
--
-- Loops. The reply loop of `wire_command` runs on fuel, one round more than there are bytes in the
-- stream; a sentence takes a byte at least, so this is enough. The retry loops run on the number of
-- attempts that the code allows, all others on their list.
--
-- Parameters. The router is not code of this repository, so `Router` assumes nothing of it; the theorem
-- that a synchronisation succeeds takes the hypothesis that the router answers every command, with
-- whatever objects it shows, without a trap. Files that are read are arguments, `none` where they cannot
-- be opened; what the file system does with a file that is replaced is the argument `Outcome` in Direct
-- (a write that is lost without `fclose` failing included, which `is_reported` excludes), a truth value
-- in Target. `gc_run_once` takes the
-- renderer as a parameter, and Gc/Run/Rendered gives it that of Renderer. `inet_pton` and `inet_ntop`
-- are written out in Prelude/Inet, for IPv4.
--
-- Not modelled: sockets and name resolution (`ros_connect`, `write_all`), failing allocations, printed
-- messages, the daemon's tick and its lock file in src/gc.c, the password and the gateway lookup in
-- src/config.c, the reports of src/direct.c and src/renderer.c (`direct_list_local`, `renderer_run`), and
-- the other files of src: validation, status and diagnostics, setup and installation.
pub mod Prelude
pub mod Ros
pub mod Fingerprint
pub mod StateCleanup
pub mod Gc
pub mod Config
pub mod Direct
pub mod Target
pub mod Renderer
pub mod Stage
pub mod Apply
pub mod Promote
pub mod Tests
