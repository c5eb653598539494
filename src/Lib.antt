-- ===== src/Lib.antt =====
-- A verification library of lattice-sdk, the Go contracts that the parts of Lattice share.
--
-- The measurement beacon (beacon/) answers UDP probes: a source encodes a request under its path
-- key, a responder decides on each datagram and writes a reply, which the source parses.
--   * Beacon.Wire models beacon/beacon.go: `EncodeRequest`, `ParseRequest`, `VerifyRequest`,
--     `EncodeReply`, `ParseReply` and `writeReply`, on lists of bytes. An offset or a length stands
--     as the number of the constant. `Beacon.PathKey` models `DerivePathKey`.
--   * Beacon.NonceCache, Beacon.Rate, Beacon.Table and Beacon.Responder model beacon/responder.go:
--     `NonceCache`, `sourceState.allow`, `SetTable` with `responderTable.find`, and `Handle`. State
--     goes in and out of each function; a source's `*sourceState` stands in its source, since the
--     table in force is the only one that holds it.
--   * Beacon.Address models beacon/addr.go; what the code reads of a `netip.Addr` is a record,
--     and `netip.ParseAddr` is a parameter.
-- The responder calls the other parts: `find` in the table, `tag` of the wire format, `Seen` and
-- `Insert` of the source's cache, `allow` of its rate, and `writeReply`.
--
-- The plugin contracts (plugin/) and the shared model (model/) are read by the other repositories:
--   * Plugin.Budget models plugin/budget.go: `ResolveInvokeBudget`, `ValidateInvokeBudgetSpec` and
--     the JSON form of a budget. Plugin.Cron models plugin/task_schedule.go: `CronMinInterval`,
--     `parseCronField` and the validation of schedules; Plugin.Cron.Dialect is the documented form of a
--     field's items. Plugin.Contracts models the interface
--     contracts of plugin/manifest.go, Plugin.Session the `V2Session` of plugin/runtime.go, and
--     Plugin.Ids `validInvocationID` and `validHostCallID` of plugin/host.go.
--     Plugin.Frames models plugin/frame_fast.go: `strictMembers`, `decodeMembers` and the three fast
--     decoders, which read a frame with the strict JSON scanner.
--   * Model.StatusSet models `ParseMonitorStatusSet` and `Contains` of model/monitor_checks.go.
--     Model.Placeholder models the plan placeholders of model/selection_plan.go, with `isUUIDv4` of
--     model/subscription_source_manifest.go.
--
-- The strict JSON reader (strictjson/) admits a document and takes it apart in one pass:
--   * StrictJson.Lexer models the scanner's `space`, `literal`, `number` and `str` of
--     strictjson/strictjson.go, and StrictJson.Scanner the rest of that file: `value`, `array`,
--     `object`, `key`, `Valid`, `Fields`, `Elements`, `Compact` and `CanonicalRaw`. What is left of the
--     document stands for the position in it.
--   * StrictJson.Unquote models `String`, `StringInto` and `hex4` of strictjson/unquote.go.
--   * StrictJson.Grammar and StrictJson.Trees are not code: they are the JSON grammar, as trees with
--     their text, that the scanner is measured against. StrictJson.Documents compares the two.
--
-- Numbers are natural numbers; an int64 is its bit pattern, with wrap-around and the signed order
-- of Common.Int64. HMAC-SHA256 is a parameter (`Hmac`): a function of the key and the message with
-- 32 bytes. maphash is a parameter too, any function of the seed and the nonce, and a fresh seed is
-- an argument. Slices are lists; a buffer that is written comes back as a new list.
--
-- The probing loops of the nonce cache have no bound in the source. They run on fuel, the number of
-- slots, and answer `none` when it runs out: a probe meets an empty slot within one round, since the
-- cache keeps slots free. The binary search runs on one more than the number of sources, and each step
-- halves what is left; `none` of a search says that it did not end, and `some none` that nothing is
-- found. `SetTable`'s sort is an insertion sort; its ids are distinct, so any sort gives
-- that list.
-- The strict JSON scanner runs on fuel, twice the number of bytes of the document, and `String` on the
-- number of bytes of the literal: each round reads a byte at least, and a value that needs two rounds to
-- start is covered by the factor. `strconv.ParseFloat` and `json.Unmarshal` of a key that has an escape
-- are parameters. unicode/utf8 and unicode/utf16 are written out where they are called.
-- Common.Runes and Common.Decimals write out what the code calls of strings and of strconv; a number
-- below 2 ^ 64 is formatted with at most 20 digits.
-- The values of a cron range run on fuel, one more than the distance of its ends. encoding/json is
-- cut off: a JSON value stands as what the code decodes it to, and `json.Valid` and the random bytes of a
-- placeholder are parameters or arguments. Strings are lists of bytes, and lists of runes where the
-- code goes over runes.
--
-- Not modelled: concurrency (a call is one step), the rest of model/ and plugin/ (the serve loop,
-- the calls of the host client, signatures and the writer of a result frame among them), and the generated
-- protocol code.
pub mod Beacon
pub mod Common
pub mod Model
pub mod Plugin
pub mod StrictJson
