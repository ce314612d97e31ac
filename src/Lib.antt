-- ===== src/Lib.antt =====
-- A library of maps, versions, log files and text patterns for the Elastic agents, modelled by its
-- pure core.
--
-- The parts are independent packages. mapstr/mapstr.go is the type M, a map of strings to values of
-- any type, which the events of the agents are made of; safemapstr/safemapstr.go writes to it beside
-- the values on the way. version/version.go parses and compares versions. opt/opt.go has optional numbers.
-- monitoring/report/buffer/buffer.go is a ring buffer. processors/dissect takes a text apart along a
-- pattern. file/trigger.go and file/rotator.go rotate log files.
-- monitoring/registry.go is a tree of metrics under dotted names. str/stringset.go is a set of strings.
-- cloudid/cloudid.go reads cloud ids. match compiles regular expressions to matchers that are cheaper
-- than the engine of package regexp.
--
-- Where the code stands here:
--   Prelude          bytes, lists with native lengths, results, association lists, strconv.Atoi
--   Mapstr/Value     mapstr.go: the type M, the values of an interface{}, tryToMapStr and toMapStr
--   Mapstr/Find      mapFind, GetValue, HasKey, Put, Delete and CopyFieldsTo
--   Mapstr/Merge     Update, DeepUpdate, DeepUpdateNoOverwrite, Union, MergeFields, MergeFieldsDeep
--   Mapstr/Clone     Clone; Mapstr/Tags: AddTags and AddTagsWithKey
--   Mapstr/Flatten   Flatten and FlattenKeys
--   Mapstr/Traverse  Traverse, FindFold and AlterPath
--   Safemapstr       safemapstr.go: Put and mapFind
--   Version          version.go: New, LessThan, LessThanOrEqual and the comparisons below them
--   Opt              opt.go: the optional uint64, SumOptUint
--   Buffer           buffer.go: newBuffer, add and getAll
--   Dissect          delimiter.go, field.go, const.go, parser.go, validate.go, dissect.go, trim.go
--   Rotate/Trigger   trigger.go, and isRotationTriggered of rotator.go
--   Rotate/Names     dateRotator of rotator.go: newDateRotater, RotatedFiles, OrderLog, Rotate
--   Rotate/Purge     purge of rotator.go
--   Rotate/Writer    Write, Rotate, Sync and Close of rotator.go, with openNew, openFile and rotateWithTime
--   Stringset        stringset.go
--   Match/Regex      match/cmp.go: eqRegex on the trees of package regexp/syntax
--   Match/Classify   cmp.go: the tests on the form of a tree
--   Match/Matchers   matchers.go and matchAnyStrings of matcher.go
--   Match/Compile    compile.go, and CompileString of matcher.go
--   Match/Meaning    the texts that an expression is found in, which the code is compared with
--   Monitoring/Options   opts.go of monitoring, and its modes
--   Monitoring/Registry  registry.go: Add, Get, Remove, GetOrCreateRegistry, NewRegistry and Clear
--   Monitoring/Visit     doVisit and Do of registry.go, and visitor_kv.go
--   Cloudid          cloudid.go: NewCloudID
--   Tests            runs on small inputs
--
-- A variable of type M is an Option of its entries, none for the nil map; the entries are a list in
-- the order of one iteration, which no theorem fixes. A map that the code
-- changes through a reference is returned changed, and mapFind returns with the map that it ends in
-- the function that puts it back into the whole. Errors are values of a result type, and so is the
-- panic of a write to the nil map. An unsigned integer that can overflow is written modulo
-- 2^64; the index of a rotated file is not wrapped.
--
-- The loop over the padding of a greedy key has fuel, one round more than the input has bytes, since each
-- round but the last moves on by a byte unless the delimiter is empty; the error hangs stands for a loop
-- that has not ended then. All other loops are structural recursion. Traverse is called
-- with a flag that says whether the range over a map comes to the entries added during it.
--
-- What is not modelled: one map that is reachable in two places, printing and JSON, the trimmer of
-- UTF-8 characters, the optimizer of regular expressions (match/optimize.go), the conversion
-- of data types after a dissection, indices and version numbers with a minus sign, and the
-- packages that wrap a server, a client, a logger or the operating system.
-- Write reads the clock once for the triggers and once for the time of the rotation.
-- Dates, Itoa and what Glob finds are arguments of Rotate/Names, package os is one of Rotate/Writer,
-- the engine of package regexp one of Match, strings.EqualFold one of Mapstr/Traverse, what the visit
-- of a metric calls one of Monitoring/Visit, and base64 and the printing of a URL are those of Cloudid.
pub mod Prelude
pub mod Mapstr
pub mod Safemapstr
pub mod Version
pub mod Opt
pub mod Buffer
pub mod Dissect
pub mod Rotate
pub mod Match
pub mod Monitoring
pub mod Cloudid
pub mod Stringset
pub mod Tests
