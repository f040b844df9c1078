-- ===== src/Lib.antt =====
-- subjson: changes a JSON document at a path without building a tree. An `Operation` parses the
-- path, has the matcher search the document, validates the value, and lays out the new document as
-- at most eight segments that point into the old one, into the user's value and into two buffers.
--
-- The parts and their files:
-- - Loc, Loc/Splice: subdoc/loc.h. A pointer is a buffer (the list of its bytes) with an offset. The
--   cuts of a document at a location (`end_at_begin`, `begin_at_end`, ...) are arithmetic on 64-bit
--   offsets; Splice says which bytes they cover.
-- - Path, Path/Parse: subdoc/path.h and path.cc. The object holds the array of 33 components and the
--   lists of cached and used strings; the members are functions in a monad of that state with the
--   error codes of the parser. Path/Parse/State, Total and Reuse hold the invariant, Path/Syntax a
--   printer for the documented syntax and the round trip.
-- - Uescape: subdoc/uescape.h, the conversion of \u escapes to UTF-8, with the pending surrogate as
--   state. Uescape/Utf8, Units, RoundTrip and Anomalies hold its theorems.
-- - HashKey: subdoc/hkesc.h, the key of an object's member; the converter makes its text on demand.
-- - SubdocApi: the codes of subdoc/subdoc-api.h. Match: the record of a search in subdoc/match.h.
--   Jsonsl: the enumerations of contrib/jsonsl/jsonsl.h that these files name.
-- - Parser: the parser object of contrib/jsonsl as subdoc/match.cc sees it. The stack is a function
--   of the level, the callbacks are names, and `jsonsl_feed`, `jsonsl_reset`, `jsonsl_path_match` are
--   the record `Parser`, a parameter. Parser/Trace says what the documentation of a feed promises (the
--   actions in the order of the bytes, each with its callback, until one stops the parser), Parser/Tree
--   gives JSON values with their texts and their actions, Parser/Walk the stretches that a callback
--   leaves alone.
-- - Match/Tests, Push, Pop, Callbacks, Search: the callbacks and `exec_match` of subdoc/match.cc;
--   Match/Equal, Match/Request and Match/Rounds hold theorems on them. Match/Seek says which value of
--   a document a path names; Scan, Quiet, Skip and Members (one key, one element), Enter and Reach
--   (the match, the end of a container), Steps, Level, Scanned and Finds (the whole document) lead to
--   Answer, where `exec_match` meets it.
-- - Validate, Validate/Callbacks, Run: subdoc/validate.h and `Validator::validate` of subdoc/match.cc.
--   Judge (one action), Descend and Depth (below an element), Elements and Verdict (all elements),
--   Chunks and Reads (several feeds), Wrapped and Accepts (the answer) hold its theorems.
-- - Util: the texts of a match and `get_root_type` of subdoc/util.cc.
-- - Operations: subdoc/operations.h. Operations/Store (get, remove, the dictionary commands, mkdir_p),
--   Operations/Arrays, Operations/Counter and Operations/Exec (`op_exec`) hold the member functions
--   of subdoc/operations.cc, each as a function from an operation to an error and an operation.
--   Layout, Commas, StoreText, MkdirText, RemoveText, ArrayText, EmptyAppend and Counter/CountText
--   say which document comes out.
--   Fetch, Sizes and Replace say what GET, GET_COUNT and REPLACE do with that search; Guards says
--   what `op_exec` demands. Counter/Range, Counter/Numerals and Counter/Canonical are the arithmetic
--   and the texts of numbers.
-- - Decimal, Prelude: `std::to_string`; shared tests, list lemmas, 64-bit words, bit operations and
--   signed integers. Tests: runs at concrete inputs.
--
-- How they interact: `op_exec` parses the path (Path/Parse), asks the record `Engine` for a match and
-- for the validation of the value, and calls the command's function; the parent's state after each
-- call is passed on. Most theorems hold for any `Engine`, and those on documents say what they ask of
-- the match (`Found`, `Doomed`: where in the document it stands). Operations/Composed fills it with
-- `exec_match` and `validate` of subdoc/match.cc over a `Parser`.
--
-- Fuel: the loop of `Path::parse` takes the length of the path as fuel, and each round consumes a
-- byte, so that it is enough (Path/Parse/Total). The loop of `exec_match_negix` takes the number of
-- components, and each round passes one (Match/Rounds). The printer of numbers takes the number itself. All
-- other loops are structural recursion. Buffers are shorter than 2 ^ 63 bytes where a theorem needs
-- it; `size_t` wraps at 2 ^ 64 where the code computes with it.
--
-- Choices: the result buffer and the strings that pointers name are held by value, since nothing
-- writes to them while a segment points to them; a document is a list of bytes, and a read past its
-- end, which the code does not guard in `do_empty_append`, gives 0. `isspace`, `strtol`, `strtoll`,
-- `std::from_chars` and `std::to_string` are written out for the C locale.
--
-- Not modelled: the parser of contrib/jsonsl (another project), the tables of texts
-- (`Error::description`, `Validator::errstr`, `Util::jsonerr`), the printing of `Util::dump_newdoc`,
-- allocation and destructors. A failed `Expects` is the flag `aborted` of the parser.
pub mod Prelude
pub mod Jsonsl
pub mod Loc
pub mod Decimal
pub mod Path
pub mod Uescape
pub mod SubdocApi
pub mod Match
pub mod HashKey
pub mod Parser
pub mod Validate
pub mod Util
pub mod Operations
pub mod Tests
