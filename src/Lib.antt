-- ===== src/Lib.antt =====
-- PunDat is an archiver for the BOSSWAVE message bus: it stores the readings that are published on
-- URIs, and answers queries for metadata, readings, statistics and changed ranges of the streams that
-- the asking key may read. This library models its core in Go and proves what it computes.
--
-- The parts, and the modules that model them (paths from the root of the repository):
--   Prelude       names that all modules share: tests on numbers, lists over the native numbers (Lists),
--                 signed 64-bit integers with their wrap-around (Int), Go strings as lists of bytes with
--                 the functions of package strings (Str), maps with string keys (Dict), and the end of a
--                 call: a value, an error or a panic (Outcome).
--   Common        common/util.go (UnitOfTime, TimeText, UriKey), common/timeseries.go (Timeseries),
--                 common/metadata.go and common/types.go (Metadata, Value), common/params.go (Params),
--                 the identifiers of common/stream.go (Uuid); ParseInt is strconv.ParseInt.
--   Dots          dots/range.go (TimeRange, DisjointRanges, Chains), dots/util.go (ArchiveUri) and
--                 dots/master.go (Master, with GetValidRanges in Master.ValidRanges): which ranges of
--                 time a key may read of a URI.
--   Querylang     GetParams of querylang/processor.go and the types of querylang/types.go (ParsedQuery).
--                 Parser models querylang/query.go: the tables (Tables), Lex and the numbers of tokens
--                 (Lexer), the values on the stack (Values), the semantic actions (Actions, TimeActions,
--                 WhereActions), the machine of Parse (Machine) and QueryProcessor.Parse (Process).
--                 Grammar, Spelling and Sense are querylang/query.y as data, independent of the machine:
--                 sentences, their tokens, and what they mean. The other modules of Parser follow the
--                 machine through the parts of a sentence (from Brackets and Terms to Sentences and
--                 Correct) and through a syntax error (Machine.Recovery, Machine.Soundness,
--                 Machine.Errors).
--   Archiver      archiver/api.go (Prepare, Select, Mask), HandleQuery (Query) and listenQueries (Reply)
--                 of archiver/archiver.go, archiver/transforms.go (Reply), archiver/request.go and the
--                 lists and maps of archiver/util.go (Requests), its functions on URIs (Uris), the
--                 bookkeeping of archiver/view.go (Views), its loop over messages and HandleArchiveRequest
--                 (Handling), archiver/stream.go from messages (Stream) to commits (Stream.Commits),
--                 archiver/mux.go (Mux), and the interfaces of archiver/interfaces.go (Stores).
--   Requests      requests/api.go (Api, Api.Merge): how clients attach archive requests to URIs and remove them.
--
-- How they interact: Reply.listen_queries reads a query and its nonce from a message and calls
-- Query.handle_query, which takes the parameters of the parsed query from get_params and calls the
-- operations of Select and Mask. Those prepare the parameters (Prepare), ask Master's ranges for the
-- stream's URI through the record Archiver, cut the requested range by them (DisjointRanges) and ask
-- the store for what is left. Handling.handle_archive_request turns an archive request into a stream
-- on the mux of its URI; Stream.read_points buffers what its messages bring, and Stream.Commits.commit gives
-- it to the store.
--
-- How state is modelled. The ranges of dots are behind pointers, and Merge and GetOverlap write
-- through them: a heap from addresses to ranges is passed from call to call, with the next free
-- address. A Go call returns a value, an error by its text, or panics. A call that never returns is
-- `none` where the code can block itself (the mutex in Metadata.merge) or recurse without end
-- (Master.find_dot_chains, on fuel). The fuel of Uris.prefixes_loop is one more than the length of the
-- URI, enough since the start grows in every round; that of Mask.sort_search is the number of records,
-- enough since the width halves in every round. The parser runs on fuel: Parser.Process.parse is
-- `none` when its steps do not suffice; the number of steps grows with the tokens of a text. A value on the stack of the parser is the one member of its %union that the
-- type of the symbol names. The steps of the committing goroutine (take_series, write_back) and the
-- reading of messages are functions on the state of a stream, so that an interleaving is the order in
-- which they are composed; a held lock is a field of the manager. The receivers of a mux change by the
-- relation Mux.Step, so that every interleaving of its goroutines is a sequence of steps, or of the events of
-- Mux.Deliveries. A time.Time
-- is its distance from 1970 in nanoseconds, which is not bounded, and UnixNano wraps it to 64 bits. A
-- range over a map visits an association list in order, one of the orders that Go may choose.
--
-- Parameters, since their code is not in the repository's own: the client of BOSSWAVE and the codecs
-- of its objects (Master.Client, Api.Bus), the library of UUIDs (Uuid.UuidLib), the stores behind the
-- interfaces (Stores), the scanner of queries (package toki), the clock and the parsing of times in
-- given formats, expressions on payloads, regular expressions, float64, and what the caches returned.
-- What the theorems ask of them is among their hypotheses: a store answers with readings of the range
-- that it was asked for (StoreInRange), and the ranges of a key have int64 times and are not the
-- object of the request (RangesApart); the scanner gives the tokens of the text in order and then a
-- result that counts as the end (IsEnd); the bus retains what is published at a URI (Retains), and
-- nothing that is published at one URI changes what it returns for another (Separate).
--
-- Not modelled: the patterns of the scanner, the clients of MongoDB and BTrDB, the scraper,
-- configuration files, command lines, printing and encoding, and the wiring of goroutines and sockets.
pub mod Prelude
pub mod Common
pub mod Dots
pub mod Querylang
pub mod Archiver
pub mod Requests
