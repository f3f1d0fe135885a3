-- ===== src/Lib.antt =====
-- Orbit Depot: a file depot in front of object storage. A client authenticates, names a place and
-- asks for a presigned upload URL, or posts the bytes in one request; the depot derives the object
-- key from the identity it has verified.
--
-- The parts and their modules:
--
-- - Place: internal/place. Place.antt is place.go (build, New, Resolve, Validate), Place/Key.antt and
--   Place/Filename.antt are derive.go (DeriveKey, accountHash, uniqueSegment, sanitizeFilename).
-- - Store: internal/store and internal/store/sqlite. The two tables are lists of rows; each statement
--   of the store is a step on them, and a list of faults says which statements the driver fails. The
--   listings and reports are Store/Sqlite/Listing.antt; LIKE and ORDER BY are an argument, the engine,
--   which sorts the same rows in the same way each time and breaks ties as it likes. The order in
--   which a query without ORDER BY yields its rows is left open, as a part of the database.
-- - Quota: internal/quota. The check runs over any store that reports a usage.
-- - Auth: internal/auth. An authenticator maps a request and the store to an identity or a refusal;
--   ServiceKey, TokenRouter and Chain compose them.
-- - Fs: internal/storage/fs. The files below the root by their path; the signed upload capability;
--   the upload and download endpoints. A list of faults says which system calls fail, those among them
--   whose error the code drops; the files are the objects, and the temporary files that a failed
--   removal leaves are counted apart.
-- - Api: internal/api. The server is a record of seams, each of which may be missing; a handler is a
--   step on the database, the files and the state of the limiter, and fails with an error status.
-- - RateLimit: internal/ratelimit. The in-memory limiter, a token bucket per key, and its janitor.
-- - Config: internal/config. The configuration, its defaults, validation and loading, and in
--   Config/Units.antt the sizes and rates.
-- - Service: the routes of internal/api/server.go, and a running depot as a relation of steps: a
--   request is served to its end, or the faults, the files or the limiter's state change from outside.
-- - Main: cmd/depot. How the authenticator is put together from the enabled credentials, and in
--   Main/Start.antt how run builds the server of the configuration. What a resolved identity rests on
--   is said in Auth/Evidence.antt and Auth/Credentials.antt.
-- - Http: what is read of a request. Base: texts as lists of bytes, the integers with int64 wrap-around,
--   the clock in nanoseconds, decimal numbers, cleaned paths, and code that may fail.
--
-- What stands outside is an argument: SHA-256, HMAC-SHA256, go-oidc's verification of a token, the
-- printed clock, random bytes, base64, UUIDs, time.Parse, Go's 64-bit floats, the TOML, JSON and
-- multipart decoders, net.SplitHostPort, url.Parse, the system calls on directories, the token bucket
-- of golang.org/x/time/rate, and SQLite's LIKE and ORDER BY.
-- A text is a list of bytes. The clock is read once in each handler, and is unbounded where Go's
-- time.Unix wraps, for seconds within 62135596800 of the largest int64. SQLite's driver knows the number
-- of rows that a statement affected, so that the error branch of notFoundIfZero is not taken. Error texts and log lines are left
-- out. That a directory stands where a file is to be written is one of the faults of a system call.
-- Files, unlike objects of an S3 bucket, are the only storage that is modelled.
--
-- Loops are structural recursion, but for the decimal numbers, whose fuel of twenty digits is enough
-- for an int64, which has nineteen at most.
--
-- Requests are served one after the other: a handler runs to its end before the next one starts, and
-- the limiter's calls follow each other under its lock.
--
-- Not modelled: opening the database, the health and info pages, command-line flags, serving HTTP and
-- its shutdown, and the log.
pub mod Base
pub mod Http
pub mod Config
pub mod Place
pub mod Store
pub mod Quota
pub mod Auth
pub mod Fs
pub mod RateLimit
pub mod Api
pub mod Service
pub mod Main
