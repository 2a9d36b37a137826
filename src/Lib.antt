-- ===== src/Lib.antt =====
-- photoSwipe: a web program that shows the photos of a folder one at a time, takes a decision on
-- each (keep, trash, skip), and can undo the decisions of the running session. This library models
-- its core and states what that core does.
--
-- The parts, and the files that model them:
--
-- * internal/store is the state of the program, one JSON file rewritten by every change.
--   Store/Photo and Store/Session have the data of photo.go and session.go. Store/State has
--   `rootState`, `Store` and `saveLocked`: an operation takes an `Env` (the clock, the printed day,
--   the random id, the JSON codec, what the file system answers) and a `Store` (the state in memory
--   and the content of the file), and returns a result and a `Store`. `commit` is the end of each
--   operation that saves on success. Store/Decisions has RecordDecision, RecordSkip and
--   SetPhotoState, Store/Clusters SkipCluster and RecordClusterDecision, Store/Undo Undo,
--   Store/Photos the operations on the pool of photos, Store/Sessions those on sessions and
--   settings, Store/Open Open, load and Close. The modules below Store/Undo have the theorems on
--   Undo, those below Store/Photos the theorems on scanning, hashing and ForgetMissing,
--   Store/Open/Settled what Open leaves. Store/Steps joins the operations into histories, and the
--   modules below it have what every history keeps.
-- * internal/queue picks the next photo: Queue has Next and EstimateCounts. The drawn random number
--   is an argument, a float64 is its IEEE 754 bits, and the arithmetic of the machine on these is
--   the record `Floats` of functions about which nothing is assumed. Queue/Eligible has the
--   theorems on one choice, Queue/Review those that join the queue with the store.
-- * internal/auth is the password gate round all handlers: Auth has Middleware, HandleLogin,
--   handleLogout and gc, and histories of these as lists of events. Auth/Gate and Auth/Tokens have
--   the theorems. The handlers behind the gate are a parameter.
-- * internal/img reads the files: Img/Exif has the JPEG and TIFF walk of exif.go on lists of bytes,
--   with `none` for a panic of Go, and Img/Orient has ApplyOrientation. time.Parse is a parameter.
--   Img/Raw has ExtractPreview on the bytes of a RAW file, Img/Raw/Walk the end of its walk over
--   the directories and Img/Raw/Preview what it returns. Img/Trash has trash.go on a disk of
--   regular files and directories, with the names that path/filepath and fmt make as parameters,
--   and Img/Trash/Names and Img/Trash/Moves its theorems. Img/Thumb has ServeThumb and scaleTo,
--   with the codecs as a parameter.
-- * internal/dhash makes the fingerprint of a picture: Dhash has Compute, on the 9 by 9 grey
--   picture that the resampling library draws, and Distance. Dhash/Planes and Dhash/Distance have
--   the theorems.
-- * internal/handlers answers the requests: Handlers has what a request meets outside the program
--   (`Call`), the state that the handlers share (`Site`) and the replies, which have what a handler
--   gives to its template. Handlers/View picks what is shown next, Handlers/Pages has the home page
--   and the session's end and extension, Handlers/Decide handleDecision and handleUndo,
--   Handlers/Resolve handleClusterResolve, Handlers/Forms the settings, Handlers/Stats the
--   statistics. Handlers/Back, Handlers/Kept, Handlers/Files, Handlers/Members, Handlers/Shown and
--   Handlers/Settle have the theorems.
-- * internal/indexer hashes the photos in the background: Indexer has hashOne and the rounds of
--   run, which join the store, Img/Exif, Img/Orient and Dhash, Indexer/Left what one round leaves
--   to hash, Indexer/Fates what it makes of a fingerprint, and Indexer/Rounds how the rounds end.
-- * internal/dupes groups near-duplicates: Dupes has Find, its loops, its union-find on a map of
--   parents, and its sorts. Dupes/Forest, Dupes/Groups, Dupes/Merge and Dupes/Union are about the
--   union-find, Dupes/Loops, Dupes/Near and Dupes/Pairs about the loops and their break,
--   Dupes/Start, Dupes/Ranked and Dupes/Run about the maps, Dupes/Members about one cluster, and
--   Dupes/Clusters has what Find returns. A map is visited in the order of its entries, which the
--   last sort replaces.
--
-- Prelude and its children have what these share: Boolean tests, lists measured by native numbers,
-- signed integers with the wrap-around of a 64-bit int, and Go's maps as association lists. Modules
-- named Examples have the theorems at small inputs, and runs of the operations.
--
-- Bounds and fuel: the sums that the counters of the store take wrap at 64 bits, and the theorems
-- on Undo say how much room the counters need. Image offsets and lengths are natural numbers, since
-- the code widens 16- and 32-bit fields to a 64-bit int before it adds. The loop of readExif runs
-- on the number of bytes left, which is enough since every round takes at least two. The search for
-- a root in Find takes one round more than there are photos, enough since each parent has a lesser
-- id. The walk of ExtractPreview takes 64 times what one directory may queue. The loop of
-- uniqueDest takes two rounds more than there are files and directories, which is enough where
-- os.Stat answers for the names; where it refuses them the rounds may run out, and the value
-- `no_end` stands for a loop that goes on past them. Everything else is structural recursion.
--
-- Not modelled: the templates and headers of internal/handlers and its handlers that only serve a
-- file or rescan, the directory scan of internal/img, and main.go; the mutex of the store, since
-- each method holds it from start to end; SHA-256, random numbers, JSON, the clock and
-- what the operating system refuses, which are arguments.
mod Prelude
pub mod Store
pub mod Queue
pub mod Auth
pub mod Img
pub mod Dhash
pub mod Dupes
pub mod Handlers
pub mod Indexer
