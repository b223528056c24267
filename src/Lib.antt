-- ===== src/Lib.antt =====
-- A verification library for the tournament backend: the code that decides who plays whom, where,
-- and what a score counts for.
--
-- The program is a Go service over a database. Its decisions are pure functions that the service
-- calls with what it has loaded; these are modelled here, each by a function of the same name in
-- snake case, on the same data, and composed as the code composes them.
--
-- - Base: shared names and lemmas. Lists measured and indexed by native numbers, Go's `int` as an
--   integer without overflow, ids as strings, and lists of ids seen as bags.
-- - Rotation: internal/engine/rotation.go. A night moves from `SeedCourts` (Rotation/Seed) or
--   `SeedPlacedCourts` (Rotation/Placed) by a `NextRound` (Rotation/Move) or a `NextRoundFair`
--   (Rotation/Fair) for each round. `layoutAndBenchOK` (Rotation, Rotation/Layout) guards each
--   move. The functions return a pair of courts and bench, the record `Round`; the slices that Go
--   copies are values. Go's maps from courts are functions that start at the zero value.
-- - Schedule: internal/engine/schedule.go. The circle method (Schedule/Circle), the mixer of
--   `doublesRotating` (Schedule/Mixer), the window of rounds (Schedule/Window) and the placement on
--   courts (Schedule/Courts).
-- - Bracket: internal/engine/bracket.go. The size and the seed order of a bracket (Bracket/Seeds),
--   its matches and the byes (Bracket/Generate; Bracket/Generate/Drawn says what a first match is). A match pointer is a round and a slot in the map of
--   rounds, and a write through it is a write of that map. A seeded side is taken not to be nil.
-- - Scoring: internal/service/scoring.go. One game (Scoring/Game) and a series (Scoring/Series).
--   An error is a value that keeps the numbers of its message.
-- - Night: internal/service/ladder_rotation.go. `settleDepartures` (Night/Fill, Night/SettleLoop,
--   Night/Settle), `growCourts` (Night/Grow), and `AdvanceRotationSession` (Night/Advance) from a record
--   of what its reads return, in which a failed read is `none`, to the round that it hands to the
--   database or the reason why there is none. The results of the round are in Night/Scorecard; what
--   holds of the round is in Night/Moved, Night/Advance/Safe and
--   Night/Advance/Goes, with Night/Staying for the number of those who stay. `settle_loop` has
--   one more than the number of courts as fuel, since each turn of the loop drops one.
-- - Ladder: internal/service/ladder.go, the rules `leapfrogReorder` and `swapReorder` on the order of
--   a ladder from top to bottom. An index of -1 is `none`.
-- - Consolation: internal/engine/consolation.go. The losers of round 1 and the winners of the back draw
--   flow through the tree as tokens (Consolation/Meet, Consolation/Flow, Consolation/Drops); the rounds
--   are renumbered at the end (Consolation/Rounds). A match pointer is its key in the list of matches.
-- - Compass: internal/engine/compass.go, the tree of one direction (`buildConsolationTree`), which
--   Compass/Steps and Compass/Mirror compare with the back draw.
-- - DoubleElim: internal/engine/double_elim.go. The winners bracket is the bracket of Bracket
--   (DoubleElim/Wires, DoubleElim/Winners); the losers tree is drawn by tokens, and its rounds are renumbered
--   (DoubleElim/LbRounds). A match pointer is a tier, a round and a slot in the list of matches. The Go
--   map of the pairs that come in is a function that starts at the unset pair.
-- - Flex: internal/service/flex.go, `GenerateFlexSchedule` from the teams and matchups that it reads to
--   the rows that it inserts (Flex/Idempotent).
-- - Arrange: internal/service/service.go, `arrangePlacements`. The interleaving loop is a chain of steps
--   (Arrange/Steps), a match placed or a round ended; Arrange/Keyed is about the map of the placements;
--   Arrange/Apart and Arrange/Own state what each step
--   keeps, Arrange/Left counts what the divisions have left, Arrange/Ready and Arrange/Finish show that a
--   slot after a rest places a match, and Arrange/Going and Arrange/Complete that the loop ends with nothing left. The other
--   mode is in Arrange/Rounds and Arrange/InTurn. The slots up to `maxSlots` are the fuel of the loop.
-- - Pairs: internal/service/service.go, `pairsFromRegs` (Pairs/Taken) and `droppedDoublesPlayers`
--   (Pairs/Dropped). Of an event the fields that the latter reads are kept.
-- - Pools: internal/service/service.go, `splitPools` (Pools/Sizes, Pools/Dealt). The comparison of two average ratings, which
--   are decimal numbers, is a parameter, of which nothing is assumed.
-- - Standings: internal/service/service.go, `rankStandingsWith` with its two callers. A win percentage is a
--   fraction, and two of them are compared exactly: two quotients of numbers of matches round to the same
--   float64 only if they are equal. The groups of a rank are in Standings/Runs, each loop turn takes a
--   row or more, and the number of rows is the fuel. Standings/Peer and Standings/Peers state the order, Standings/Ranked that
--   it loses nobody. The points leaderboard is sorted by a test that is not an order where
--   head-to-head results run in a circle; there Go's sort may return another list than the model's.
-- - RateLimit: internal/api/server.go, `rateLimiter` with `allow`, `refund` and a tick of `sweep`. A time is a
--   number of seconds that the caller passes; the comparison with the cutoff is written with the window on
--   the other side. RateLimit/Newest and RateLimit/Window are about lists of times, RateLimit/Ledger is
--   the ledger that the limiter implements, RateLimit/Bounds what it holds.
-- - Examples: each theorem at a concrete input.
--
-- Numbers: court numbers and counts that the code only raises from 0 are natural numbers; scores,
-- caps and windows, which callers pass in, are integers. Machine overflow is not modelled, since
-- the numbers are scores and numbers of players. A `for` over a slice is recursion on the list. The
-- loops of `nextPow2`, `ilog2` and `seedOrder` have `n` as fuel, which a loop that doubles or
-- halves does not use up: their theorems state what the loops reach by their own tests. `advance` of Bracket
-- goes up a round at each call and has the number of rounds.
-- The loops of the mixer that take entries out of a slice have its length as fuel.
-- `sort.SliceStable` is a stable insertion sort, and so is the mixer's `sort.Slice`, whose test only
-- ties for equal ids.
--
-- Not modelled: doubles with fixed partners, the chain of the compass directions, and all
-- that reads or writes the database or calls outside services (internal/service but for the
-- files above, internal/api but for the limiter, internal/store, internal/gateway, internal/courts, cmd).
pub mod Arrange
pub mod Base
pub mod Bracket
pub mod Compass
pub mod Consolation
pub mod DoubleElim
pub mod Examples
pub mod Flex
pub mod Ladder
pub mod Night
pub mod Pairs
pub mod Pools
pub mod RateLimit
pub mod Rotation
pub mod Schedule
pub mod Scoring
pub mod Standings
