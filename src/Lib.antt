-- ===== src/Lib.antt =====
-- Verification of the earnings and leaderboard core of the reporting service.
--
-- The service keeps a ledger of what field workers earn. Orders and trips are turned into ledger
-- entries in paise; payouts settle entries; detections compare orders and trips with what was paid;
-- leaderboards award bonuses.
--
-- Which file models what, by the paths of the repository:
--   Base                 Go's int64 (two's complement, wrap-around written out), strings as lists of
--                        bytes, and the lists, options and tests that the models share.
--   Money                float64 as a record of operations, and the conversions between rupees and
--                        paise (validMoney, moneyToPaise, roundSourceMoney, finiteNonNegative,
--                        pointerMoney). Money/Decimal is an instance that computes.
--   Mongo                a collection and a transaction as records: what the driver documents of each
--                        call on the documents. Mongo/Memory is an instance, a list of documents;
--                        Mongo/Sums measures an update of one document; Keeps and Ids carry a property
--                        of all documents, and ids that differ, through updates.
--   Earnings/Types       internal/earnings/types.go, the documents.
--   Earnings/Action      a repository method: a function of the state to a result and a state.
--                        Preserves puts together what its parts preserve.
--   Earnings/Access      internal/earnings/auth.go: HasPermission and CanAccessOffice; Tokens is
--                        VerifyAdminToken, a chain of checks that fail with an error each.
--   Earnings/Issues      the specification of the two collections of reconciliation issues: the life
--                        of an issue as a step relation (detected again, closed), and collections that
--                        evolve by such steps. Store is the body that upsertOrderIssue and
--                        upsertTripIssue share line by line, over what they do differently.
--   Earnings/Allocation  buildAllocations of internal/earnings/repository.go: consume_deductions and
--                        pay_entries are its two loops. Loops relates them to derivations over exact
--                        integers; Outcome and Bounds argue on those.
--   Earnings/Settlement  AllocateSettlement and runAtomicWrite of internal/earnings/repository.go.
--                        The state is that of the two collections. create_settlement is the callback
--                        after the search by key; write_allocation is one round of the loop of
--                        updates. The id and the time of the call are arguments; the code reads the
--                        clock in every round. The variables that the callback captures are handed
--                        from attempt to attempt; persisted is what BSON keeps of a settlement, with
--                        times to the millisecond and without the requested ids.
--                        Update is UpdateSettlement: reverse_allocations, then reallocate.
--   Earnings/SourceEntries
--                        PutSourceEntry and CreateAdjustment of internal/earnings/repository.go, and
--                        sameSourceEntry and sourceEntry of internal/earnings/rebuild.go.
--   Earnings/Rebuild     the rebuild processor of internal/earnings/rebuild.go over its backend, with
--                        the counters in the state: Orders, Trips and Leaderboards are processOrders,
--                        processTrips and processLeaderboards; Process is process and ProcessNext.
--                        Keeps and Steps carry what every put keeps through a whole run.
--   Earnings/SourceEvents
--                        internal/earnings/source_events.go: the checks of an event and of the source
--                        that it names; Orders is processOrder, and Process the rest of
--                        SourceEventProcessor, over its backend and the counters as in Rebuild.
--   Earnings/Periods     ClosePeriod, IsDateClosed and HasClosedPeriodOverlap of
--                        internal/earnings/repository.go.
--   Earnings/OrderIssues internal/earnings/order_issues.go: Payments (orderIssueReceivedCandidates
--                        and orderIssueReceivedPaiseForExpected), Detection (detectOrderIssues and
--                        detectOrderCommissionIssues), and Alignment (the adjustment that
--                        alignOrderPayment of order_issues_repository.go pushes). The rest of
--                        order_issues_repository.go: Store (upsertOrderIssue, closeOrderIssue), Actions
--                        (ActOnOrderIssue, recheckOrderIssue, alignOrderPayment) and Scan
--                        (ScanOrderIssues). The clock and the new ids are arguments.
--   Earnings/TripIssues  internal/earnings/trip_issues.go and trip_issues_repository.go: Detection
--                        (detectTripIssues), Store (upsertTripIssue, closeTripIssue), Actions
--                        (ActOnTripIssue, recheckTripIssue, rebuildTripSnapshot) and Scan
--                        (ScanTripIssues, with the filter of internal/payables/trip_expr.go).
--   Earnings/Trips       effectiveTripPayables and tripWorker (internal/earnings/rebuild.go),
--                        canonicalTripCalculation and allowanceWorker (trip_issues.go), tripEligible
--                        (source_events.go), needsOfficeTripRates (repository.go).
--   Leaderboard          internal/leaderboard/ranking.go: RankBeauticians and RankRiders. Sorting is
--                        sort.Slice, as an insertion sort.
--   Tests                runs on concrete inputs.
--
-- Bounds. Amounts are int64 paise with the machine's arithmetic. The theorems on payouts assume that
-- the magnitudes of the amounts, the settled amounts and the request add up to less than 2^61, so
-- that no intermediate value of the loops leaves int64; those on order payments assume 2^50 paise,
-- below which a float64 of rupees gives the paise back. All loops are structural recursion, but for
-- the retries of upsertOrderIssue and upsertTripIssue after a duplicate key: they have fuel 2, which
-- is enough where the key has a unique index (Earnings/Issues/Store/Retries).
--
-- Parameters. float64, ObjectID.Hex, Go's time package, SHA-256, base64, JSON, HMAC, the collections
-- and the transactions of the Mongo driver are not part of the repository. They are arguments, with
-- what the theorems need of them as hypotheses or record fields. A call of the driver may fail;
-- nothing is then said of the state.
--
-- Simplifications. An ObjectID is a number and a time is a number of nanoseconds. A bson document is
-- the record that it decodes to. strings.ToLower and strings.TrimSpace are those of ASCII.
--
-- Not modelled: the HTTP handlers, Kafka, MinIO, tracing, rendering, the aggregation pipelines that
-- only read, and, so far, the worker that consumes source events, reconciliation, modes, the queue of rebuild
-- jobs, and the leaderboard service but for its prize schedules. The map over
-- the second targets is ranged over in the order of the list, which Go leaves open.
pub mod Base
pub mod Money
pub mod Mongo
pub mod Leaderboard
pub mod Earnings
pub mod Tests
