-- ===== src/Lib.antt =====
-- The frontend of LexiGo, a trainer of English vocabulary: the parts of frontend/lib and
-- frontend/components that carry its logic, modelled as functions on explicit states.
--
-- A lesson's review goes through the outbox when the network is away. The runtime component stores it
-- (Outbox.Queue), reads the stored records back and sends them one after another (Outbox.Sync), with a
-- session that it refreshes on a 401 (Auth.Refresh). Every other request goes through fetchWithTimeout,
-- which keeps two resources for 15 seconds (Http.Cache) and turns what fails into a failure and a
-- problem that the screen shows (Http.Failure, Http.Problem). The session that a document has restored
-- outlives its route chunks (Auth.Bootstrap). The lesson's screen walks from item to item
-- (Lesson.Flow) and leaves a result for the next screen (Lesson.Result); Learning puts its items in
-- order and judges the answers. A screen has a target that becomes a URL and is kept for the next
-- start (Navigation). A new build replaces the old one's state (Update). The recorder (Recorder), the
-- calendar reminder (Calendar) and the pages of a catalog (Catalog) stand alone.
--
-- Files:
--   Outbox.Payload, Outbox.Endpoint, Outbox.Record, Outbox.Queue: frontend/lib/review-outbox.ts.
--     parseLessonReviewPayload is parse_lesson_review_payload, parseLessonReviewEndpoint is
--     parse_lesson_review_endpoint, and each of enqueueLessonReview, updateLessonReview,
--     listLessonReviews, reviewOutboxSummary and pruneSyncedLessonReviews is the function of that name
--     on a ReviewStore; Outbox.Queue.Contract is what their callers rely on.
--   Outbox.Run, Outbox.Sync: syncPendingReviews with its loop, refreshSummary and sendQueuedReview in
--     frontend/components/review-outbox-runtime.tsx; Outbox.Intercept: the part of its interceptedFetch
--     that stores a review and sends it.
--   Http: frontend/lib/request-failure.ts.
--   Auth.Session, Auth.Refresh, Auth.Cookie: frontend/lib/auth-session.ts; Auth.Bootstrap:
--     frontend/lib/session-bootstrap.ts; Auth.Request: frontend/lib/authorized-json.ts, with one
--     Circumstance for each of the two requests.
--   Recorder: the class PronunciationRecorder of frontend/lib/pronunciation-recorder.ts, one function
--     for each method, handler and end of a request.
--   Lesson.Flow: frontend/lib/lesson-flow.ts; Lesson.Result: frontend/lib/lesson-result.ts, with the
--     checks of readLessonResultSnapshot in Lesson.Result.Snapshot; Lesson.Handoff:
--     frontend/lib/lesson-composition-handoff.ts.
--   Learning: frontend/lib/learning.ts. Learning has the items, prepareWordItems and exerciseAnswer,
--     Learning.Answer normalizeAnswer and judgeLearningAnswer, Learning.Options buildAnswerOptions.
--   Catalog: frontend/lib/catalog-page.ts.
--   Navigation: frontend/lib/navigation.ts. Navigation.Target has normalizeNavigation, Navigation.Path
--     pathnameTarget, routePath and isCanonicalRoutePath, with isScenarioSlug of
--     frontend/lib/scenarios.ts, Navigation.Url parseNavigation and navigationURL, Navigation.Stored
--     the persisted navigation. Navigation.History: frontend/lib/navigation-history.ts;
--     Navigation.Tabs: frontend/lib/route-tab-snapshots.ts.
--   Update.Build, Update.Recovery: frontend/lib/service-worker-update.ts; Update.Guard: the script that
--     frontend/lib/build-version-guard.ts writes.
--   Calendar: frontend/lib/calendar-reminder.ts.
--   Json: the values of JSON.parse and the texts of a storage; Common: lists, texts,
--     their characters and parts, decimals, a stable sort, association lists, and encodeURIComponent
--     with decodeURIComponent in Common.Uri.
--   Tests: the theorems at concrete inputs.
--
-- State. A promise, a clock, a network reply, a store that refuses a write and a browser call that
-- throws are arguments: the record Attempt of the synchronisation, Call of a request, Grant of the
-- recorder, the events of Auth.Bootstrap, Auth.Refresh.Flight and the recorder. Two callbacks never run
-- at once, so a history is a list of such steps. Object stores, Map and Storage are association lists
-- in the order of their keys' arrival; IndexedDB would list them by key, so records that were created
-- in the same millisecond may be listed in another order there. Times are milliseconds after 1970;
-- toISOString and Date.parse only respell them. A stored JSON text stands for the value that it spells.
-- A group of roundRobin with its index is the list of the items that it still has. Streams, recorders,
-- object URLs and promises are numbers that are given out in order. A text is the list of its code
-- units; a line that Calendar.Lines folds is the list of its code points.
--
-- Fuel. match_endpoint and the folds recur on their text. digits_of has fuel n + 1 for n. The search for
-- a change of the time-zone offset has the upper bound as fuel and every round shortens the interval;
-- the scan of a range has the range's length as fuel and every round moves the cursor on, so both end
-- before their fuel does. roundRobin has one round more than it has items. nextCalendarOccurrence has
-- the 15 rounds of its loop.
--
-- Parameters. URLSearchParams is the record SearchParams, with the law that parameters without a lone
-- surrogate survive the way through a text; spell is String on the numbers that are not natural.
-- is_date and parse_date are Date.parse; without_query deletes a parameter from an address; offset is
-- what Intl.DateTimeFormat says of one time zone; at_local and local_day are the local calendar of
-- Date; to_number is Number on values that are no numbers, is_half the rounding of a fraction's mark.
-- Letters is what Unicode says of a character: its lower case, and whether it is a letter or a number.
-- Apart from the laws of SearchParams, the one law that is assumed, as a hypothesis of the theorem
-- that needs it, is that every time of a later local day is after the present one.
--
-- Not modelled: the markup and effects of React, IndexedDB's opening and transactions, timers,
-- listeners of the recorder, the cross-tab lock, the other files of frontend/lib, and the
-- backend, which is written in Go.
pub mod Common
pub mod Json
pub mod Auth
pub mod Http
pub mod Outbox
pub mod Recorder
pub mod Lesson
pub mod Navigation
pub mod Update
pub mod Calendar
pub mod Tests
pub mod Learning
pub mod Catalog
