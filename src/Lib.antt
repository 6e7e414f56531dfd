-- ===== src/Lib.antt =====
-- notGT: broadcast graphics on a NodeCG server. Templates are placed on outs; the extension decides what
-- is on air and for how long, keeps variables and timers, and the pages in the browser render the state
-- that it publishes. This library models the extension's own logic.
--
-- The parts, and the code that each models:
--   Timer     bundles/notGT/src/shared/timer.ts: a timer, what it shows at a moment (`timerValue`,
--             `timerVars`) and how a time is read from text (`parseTimerText`, in Timer/Parse).
--   Slug      `slugify` of bundles/notGT/src/shared/types.ts and `uniqueTimerKey` of shared/timer.ts.
--   Timers    bundles/notGT/src/extension/timers.ts. Params: what a command's parameters mean
--             (`duration`, `settings`). Settle: `write` and `scheduleSettle`. Command: `command`, one
--             function for each command. Stored: `normalize`, on the list that a boot finds. Timer/Fold
--             has its `folded` and `rebased`.
--   Model     bundles/notGT/src/shared/types.ts: the records of the store.
--   Store     bundles/notGT/src/extension/store.ts. Library: templates and outs. Playing: the runtime,
--             what is on air. Program: the title on the program output (`show`, `hide`, `toggle`).
--             Variables: the selection, and a variable read by path. Data: variables written and deleted.
--   Scheduler bundles/notGT/src/extension/scheduler.ts: `sync` and what a held placement does; OneShot:
--             `trigger`, `play`, the timeouts and `triggerTemplate`.
--   Binding   bundles/notGT/src/shared/binding.ts: `parsePath`, `getByPath` and `materializeSelection`;
--             Edit: `setByPath`, `deleteByPath` and `getByPathRaw`.
--             A path is read in one pass, which gives the matches of the code's regular expression.
--   Trigger   bundles/notGT/src/extension/trigger.ts: `playTemplateOnce`.
--   Team      bundles/notGT/src/extension/team.ts and the shapes of shared/team.ts. Reach: the outs and the
--             groups of a user or a key. Users, Groups, Keys: the requests that change them. Boot: the
--             default administrator. Requests: the teams that a server comes to have, as a relation.
--   Auth      bundles/notGT/src/extension/auth.ts: the methods of `Access`, who a principal is and how far
--             it reaches. Guard: the token of a request, and `createApiAuth`.
--   Ws        bundles/notGT/src/extension/ws.ts. View: what a client is told (`buildPublicState` of
--             extension/api.ts, `stateFor`). Commands: titles and placements, and Select. Session: the
--             table of commands. Frames: connections, `login`, the answer to a frame, edits of the team.
--   Ngt       bundles/notGT/src/extension/ngt.ts: the `.ngt` file, `encodeNgt` and `readNgt` on the bytes
--             of a file; Project: `projectOf`.
--   Render    bundles/notGT/src/extension/render.ts and the shapes of shared/render.ts: the jobs that are
--             asked for, cancelled and ended, and the checks of a request.
--   Json      the values of JavaScript that parameters and variables are.
--   Base      lists, texts, objects with text keys, and integers, on native numbers.
--   Tests     a small show on which the theorems are applied.
-- Trigger uses the scheduler and the store, the scheduler the store; Timers uses Timer and Slug; Auth asks
-- the team; Ws asks Auth who a client is, and works on the scheduler, the store and the timers.
--
-- How the code is modelled:
-- * A Replicant is a field of `Store` or of the timers' `State`, and an operation is a function from the
--   state to the state. `clone` copies and leaves no trace. Log lines and listeners are left out.
-- * Texts are lists of code units. Times are whole milliseconds: natural numbers, or integers where the
--   code may go below zero; a subtraction of natural numbers stops at 0, as the code's `Math.max(0, …)`
--   does. A number that is missing or not finite is `none`. Rounding is the identity on whole numbers.
-- * `Date.now()` is an argument. Where the code looks at the clock several times, `clock k` is its k-th
--   look; nothing is assumed of it but where a theorem says so.
-- * A thrown error is the `err` of a result. `newId` is a parameter: a theorem that needs its id to be
--   new says so.
-- * A timeout is the time at which it is due (`Due`), its callback is a function of its own (`expire`,
--   `manual_end`), and the `change` events that call `sync` come between the operations.
-- * The length of a template's video is read from a media file: it is the parameter `duration_of`.
-- * `scheduleSettle` calls `write`, which calls it again: its fuel is one more than there are timers,
--   which is enough, since every further look stops a running timer. The search of `uniqueTimerKey` has
--   as many tries as there are keys taken, which is enough for the same reason.
--
-- * The file of the team is the state itself; `save` fails when the disk cannot be written, and what was
--   changed in memory stays. scrypt, the hashes of Node, the parser of URLs and NodeCG's check of a session
--   are parameters.
-- * The reader of a `.ngt` file has as much fuel as the file has bytes: a chunk takes at least sixteen, and
--   with none left the file ends too early, as the code says of it.
-- * A connection that the server asks to close keeps its client, whose frames are answered, until it is closed.
-- * A value is what JSON holds: a function that objects inherit stands as `undefined`. What a path through
--   `__proto__` does to the prototypes that all objects share is left out.
-- * A principal of the code is functions over the team; here it is who it is, and the functions take the
--   team of now. The frames that the server pushes, and the timeouts that gather them, are left out.
--
-- Not modelled: the interpolation of tokens, the seeds of the store and the timers, the store's migrations,
-- the routes of the HTTP API and of the team (they parse a request and call the operations above), data
-- sources and workbooks, media, imports and what draws and encodes a render, which are files and other
-- programs, corners and motion, which compute with fractions, the pages (a browser's document and animation
-- frames), the NodeCG framework (another project), and the native code of NDI, Spout, the launcher and the
-- lyrics bridge.
pub mod Base
pub mod Timer
pub mod Json
pub mod Slug
pub mod Timers
pub mod Model
pub mod Store
pub mod Scheduler
pub mod Trigger
pub mod Binding
pub mod Team
pub mod Auth
pub mod Ws
pub mod Ngt
pub mod Render
pub mod Tests
