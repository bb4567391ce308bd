-- ===== src/Lib.antt =====
-- The dashboard of the ShareFrame board: the state that it keeps in the browser, and the thunks that
-- talk to the board. The code is dashboard-frontend/frontend/src, its core store/, a Redux store of
-- slices. A component dispatches actions, which the root reducer turns into the next state, and
-- thunks, which send requests to the board's HTTP interface and dispatch actions at each step. Many
-- thunks run at once: whenever one waits, the rest of the dashboard goes on.
--
-- The parts and their files.
--   Common            numbers, lists, text and case splits that the other files share.
--   Snackbars         store/snackbars: the notifications; Alerts and Loading prove.
--   Timers            store/timers: the countdown timers; Dict is the dictionary that they stand in.
--   SlideshowOperation  store/slideshowOperation: state and reducer; Flags proves.
--   SlideshowStatus, SlideshowImages, Network, ConnectionMode, Auth, Navigation, Dialogs, LoadingWall,
--   Services, Updates, FrameLogs, DisplayCustomization
--                     the slices of the same names under store/: state and reducer.
--   FrameInfo         the slices store/frameInfo and store/displayStats.
--   BoardErrors       common/utils/errors/boardErrors.ts.
--   StaleChunk        common/utils/staleChunkReload.ts.
--   Async             the stages of an asynchronous thunk that the reducers listen to.
--   Board             assets/endpoints/api/frame.ts and the types of the board's answers.
--   Store             store/rootReducer.tsx.
--   Thunk             programs, the way in which thunks are written here, and their runs; Toolkit is
--                     the interface to createAsyncThunk.
--   Thunks            the thunks of the slices: Slideshow has a module for each operation, Timers the
--                     two syncs, Auth the session, Power the commands of store/piPower, Network the
--                     saved networks, Services the board's services, Images what the board shows and
--                     how it is connected, FrameLogs the logs and their cache, Updates the updates,
--                     and Overviews the board's figures and the sender's name; Announced and Notified
--                     have the loading notifications.
--   Interleaving      many thunks at once: a relation of turns, each of which runs one thunk from one
--                     wait to its next; Phases and Ends follow the flag of an operation along every
--                     path of its program, Sound is the invariant.
--   Store.Persisted   store/index.ts and store/migrations.ts: what survives a reload of the page.
--   Main              what the pages compute themselves: FrameActions is main/frame/frameActions.tsx,
--                     NetworkBanner the banner of common/components/networkStatusBanner.tsx with the
--                     card of main/network/hotspotCard.tsx, NetworkForms main/network/dialogs/dialogs.tsx,
--                     ImagesPage main/slideshowImages/slideshowImages.tsx and slideshowImagesGrid.tsx,
--                     ReleaseNotes common/utils/releaseNotes.ts,
--                     SignIn main/authentication/signIn/signIn.tsx, UpdatesPage main/updates/updates.tsx,
--                     Durations the texts for durations.
--   Tests             runs at concrete inputs.
--
-- A reducer is a function from the state and an action to the next state; where the source reads
-- Date.now(), it takes the time as an argument. The field names are those of the source. A thunk is a
-- program (Thunk.Prog): a tree of its dispatches, awaited requests, reads of the state and the clock,
-- and fresh ids, put together by the operations of do blocks, by try_catch and by finally. Thunk.run
-- carries a program out in a world, against an environment (Thunk.Env) which says how the board
-- answers each request and how long it takes, which actions the rest of the dashboard dispatches
-- during each wait, and what ids are drawn. Nothing is assumed of any of these, so a theorem over
-- every environment holds for every interleaving. A request that is not answered within its timeout
-- is aborted, as in common/utils/fetch.ts. Reading the body of an answer takes no wait of
-- its own here: the wait for the request ends when the body is there. In the source it is a second
-- wait, which the timeout of fetch.ts does not bound.
--
-- Bounds. The loop that watches the board after a toggle takes 300 rounds of fuel; each round sleeps
-- for two seconds or more, and the loop ends after ten minutes, so more fuel changes nothing.
-- The loop of pollHealth takes a round for each three seconds of its longest wait and one more, since
-- each round sleeps for three seconds or more; here too more fuel changes nothing.
--
-- What is not modelled. The answers of the board have the types that the thunks declare; a field
-- that the code tests for being missing is optional, with null and undefined taken together.
-- Numbers are integers, except those that are only passed on (FrameInfo.Number). Time stands still
-- between two waits of a thunk. Of the React components only the logic of the pages in Main is here;
-- rendering, styling and the board's own software are left out. redux-persist and the arrayMove of
-- @dnd-kit/sortable are interfaces with their documented behaviour (Store.Persisted.Persistence,
-- Main.ImagesPage.Sortable). What the Redux toolkit does (pending, fulfilled and rejected around a payload creator; immer's drafts) is taken as the
-- reducers see it: as actions, and as functions to the next state; a thunk made by createAsyncThunk
-- takes the toolkit as an argument, with its documented course as a hypothesis (Thunk.Toolkit).
-- Whether the browser is online is an argument of the thunks that ask. The actions that a started
-- thunk dispatches at once are part of the environment.
mod Common
pub mod Snackbars
pub mod Timers
pub mod SlideshowOperation
pub mod Navigation
pub mod LoadingWall
pub mod Dialogs
pub mod Async
pub mod Auth
pub mod Network
pub mod ConnectionMode
pub mod SlideshowStatus
pub mod SlideshowImages
pub mod Services
pub mod Updates
pub mod FrameLogs
pub mod FrameInfo
pub mod DisplayCustomization
pub mod Board
pub mod BoardErrors
pub mod StaleChunk
pub mod Store
pub mod Thunk
pub mod Thunks
pub mod Interleaving
pub mod Main
mod Tests
