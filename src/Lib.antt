-- ===== src/Lib.antt =====
-- Strata PVR: the logic of the browser application (web/app.js).
--
-- The application is one script that holds its state in the object `state`, reads the server's data
-- by requests, and renders lists, dialogs and a player. The files model the parts of the script
-- that decide something, and leave the elements of the page out:
--
-- - Base: what the modules share. Base/Text has the methods of texts, Base/Keys the objects that
--   the script uses as sets, Base/Sort the stable sort of arrays, Base/Decimal `String(n)`, and
--   Base/Double the rounded arithmetic of numbers that are not whole.
-- - Program: the fields of a programme and the small functions on them (`channelName`,
--   `programCategory`, `programEnd` and so on). Program/Tables and Program/Title: the symbols of the
--   broadcast and the title that is shown (`aribExternalFlagName`, `stripProgramFlags`,
--   `programTitle`). Program/Flags: `programFlagNames`. Program/State: the index by id, the
--   decoration with reserves and recordings, the labels (`decorateProgramState`,
--   `programStateLabels`). Program/Actions: the buttons (`renderActions`,
--   `renderRecordedActions`).
-- - Listing/Programs: filters, orders and categories of the lists (`filteredPrograms`,
--   `sortedPrograms`, `listCategories`). Listing/Pages: the pages of the recorded list
--   (`recordedPageItems`, `updateRecordedPaginationControls`, `bindRecordedPagination`).
--   Listing/Search: the search page with its requests, whose replies come in any order
--   (`loadSearchPage`, `bindSearchControls`), and the links, addresses and views that
--   lead to it (`channelLink`, `setView`).
-- - Player/Query: the query of a playback address and the presets (`applyQualityToQuery`,
--   `qualityFromQuery`). Player/Url: the addresses (`recordedPlaybackURL`,
--   `liveChannelPlaybackURL`), with the encoding of components in Player/Url/Encode and the pattern
--   of `stopPlaybackRequest` in Player/Url/Stop. Player/Timeline: durations and the shown time
--   (`playerFiniteDuration`, `playerCurrentTime`). Player/Source: the source that is played, with its
--   session and the queue of stops (`setPlayerSource`, `queuePlaybackStop`, `startPlayerMSE`);
--   Player/Source/Dialog: what opens, changes, seeks and closes it (`openPlayerDialog`,
--   `openLiveChannelPlayer`, `ensureMPEGTSLoaded`, `changePlayerQuality`, `stopPlayerVideo`).
--   Player/Source/Sessions has the machine of sessions that the requests are compared with.
-- - Guide/Channels: the channels of the guide (`scheduleChannelID` and so on, `categoryClass`).
--   Guide/Cards: the moves of the keyboard (`adjacentScheduleCard`, `focusAdjacentRow`).
--   Guide/Filters: labels of the filters (`scheduleActiveFilterLabels`).
-- - Requests: the events between windows (`notifyEventForPath`); Requests/Realtime: the messages that
--   carry them (`publishRealtime`); Requests/Send: what a request comes to (`request`, `sendJSON`,
--   `requestError`). Config: what is read from the form of the configuration
--   (`readStrataConfigForm`), with its users in Config/Users. Status: `formatUptime`,
--   `splitList`.
-- - Loading/Logos: the queue of channel logos (`drainChannelLogoLoadQueue`). Loading/Confirm: the
--   question before an action (`confirmAction`, `closeConfirmDialog`). Loading/Refresh: `refresh`
--   with the refresh that is queued behind it. Loading/ProgramData: the programme data of a view
--   (`loadProgramDataForView`, `applyProgramData`). Loading/ViewData: the data of the rules, the
--   settings and the status (`loadViewData`). Loading/Operational: the periodic refreshes
--   (`refreshOperationalData`, `refreshMetrics`).
-- - Settings: the local storage with the hidden channels (`loadHiddenChannels`). Settings/Filters:
--   the filters of the lists and the view of the recorded list (`normalizeListFilters`).
--   Settings/Zoom: the zoom of the guide (`changeScheduleZoom`).
-- - Rules/Form: what is read from the form of a rule (`readRuleForm`), in stages that may end with a
--   message; Rules/Fields has the properties of an object and such results. Rules/Options: the options of
--   its lists (`channelOptionEntries`, `categoryOptionEntries`). Rules/Fill and Rules/Actions: the form
--   filled from a rule or a programme, and its buttons (`fillRuleFormFromRule`,
--   `fillRuleFormFromProgram`, `saveBasicRule`). Rules/List: the list of the rules (`filteredRules`,
--   `sortedRuleEntries`, `ruleSummary`, `ruleValidationIssues`).
-- - Subtitles/Stream: the reader of live WebVTT (`consumePlayerLiveWebVTT`).
--
-- The lists show programmes with the titles and the categories of Program, and the buttons of
-- Program/Actions open the addresses of Player/Url. The laws of a module stand in the files below it.
--
-- Numbers are natural numbers: times in milliseconds, lengths and pages. The time of a video and what
-- a seek computes are doubles, rounded to 53 binary digits as the script's numbers are; durations are
-- whole seconds. Where the script subtracts times, the model compares sums. A missing property of a
-- programme reads as the false value of its
-- type. An object is the list of its properties in the order of `Object.keys`; where it serves as a
-- set, the names that every object inherits count as present, as they do in the script. Texts are
-- lists of code points, and of UTF-16 units in the reader of subtitles.
--
-- Fuel: the loop of `emitCompleteBlocks` has the length of the pending text, and each round makes
-- that text shorter; the division of a whole body likewise (see Subtitles/Stream/Breaks and Whole); a
-- number n has at most n + 1 digits; what is rounded to a double has at most 1024 binary digits behind
-- the first 53 (Base/Double).
--
-- The lower case and the collation of the language are parameters (`Locale`), and so are what the
-- browser can play (`Browser`), how it reads addresses and numbers (`Page`), what the rules' form asks
-- of it (`World`, `Words`) and the texts of JSON values (`Format`). Replies of the server, chunks of a
-- stream and the order of events are inputs.
--
-- Not modelled: the server (Go); web/mpegts.js, another project's library; the elements of the page,
-- styles, charts and focus, with the orientation of the screen (web/player-orientation.js); the guide's
-- groups and the layout of its cards, and the cues of subtitles.
mod Base
pub mod Program
pub mod Listing
pub mod Player
pub mod Guide
pub mod Subtitles
pub mod Loading
pub mod Settings
pub mod Requests
pub mod Rules
pub mod Config
pub mod Status
