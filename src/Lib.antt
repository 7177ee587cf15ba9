-- ===== src/Lib.antt =====
-- Verification of the browser client of a distributed, replicated file storage: the services that poll the
-- coordinator and keep what the pages show, the client that sends their requests, and the parts of the pages
-- that decide what is shown and what a gesture does (frontend/src).
--
-- The parts, and the files that model them:
--
-- Api: the types of frontend/src/types/api.ts and the errors that a request throws. An optional field is an
--   Option. Times are whole milliseconds, and latencies of nodes tenths of them.
-- Runtime, Runtime/Listeners: timers, abort controllers and notifyListeners. A listener is a number; whether
--   it throws on a value is a parameter of the runtime.
-- Backoff: calculateBackoffInterval, which the four services share. The factor is an exact fraction.
-- Polling: the loop of startPolling over an interface (Poller) and its laws (Polling/Lawful); each service
--   fills both in its module Poll. A machine holds the service, its runtime and the numbers of requests under
--   way; an event is a call, a timer that runs, or a reply, so interleavings are lists of events.
-- Health, Cluster, Heartbeat, Files: frontend/src/services/healthService.ts, clusterStatusService.ts,
--   heartbeatService.ts and fileService.ts. A service is a record with the fields of the class. A method takes
--   the record and the runtime and returns both; it is cut at each await, and the part after it takes the
--   reply. A method that throws returns the error. Heartbeat/Node has the entries of the rail, Files/Upload,
--   Files/Download and Files/Deletion the transfers, Files/Messages the texts of their failures, Files/Search
--   the search, Files/Calls the sequences of calls.
-- Router: frontend/src/router/router.ts, the table of routes and the current path.
-- Client: frontend/src/api/client.ts; Client/Download, Client/Disposition and Client/Upload have the
--   transfers, Client/Refusals how an error status is told to the user. An upload by XMLHttpRequest is a promise
--   that a sequence of events settles.
-- Focus: frontend/src/utils/focusManager.ts over a page whose elements are numbers; Focus/Trap has any
--   sequence of Tab and Shift+Tab, with the browser's own step as a parameter.
-- NodeDetail: frontend/src/components/NodeDetailPanel.ts, the drawer as data: closed, skeleton, failed or
--   telemetry, with its rendering and its update in place. NodeDetail/Texts has the texts of its numbers.
-- Shell: the drawer's calls and the heartbeat listener of frontend/src/main.ts. openNodeDetail is cut at its
--   await, so replies come in any order; Shell/Events has sequences of calls, replies and heartbeats.
-- Handlers: the listeners of the file panel in frontend/src/main.ts over the file service; a gesture is an
--   event with the element that its listener finds.
-- Boundary: frontend/src/components/ErrorBoundary.ts. A callback of the retry is what it does to the boundary
--   and how it ends, so that it may render under the boundary's own guard.
-- FileTable: frontend/src/components/FilePanel.ts as data: rows, banner and cards in FileTable/Row and
--   FileTable/Panel, the update in place with the signature of the table in FileTable/Update. The
--   panel as data keeps sizes and times as numbers; FileTable/Texts has their texts.
-- Header: frontend/src/components/ClusterHealthIndicator.ts and ClusterStatus.ts, and the listeners of
--   frontend/src/main.ts that fill the header from the cluster and health services.
-- Rail: frontend/src/components/HeartbeatRail.ts, the lanes as data. Rail/Ticks has the ticks of a track,
--   Rail/Shows the update of all lanes.
-- Facade: frontend/src/services/apiService.ts and the module functions at the end of frontend/src/api/client.ts,
--   up to the await of a call.
-- Dashboard: renderDashboard of frontend/src/main.ts under the error boundary, with the retry that init
--   registers and the error listeners of the window; a rendering is how its function ends.
--
-- Formats: the formatters of frontend/src/tokens/index.ts and of the two components that show times.
-- NodeTable: frontend/src/components/NodeList.ts, the rows of the nodes as data, with their update in place in
--   NodeTable/Update. The sort by the names is a parameter.
-- Application: the page of frontend/src/main.ts as a whole. Application/Sync has the listeners of the services
--   over what the services last told, Application/Selection the listeners for clicks and keys over a target with
--   what the listener finds around it, and Application/Hover those of the mouse. Application/Marks runs openings,
--   closings, replies and results in any order. Application/Lifecycle has init and the unloading, with turns of
--   the four polling loops in any order, and navigations between its routes.
--
-- How they interact: a service calls the client through its facade and meets the outcome as a reply, resolved
-- or rejected; Client/Refusals follows an error from the server's answer to the banners of the file service. The
-- gestures of Handlers call the file service with the state that the cluster service last saw; Application/Sync
-- passes what the services tell to the header, the rail, the table of the nodes, the panel of the files and the
-- drawer; the drawer of Shell takes its nodes from the heartbeats and gives the focus back through Focus.
--
-- Bounds: lower case is that of ASCII letters; a number in a text is written with fuel one above the number,
-- and Prelude/Texts shows that more fuel changes nothing. No other function takes fuel. Sizes and times are
-- unbounded naturals; the texts of sizes are the program's below 2^53 and with at most 11 decimals. The
-- percentage of an upload is that of a total above zero.
--
-- Outside: fetch and XMLHttpRequest (how a call ends is an argument), the URL parser, the coders of URI
-- components, toISOString, the logarithm and the sort by a locale (parameters), and the browser's download of a
-- blob but for its timer. Of the pages the fixed markup is not modelled. The constants of the design tokens are
-- left out, and so is the coordinator, which is written in Python.
pub mod Api
pub mod Application
pub mod Backoff
pub mod Boundary
pub mod Client
pub mod Cluster
pub mod Dashboard
pub mod Facade
pub mod FileTable
pub mod Files
pub mod Focus
pub mod Formats
pub mod Handlers
pub mod Header
pub mod Health
pub mod Heartbeat
pub mod NodeDetail
pub mod NodeTable
pub mod Polling
pub mod Prelude
pub mod Rail
pub mod Router
pub mod Runtime
pub mod Shell
pub mod Tests
