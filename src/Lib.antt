-- ===== src/Lib.antt =====
-- The logic of the mqtt-dashboard frontend: how messages are matched to topics, read, written and
-- judged, how panels validate their settings and keep their state, how the live connection is kept,
-- how topics are searched, and how dashboards are laid out and exported.
--
-- The parts, and the code that each models:
-- - Topic: mqttTopicMatches of frontend/src/components/panels/logicUtils.ts and its copy in
--   frontend/src/hooks/useWebSocket.ts. Topic/Matching holds the specification, a relation on
--   levels. Topic/Status is frontend/src/hooks/useTopicMessages.ts.
-- - Scan: the constructs of regular expressions that the program uses, each as a scanner that
--   gives what it matches at a place; exec searches, replace_all replaces. Scan/Laws says how the
--   pieces of a search fit together.
-- - Template: the tokens of payload templates in frontend/src/components/panels/payloadShape.ts;
--   its children are the chunks (Template/Chunks), keepOneToken and the caret (Template/KeepOne),
--   placeToken (Template/Place), interpolation (Template/Interpolate), findLiterals, markLiteral
--   and swapOrMarkLiteral (Template/Literals), detectPayloadMode and previewPayload
--   (Template/Preview).
-- - Json, Value: documents, parseLooseJson, resolvePath, coerceValue, extractValue, and suggestPaths
--   (Value/Suggest).
-- - Read: matchTemplate (Read/Stencil), deriveReadPath (Read/Path), readValue, readShape.
-- - Panel: frontend/src/components/panels/gaugeUtils.ts and the readings of
--   frontend/src/components/panels/graphUtils.ts (Panel/Gauge),
--   frontend/src/components/panels/toggleUtils.ts (Panel/Toggle), the conditions of automation
--   rules in logicUtils.ts (Panel/Logic, and its texts Panel/Logic/Summary).
-- - Graph: the series of frontend/src/components/panels/graphUtils.ts. Graph/Plotted says what a
--   graph is made of.
-- - Cron: frontend/src/components/panels/cronUtils.ts; Cron/Search is the search for the previous
--   run.
-- - Panel/Confirm: the command that waits for its confirmation, which
--   frontend/src/components/panels/TogglePanel.tsx and SliderPanel.tsx keep alike; Panel/Toggle/Flip
--   is ToggleRuntime over it, with a machine of views that it refines (Panel/Toggle/Flip/Refines).
-- - Panel/Slider: frontend/src/components/panels/sliderUtils.ts and SliderRuntime of SliderPanel.tsx.
-- - Panel/Logic: beside the conditions, frontend/src/components/panels/LogicPanel.tsx: the dialog of
--   a rule (Panel/Logic/Rule, its edits Panel/Logic/Edits, how it opens Panel/Logic/Opened) and the
--   panel of it (Panel/Logic/Live); Panel/Logic/Safe and Panel/Logic/Brokers set the two against
--   each other and against the connection manager.
-- - Panel/Log: the messages of frontend/src/components/panels/LogPanel.tsx.
-- - Panel/Registry: frontend/src/components/panels/registry.ts.
-- - Explorer: buildTree and HighlightText of frontend/src/components/explorer/TopicTree.tsx, and
--   topicMatchesFilter of frontend/src/components/explorer/topicFilterUtils.ts (Explorer/Filter), whose
--   regular expression is a list of items. What HighlightText should mark is said in
--   Explorer/Highlight/Pieces and Explorer/Highlight/Found, without its intervals.
-- - Grid: the places of panels in frontend/src/pages/DashboardPage.tsx.
-- - Automations: frontend/src/pages/AutomationsPage.tsx, the jobs and their toggling; what is
--   displayed of them is Automations/Shown, a filter and a sort (Prelude/Sort), against what each
--   filter asks of a job (Automations/Fits, Automations/Passing) and what an order is
--   (Automations/Displayed). The countdown and the ages beside them are Automations/Times, and what
--   the filters offer is Automations/Choices.
-- - Layout: frontend/src/components/Layout.tsx, the dashboards and the one that is shown, with what
--   is picked in frontend/src/components/DashboardSelector.tsx, and the sum of the brokers.
-- - Config: frontend/src/components/panels/config/useConfigValidation.ts, the rules and what a
--   form shows of them.
-- - Socket: WSConnectionManager of frontend/src/hooks/useWebSocket.ts. A state is the manager's
--   fields with the sockets and timers of the runtime; every method and every handler is a
--   function of it, and Socket/Steps says which of them can happen next.
-- - Dashboard: frontend/src/utils/dashboardIO.ts.
--
-- How they interact: a panel registers a listener with the manager, which passes it the frames
-- whose topic a filter matches (Socket over Topic). The panel reads the value out of the message
-- through its shape (Read over Template and Value), a toggle or a rule decides by that value
-- (Panel), and what a control publishes is the interpolated template (Template/Interpolate). A form
-- lets a shape or a topic be saved when no rule is broken (Config). The dialog of a rule saves what
-- the panel of the rule then listens to (Panel/Logic).
--
-- Texts are lists of UTF-16 code units. What the JavaScript runtime does and no source here says
-- is the record Json.Runtime: floating-point numbers, JSON.parse and JSON.stringify, and the case
-- tables. Numbers without NaN are an abstract type, and NaN is none. The clock is an argument where
-- a rendered message can hold it: a toggle that reads a message renders the references anew, at the
-- time of the reading, which is not that of the publishing. The local calendar is a parameter of Cron/Search. Names
-- of fields in Config are the program's own words, none of them a member of Object.prototype.
--
-- localeCompare and the reading of dates are parameters of Automations/Shown; a date that is shown
-- there is in 1970 or later. The numbers of a rule's dialog and of a job are natural.
--
-- Fuel: the loops over regex.exec take one round for each match. Matches are not empty, so the
-- length of the text plus one is enough. The search for a cron run goes back in each round,
-- so the number of the minute it starts from is enough.
--
-- Not modelled: the drawing of React components, their effects and the requests they send, the HTTP
-- client, the definitions of the panels in definitions.tsx, the pages ConfigPage.tsx and
-- ExplorerPage.tsx with PanelWrapper.tsx, and the Go backend. Of graphUtils.ts the geometry and the
-- labels, of DashboardPage.tsx the scrolling of the grid, of AutomationsPage.tsx the popovers, of
-- LogicPanel.tsx the status that is polled and the timer of a sustained rule, of Layout.tsx the
-- health check and the requests of the selector's forms.
pub mod Prelude
pub mod Topic
pub mod Scan
pub mod Template
pub mod Json
pub mod Layout
pub mod Value
pub mod Read
pub mod Panel
pub mod Config
pub mod Socket
pub mod Dashboard
pub mod Graph
pub mod Cron
pub mod Grid
pub mod Automations
pub mod Explorer
mod Tests
