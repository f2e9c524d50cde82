-- ===== src/Lib.antt =====
-- Verification of the frontend's core logic: the tiling layout of a tab, the commands on JSON values,
-- the routing of RPC messages and events, the clients that send and answer them, the connection to the
-- server, the cache of its objects, the queue of a window's tabs, and the histories and key
-- descriptions of blocks.
--
-- Base holds what all parts share: tests, exceptions as values (Errors), signed integers (Int), lists
-- (Lists), the Map of JavaScript (Maps), and texts (Texts).
--
-- Layout is frontend/layout/lib. Layout/Types has the data of types.ts: a node is a leaf, without
-- children, or a branch with its list of children. Layout/Node has the operations of layoutNode.ts on
-- a node and what is below it, with balanceNode in Node/Balance and findNextInsertLocation in
-- Node/Location. Layout/Tree has those of layoutTree.ts on the state: the root, the focused and the
-- magnified node, the order of the leafs, and the generation; Tree/Replace has replaceNode and the
-- splits, Tree/Move moveNode, and Tree/Compute computeMoveNode. Layout/Drop has determineDropDirection
-- of utils.ts, and Layout/Model is layoutModel.ts: Model/Reducer has treeReducer over the operations
-- on the tree, and Model/Update the updateTree that follows, with the order of the leafs and the stack
-- of focused nodes, Model/Operations focusing and closing a node, and Model/Temporary the node that is
-- shown above the others; number texts and localeCompare are parameters. The tree is a value: an
-- object that the code holds is found again by its id, and a change of it is a write at that id. The
-- ids that crypto.randomUUID makes are a function of the number of the call. Sizes and indices are
-- integers, and the powers of the insert location are exact. The other modules below these hold what
-- is proved.
--
-- Json is frontend/util/ijson.ts: Values has the values, Json the reads and writes by a path, Commands
-- applyCommand. A write returns the value as it is afterwards.
--
-- Router is frontend/app/store/wshrouter.ts, and Events is frontend/app/store/wps.ts, which the router
-- calls for an event. Clients and handlers are numbers; what they receive and when they are called are
-- lists, in order. Events/Server is how pkg/wps/wps.go, with StarMatchString of
-- pkg/util/utilfn/utilfn.go, matches the scopes that were asked for. Router/Steps has the router's
-- calls in any sequence, as a relation.
--
-- RpcClient is frontend/app/store/wshclient.ts, a client that the router knows: how it answers a
-- command, with the handlers as a parameter, and how it calls. RpcClient/Generator is the generator of
-- wshrpcutil.ts that hands on the parts of an answer; it is a state with the place where it stands,
-- and the calls of next, the messages and the timer are its events.
--
-- Websocket is frontend/app/store/ws.ts, by which the router reaches the server: the socket, its
-- timers and the program's calls are events, and what is sent and put off are effects, in order. The
-- size of a message is a parameter, and times are milliseconds. A handler for a reconnect is a number
-- with the messages it pushes.
--
-- ObjectStore is frontend/app/store/wos.ts, which the updates from the server reach. The objects of
-- the cache are a heap, since hooks and promises share them; ObjectStore/Steps has all that happens to
-- the cache as events, the answers to its requests among them.
--
-- Window is the queue of actions of emain/emain-window.ts: an asynchronous call runs up to where it
-- waits, and what it waits for is an event, so that all orders of events are covered.
--
-- History is frontend/util/historyutil.ts and Keys is frontend/util/keyutil.ts. The platform is an
-- argument, and toLocaleLowerCase is a parameter.
--
-- Every loop is structural recursion, on the tree, the list, the path or the text. The one loop that
-- counts is the pop of History, which has as many rounds as the list has elements. The timers of the
-- Websocket queue fire in Websocket/Delivery on fuel: a round for each message that waits is enough.
--
-- Not modelled: React, jotai and the DOM, with the rest of layoutModel.ts, whose geometry is floating
-- point; Electron's windows, menus and processes but for the queue above; the fetch to the server; the
-- texts of most error messages and the log; the file subjects of wps.ts; generated code; and the Go
-- programs, but for the matching of scopes.
pub mod Base
pub mod Events
pub mod History
pub mod Json
pub mod Keys
pub mod Layout
pub mod ObjectStore
pub mod Router
pub mod RpcClient
pub mod Websocket
pub mod Window
