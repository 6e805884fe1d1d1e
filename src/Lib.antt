-- ===== src/Lib.antt =====
-- chattui, a terminal chat: a Go server (cmd/server) and a Bubble Tea client (cmd/client).
--
-- A client's read loop hands a message to a service, which stores it and publishes an event on the
-- bus, and then hands the message to the hub, which puts it in the channels of those it is for. The
-- bus starts the inbox service's handler for the event, which counts the message as unread and
-- publishes one event for each user concerned; the hub's handler sends it to that user.
--
-- Ws.antt and the files below it model cmd/server/internal/ws. Ws/Hub.antt is hub.go: the maps of
-- connections and of online users, and each method of the hub's loop; a `*Client` is a number, and
-- `heap` holds the object, since the hub and the client's goroutines share it. A run-time panic is a
-- value of `Outcome`. Ws/Dispatch.antt is client.go: what the read loop does with a frame.
-- Ws/Notify.antt is the hub's handler of inbox events.
--
-- Event.antt and Bus.antt model cmd/server/internal/event and cmd/server/internal/bus. A publisher
-- that finds the queue full waits, which is `none`; a goroutine that the bus starts is an entry of
-- `spawned`, and Server.antt says what each handler does. World.antt is what a service sees of bus and
-- database: its events are accepted.
--
-- Inbox.antt models cmd/server/internal/inbox, Room.antt cmd/server/internal/room and
-- Conversation.antt cmd/server/internal/conversation, each over its Store interface, with the database
-- as a state that the queries change. Db.antt is the transactions of cmd/server/internal/db, whose
-- driver is a parameter with what it documents as hypotheses. Store.antt holds the row types of
-- cmd/server/internal/store, and Errs.antt the sentinel errors. Store/Sql.antt and Store/Feed.antt are
-- what the SQL of inbox.sql.go says over tables as lists; Inbox/Unread.antt puts the inbox service on
-- that SQL, and sees its table as a count of unread messages for each user and room or conversation.
-- Store/Users.antt, Store/Rooms.antt, Store/RoomMembers.antt, Store/Conversations.antt and
-- Store/Messages.antt are the SQL of the other files, over the tables of Store/Database.antt with
-- their constraints; Store/Relations.antt has the parts of SQL that they share. Store/Statements.antt
-- makes steps of the statements that write, and fills the Store interfaces of the auth, room and
-- conversation services with the queries.
--
-- Auth.antt models cmd/server/internal/auth; Auth/Libraries.antt says what bcrypt and the jwt library
-- document. Api.antt is cmd/server/internal/api: Api/Routes.antt is router.go with the check of tokens,
-- Api/Rooms.antt the endpoints to join and leave a room, Api/Endpoints.antt the other handlers,
-- Api/Inbox.antt the mapping of an inbox entry, Api/Upgrade.antt the upgrade to a WebSocket,
-- Api/Limit.antt limit.go of the handlers, and Api/Errors.antt cmd/server/internal/httpx with
-- writeError. Dto.antt is pkg/dto.
--
-- Client/App.antt models cmd/client/internal/ui/app.go, which passes each message of Bubble Tea to the
-- screen that is open; Client/Tea.antt has the messages, the commands and the widgets. Each screen has
-- the Update of its package: Client/Auth.antt, Client/Rooms.antt and Client/Dm.antt of ui/auth,
-- ui/rooms and ui/dm, Client/Chat/Screen.antt, Client/DmChat/Screen.antt and Client/Inbox/Screen.antt
-- of ui/chat, ui/dmchat and ui/inbox. Client/Chat.antt, Client/DmChat.antt and Client/Inbox.antt are
-- the messages and entries of those three. Client/App/Machine.antt is the app with the commands that
-- it has started and that have not answered: an answer may come at any time and in any order. A screen
-- that is not open keeps its last state, which the code drops or overwrites when the screen opens
-- again; maps that the code shares between the app and a screen hold the same badges in both, since
-- each update of one goes to the other while the screen is open. Client/Connection.antt models the
-- loops of cmd/client/internal/ws/client.go and the waits between its dials. Client/Api.antt and the
-- files below it model cmd/client/internal/api over an http.Client that is a parameter;
-- Api/Router.antt is the server's table of routes, and Client/Api/Roundtrip.antt puts the two
-- together. The payload types of the client's ws package have the fields and JSON names of the
-- server's, and share their records here.
--
-- Server.antt is the part of cmd/server/main.go that puts bus, inbox service and hub together.
-- Client/Render.antt and the files below it model ui/chatview, ui/hud and ui/components over lipgloss
-- and x/ansi, and Client/Theme.antt with Client/Theme/Palettes.antt ui/theme; a width is a natural
-- number, and text of several lines is the list of its lines. Of widths the libraries are asked only for
-- narrow lines, with one cell for each character: a cut splits no wide character.
--
-- Numbers: user, room and message numbers are integers, since no code computes with them; unread
-- counts are natural numbers, without the upper bound of their column. The bus holds 512 events and a
-- client's channel 256 messages, as in the code. No definition takes fuel: every loop of the code
-- runs over a list or a map that is given.
--
-- Not modelled: the transport of HTTP, the JSON codec and the widgets of Bubble Tea, parameters
-- where a component needs them; the View of each screen, which puts the parts of Client/Render.antt
-- around a widget; logging.
--
pub mod Common
pub mod Errs
pub mod Store
pub mod Event
pub mod Bus
pub mod World
pub mod Db
pub mod Inbox
pub mod Room
pub mod Conversation
pub mod Ws
pub mod Server
pub mod Dto
pub mod Api
pub mod Auth
pub mod Client
