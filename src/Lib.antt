-- ===== src/Lib.antt =====
-- The verification library of the debugger plugin's protocol library: DebugAdapterProtocol, the
-- client side of the Debug Adapter Protocol, and of the flags, the breakpoints, the call stack
-- and the stored settings that DebugAdapterClient keeps for a session.
--
-- A debug adapter is a process at the other end of a socket. Bytes from the socket are posted to
-- `dap::Client` in chunks; `dap::JsonRPC` collects them and cuts them into payloads by the
-- header Content-Length; each payload is parsed to a tree (`dap::Json`), from which
-- `dap::ObjGenerator` makes a message; `Client::OnMessage` turns the message into an event for
-- the plugin, or into a call of a callback that an earlier request left. In the other direction
-- a member function of the client makes a request, numbers it, notes what the response will
-- need, and sends the frame.
--
-- The plugin's breakpoints are objects that two containers share: the vector of all of them and
-- a map from the files to theirs. An operation of the editor changes both, and where the session
-- is stopped sends the lines of the file through the client; the replies number the breakpoints.
--
-- The files and the code that they model:
--   Common        shared names, lemmas on lists, Boolean tests, the integers
--   Text          wxString values and src/DebugAdapterProtocol/StringUtils.cpp: StartsWith,
--                 BeforeFirst, AfterFirst; std::to_string and std::atol; BuildArgv and
--                 WrapWithQuotes (Text/Argv); ConvertSlashes (Text/Slashes)
--   Socket        src/DebugAdapterProtocol/Socket.cpp: Send
--   ConnectionString  src/DebugAdapterProtocol/ConnectionString.cpp
--   Rpc           src/DebugAdapterProtocol/JsonRPC.cpp and .hpp: DoProcessBuffer is
--                 `do_process_buffer`, with `read_headers`, `by_header` and `by_length` for its
--                 parts; ProcessBuffer is `process_buffer`; Send is `frame`; OnDataRead of
--                 Client.cpp is `on_data_read`, and `feed` is the sequence of its calls
--   DebuggerState src/DebugAdapterClient/DAP_Debugger_State.cpp and .h
--   Json          src/DebugAdapterProtocol/JSON.cpp and .hpp; Json/Strings has the conversions of texts
--   Protocol      src/DebugAdapterProtocol/dap.cpp and .hpp: the generator, and the `To` methods
--                 of the requests (Protocol/Requests and Protocol/Control); `To` and `From` of
--                 the responses with lists (Protocol/Bodies) and of the events (Protocol/Events)
--   Client        src/DebugAdapterProtocol/Client.cpp and .hpp: Client/State (fields, Reset),
--                 Client/Send (SendRequest, OnConnectionError), Client/Api (the requests:
--                 `perform`), Client/Names (the strings that OnMessage tells apart),
--                 Client/Dispatch (OnMessage, SendDAPEvent, the handlers), Client/Receive
--                 (OnDataRead with OnMessage for its callback); the theorems are in Client/Queues,
--                 Client/Sequence, Client/Wire, Client/Lost, Client/Handshake and
--                 Client/Receive/Stream
--   Breakpoints   src/DebugAdapterClient/DAP_Breakpoints.cpp and .h, and DAPBreakpoint of
--                 definitions.h: Breakpoints/State (the objects and the members),
--                 Breakpoints/FileMap (UpdateMapFileBreakPoints), Breakpoints/Update
--                 (UpdateDAPSetBreakpointsByFileName), Breakpoints/Actions (adding, enabling and
--                 deleting), Breakpoints/Shift (ShiftAllFileBreakpoints), Breakpoints/Events (the
--                 start of a session and the client's events), Breakpoints/Run (sequences of
--                 operations); the other files hold the lemmas and theorems
--   Server        src/DebugAdapterProtocol/ServerProtocol.cpp: Check; the theorem is in Server/Stream
--   CallStack     src/DebugAdapterClient/DAP_CallStack.cpp and .h, DAPCurrentFrame of definitions.h and
--                 HexStrToBinary of helpers.cpp; the theorems are in CallStack/Active and
--                 CallStack/Session
--   Settings      src/DebugAdapterClient/definitions.cpp and definitions.h: Settings/Xml (AddChildNode
--                 and ReadChildNode), Settings/Records (saving and loading of breakpoints and
--                 watches); Settings/Files (SaveStateToFile of DAP_Breakpoints.cpp,
--                 DAP_Watches.cpp and plugin.cpp); the theorems are in Settings/Back, Settings/Formats and
--                 Settings/Lost
--   Tests         the theorems at concrete inputs
--
-- How the code is modelled. A text is the list of its code points. The buffer of the framing is
-- passed along explicitly; a member function of the client is a function from the client to the
-- client and the list of its effects: what it sent, logged, fired or called, in order. OnMessage
-- changes no field after it has fired an event or called a callback, so what the plugin does
-- then is a later step; what it does to the client while it handles a log event or the loss of
-- the connection, which come before a change, is not modelled. A callback is a number that tells
-- it from the others. A tree of nodes is a value; the ownership flags of `Json` are not
-- modelled, and numbers are integers. A request carries the counter narrowed to an `int` of 32
-- bits (`int_of`).
--
-- Add writes a text as UTF-8 up to a NUL, and GetString makes a text of the bytes in the current
-- locale. Protocol/Bodies and Protocol/Events read and write texts by these conversions, over a
-- parameter `Encoding`. Elsewhere (names of commands and events, the arguments of requests, the
-- fields that the client itself reads) a text of a tree is taken as it is, which is right of
-- ASCII characters without NUL. An `int` that holds a size is taken as unbounded: the header's
-- size in ReadHeaders and the bytes that are left in Send, up to 2 GiB, and the key of
-- m_requestIdToFilepath, up to 2^31; so is the size_t counter, up to 2^64.
--
-- Code outside the repository is a parameter: `Host` holds the wxWidgets functions that the
-- framing takes and LONG_MAX, with their documented behaviour in `HostLaws`; cJSON's parser is
-- the argument `parse` and its printer a field of `Library`; `wxString::substr` is an argument
-- of `do_parse`, as is whether _WIN32 is defined, and the UTF-8 encoding and the answers of the
-- system calls are arguments of Socket's `send`. Otherwise wxString's searches, comparisons and
-- erasures within range are those of the standard strings. The sum of headerSize and msglen can
-- overflow, which is the outcome `fault`.
--
-- The breakpoint objects stand in a store under numbers, which are the pointers; a std::map is
-- the list of its entries in the order of the keys, which is a field of Breakpoints' `Host`, as
-- are the functions of Code::Blocks and wxWidgets and the settings that the code reads. An
-- operation returns `none` where the code reads through `end()` or by an iterator that a
-- `push_back` may have invalidated, or an exception leaves it. Log messages and the reloading of
-- dialogs are left out.
--
-- The stored settings stand over tinyxml2's calls on values: a child is filled and then put into
-- its parent, where the code fills it in its place. A function that reads a number returns
-- `none` where wxWidgets finds none and the code goes on with a variable that has no value.
--
-- Fuel: the loop of ProcessBuffer runs on one more round than there are characters in the
-- buffer, since a round that hands out a message shortens the buffer; this holds of
-- `process_buffer` and of `read_data`. `digits` runs on one more than its number.
--
-- Not modelled: the server's Initialize, which waits for the network, the other socket calls,
-- processes and logs (system calls), the reader thread's start and stop, the `From` methods of
-- the requests' arguments and the responses without a list beyond what the client reads itself,
-- the handlers of plugin.cpp, the watches, the drawing of views and the dialogs
-- (UpdateBreakpoint and AddDataBreakpoint run one), the loops that load a project's file, and
-- the copies of cJSON and tinyxml2.
mod Common
pub mod Text
pub mod Rpc
pub mod ConnectionString
pub mod Socket
pub mod DebuggerState
pub mod Json
pub mod Protocol
pub mod Client
pub mod Breakpoints
pub mod CallStack
pub mod Server
pub mod Settings
mod Tests
