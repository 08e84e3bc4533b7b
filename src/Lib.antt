-- ===== src/Lib.antt =====
-- The C and C++ code of glirc: its Lua extension (lua-extension/), its extension for encrypted
-- conversations (otr-extension/), an example (sample-extension/), the interface between the
-- client and its extensions (include/glirc-api.h), and the callback for private key passwords
-- (hookup/cbits/).
--
-- The client loads an extension and hands its events to it. The Lua extension runs one
-- interpreter: an event becomes a call of a function of the script's module, and the script calls
-- back into the client through the functions of the module `glirc`. The OTR extension hands
-- private messages and the user's texts to libotr, which calls the extension back while it works;
-- it also polls libotr by a timer.
--
-- Where the parts are:
--   Base         shared names of the library, lists, Boolean tests
--   Warn         lua-extension/glirc-warn.c, every function; the growth of the buffer is in
--                Warn/Bounds, its text in Warn/Text, one call against a collector of whole
--                messages in Warn/Messages, whole messages in Warn/Whole, refused memory in
--                Warn/Refused
--   Client       include/glirc-api.h: the data types, and as the record `Client` the functions
--                that the client offers
--   Extension    include/glirc-api.h: `struct glirc_extension`, which the Lua extension fills
--                in Callback/Interface, the OTR extension in Otr/Interface and the sample
--                extension in Sample, and a history of the client's events
--   Sample       sample-extension/sample.c; Sample/Lines the file that it leaves
--   Lua          the interpreter's interface: Lua/Value and Lua/Api its values and operations,
--                Lua/Auxlib the argument checks, Lua/Laws and Lua/Tables what follows for the
--                view of a state, Lua/Arguments and Lua/Optional the heads of the C functions
--   Thread       lua-extension/glirc-thread.c, every function
--   Marshal      lua-extension/glirc-marshal.c; the arrays are in Marshal/Arrays, tables built
--                field by field in Marshal/Objects, those of the client's events in
--                Marshal/Messages
--   Script       lua-extension/glirc-lua.c: `push_scriptname`, `push_args_table` and
--                `initialize_lua`; Script/Path is `dirname`, Script/Prepared the interpreter
--                when the script is run, Script/Loaded all before
--   Callback     lua-extension/glirc-lua.c: `callback_worker` and `callback`, in Callback/Start
--                `start` with what it comes to in Callback/Start/Outcomes, and in
--                Callback/Events the entry points `message_entrypoint`, `chat_entrypoint`,
--                `command_entrypoint` and `stop_entrypoint`
--   Library      lua-extension/glirc-lib.c: the functions `glirc_lua_*`; Library/Messages has
--                `send_message`, `inject_chat`, `print_string` and `error`, Library/Print
--                `print`, Library/Lists the questions answered by strings, Library/Windows the
--                windows and the focus, Library/Modes the channel modes and masks,
--                Library/Timers `set_timer`, `cancel_timer` and `on_timer`, with
--                Library/Timers/Due the life of a timer, Library/System `system` and
--                `finish_system` with Library/System/Done the thread between them,
--                Library/Identifiers `identifier_cmp`, Library/Install the table of the
--                module's functions and `glirc_install_lib`
--   Password     hookup/cbits/pem_password_cb.c
--   Otr          otr-extension/. Otr/Case is `normalizeCase`; Otr/Libotr the parameter;
--                Otr/Policy `op_policy`; Otr/Files the methods of OTR.cpp for libotr's files;
--                Otr/Session `struct OpData` with its timer; Otr/Texts the texts shown;
--                Otr/Callbacks the table `ops` of what libotr calls, and `run`; Otr/Methods
--                OTR.cpp; Otr/Events the entry points for the start, the end, timers, messages
--                and chats; Otr/CommandLine, Otr/CommandTable and Otr/Commands the command
--                line, the functions `cmd_*` and their entry point. Proofs are in Otr/Wishes
--                (what libotr asks for, and that it is kept), Otr/Timers (the timer, with
--                Otr/Timers/Events, Otr/Timers/Commands and, for any sequence of calls,
--                Otr/Timers/Reach and Otr/Timers/Polling), Otr/Outgoing (the messages sent,
--                with Otr/Outgoing/Events, Otr/Outgoing/Commands and Otr/Outgoing/Whole),
--                Otr/Sending, Otr/Receiving, Otr/Dispatch and Otr/Trust
--   Notify       lua-extension/lua-libnotify/lua-libnotify.c; Notify/Shown what `notify` shows
--   Examples     an interpreter and a client that can be run, and the theorems applied to them
--
-- A C function on the interpreter is a function of the interpreter's state and the client's state
-- that returns the new states; one that may raise a Lua error returns an `Outcome`, which is
-- either `returned` with a value or `raised` with an error value. `lua_error` and the functions
-- that call it end a function early, as `longjmp` does. The functions `luaL_*` are named `lual_*`
-- here. The sizes of structs are those of a 64-bit platform.
--
-- A call of libotr is a `Run`: a tree of calls of the operations in `ops`, each with the
-- library's state at that moment, which ends in a result; what the tree is for given arguments is
-- libotr's to choose. In Otr the state is `OpData` with libotr's state `us` in it, and the
-- client's; `self` is the address of the extension's object, and `home` the environment variable
-- HOME, or none.
--
-- Nine parts are parameters. The record `Lua` of Lua/Api is the interpreter: the operations that
-- the code calls, and what the Lua manual says of each in terms of a `View` of the state (the
-- stack, the tables, the registry, the user values, the global variables). `Auxlib` of Lua/Auxlib
-- is lauxlib: a check of an argument returns it or raises an error. `Client` is the client, whose
-- functions may do anything to its state and answer anything. `Libotr` of Otr/Libotr is libotr:
-- any `Run` for each function, and of a fingerprint's trust, that it is what was set. `Timers` of
-- Otr/Timers is what the client does with timers: to set one adds it, to cancel the only one
-- leaves none, and nothing else changes them. Part of it is `Wishes` of Otr/Wishes: of libotr,
-- how often it wants to be polled. What it asks for by `timer_control` is told from its state: a
-- message function of libotr ends with the wish that it has last asked for, and its other
-- functions change no wish. `Outbox` of Otr/Outgoing is what it does with messages: to send one
-- adds it, and timers, questions and shown texts change none; Otr/Observed has what the two
-- share. Examples/Desk fills `Libotr`, `Wishes` and `Timers`, and Examples/Letters `Outbox`.
-- `Notifier` of Notify is libnotify, any functions, and Examples/Notes fills it. `Files` of
-- Sample is the C library's files, which are taken to be written without an error;
-- Examples/Samples fills it. The shell that runs the commands of `system` is an argument.
-- Examples/Instance fills `Lua`, Examples/Checks `Auxlib` and Examples/Console `Client`, so the
-- laws can hold together. The interpreter's stack is taken to be large enough, and
-- `lua_createtable`, `strdup` and the like are taken not to run out of memory; `luaL_newstate`
-- may.
--
-- In Warn a size has 64 bits and wraps. `realloc` succeeds or not by an argument, the new bytes
-- are another, and a write outside of the block is a fault, the result `none`. The doubling loop
-- runs on fuel 64: from 512 or more a size passes 2^62 in fewer doublings, so within that bound
-- the loop ends before the fuel does.
--
-- Not modelled: `hookup_free_userdata` in pem_password_cb.c, a call of `free`; `get_glirc` and
-- `set_glirc`, which keep the pointer to the client in the interpreter, since the client is a
-- state of its own here; the installation of the warning function in the interpreter; the Rust
-- extension, and the client itself, which is not C. Of the OTR extension a file that cannot be
-- read or written is in libotr's hands, since the code ignores the error.
pub mod Base
pub mod Warn
pub mod Lua
pub mod Thread
pub mod Client
pub mod Marshal
pub mod Callback
pub mod Library
pub mod Password
pub mod Otr
mod Examples
pub mod Notify
pub mod Script
pub mod Extension
pub mod Sample
