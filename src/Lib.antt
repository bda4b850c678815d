-- ===== src/Lib.antt =====
-- Verification of the Calabash web framework: the codecs, the parser of requests, the pools, the
-- responses, the routing, the sockets and the database wrapper of the library under src/, and the
-- student application of example/.
--
-- A request arrives in chunks on a socket. `RequestMaker` (src/web/request_maker.cpp) scans its head,
-- decodes the target with the URL decoder and joins the body; `Server::Handle` (src/web/server.cpp)
-- passes it through the handlers of its path or answers with a file; `Response` (src/web/response.cpp)
-- makes the head, and `DataReader` (src/util/data_reader.cpp) hands head, body and file to the socket.
-- Sockets live in an `ObjectPool` (src/include/util/object_pool.h), requests are tasks of a `ThreadPool`
-- (src/thread/thread_pool.cpp). Handlers issue and read login tokens (src/util/token.cpp), which use MD5
-- (src/util/md5.cpp) and Base64 (src/util/base64.cpp). The student application (example/app) binds its
-- handlers to a `Server`, keeps its tables behind the `Sqlite3` wrapper (src/database/sqlite3.cpp), and
-- answers by throwing `HttpException` (src/web/exception.cpp).
--
-- Base: Boolean tests, lists and byte strings, bits, counting, and `Outcome`: a value, a thrown
--   exception, or a fault, which is undefined behaviour of the source such as a read outside an array,
--   or a thread that waits for a lock it holds.
-- Dict: `std::map` as an association list.
-- Base64: `Base64::Encode` and `Decode` with the source's tables; Rfc4648 is an independent encoder on
--   24-bit groups.
-- Url: `UrlEncode`, `UrlDecode` and `UrlCodeGetHEX` of src/web/request_maker.cpp and its header.
-- Md5: the whole digest. Words are numbers below 2^32 whose sums and left shifts wrap; Padding has an
--   independent description of the padded words, Operations the RFC's table of operations and Rfc1321 its
--   digest.
-- Token: issuing, encoding and parsing. Times are ticks; the calendar of the C library is a parameter
--   with laws on `localtime`, `mktime`, `put_time` and `get_time`, which leaves the mark of daylight saving
--   time at zero, so that only a second of standard time is read back from its text.
-- Words: `GetNextWord`, `GetNextLine` and `Split` of src/web/request_maker.cpp and its header.
-- Request: `Request` and `RequestMaker::Parse`. A pointer into the buffer is the list of bytes behind
--   it, and reading past the memory is a fault; `recv` gives the chunks of a list; `strtol` is a
--   parameter.
-- ObjectPool: slots are numbers; what clients hold is a list of slots beside the pool.
-- ThreadPool: workers, queue and `stop_` under a step relation in which threads take their steps in any
--   order; each step is labelled with the tasks it accepts and starts.
-- DataReader: `BufferRead` with the callback and `readsome` as parameters.
-- Response: headers, types with the two tables of src/web/inc, the head and the reader. Printing of
--   numbers, the extension of a path and the contents of files are parameters.
-- Server: `Bind`, `ProcessBind`, `StaticPath` and `Handle`. A handler is a function of its continuation;
--   the file system is a parameter, and so is the world that the handlers share beside the request. Running
--   has the configuration, `Start` and `Stop`, the loop of the handler in turns between their statements.
-- HttpTask: `HttpTask` (src/web/http_task.cpp), from the chunks of a request to the bytes of its response.
--   An exception of parser or handlers ends the task with nothing sent and the socket in no place.
-- Socket: src/socket/socket.cpp and src/socket/server_socket.cpp over a kernel that is a parameter.
-- SocketHandler: the event loop of src/socket/socket_handler.cpp, the one-shot registrations of
--   src/socket/event_poller.cpp and the end of `HttpTask`, as steps. EventLoop is the same with the
--   sockets' descriptors and the kernel; Epoll has the calls of src/socket/event_poller.cpp over the
--   kernel's epoll, a parameter; Running has `listen`, `handle` and `stop` as turns of two threads.
-- Sqlite3: src/database/sqlite3.cpp and src/include/database/sqlite3.h over a parameter for the SQLite
--   library, whose doubles, statements and connections are types.
-- Logger: `Log` of src/util/logger.cpp and the levels of src/include/util/logger.h. A call takes its
--   readings from a clock; the calendar and the disk are parameters.
-- Leave: the status of a leave (example/include/app/student_mange_server.h) and the decision of an
--   approval, apart from the database.
-- App: the student application. Act is the monad of its handlers, in which an exception keeps what was
--   done to the database, with the constructors of `HttpException`; Business, Notes and Search are the
--   handlers of example/app/app_business.cpp for accounts, for leaves and for their lists; Routes has
--   its middlewares and the routes of `StudentMangeServer::Init`; Statements is `DataBaseInit`. The JSON
--   library is a parameter with laws on `find`, `operator[]` and `get`. An exception in flight through
--   the chain of handlers is a field of their world; one that leaves a catch clause of
--   `app_process_exception` leaves the server and the task, and what it did to the database is then not
--   followed. Requests are served one after another; handlers that run at the same time on the database
--   are not modelled. Leaves describes the effect of the statements on
--   the table of leaves, as SQL documents it, and what the handlers make of the table. Wire puts parser,
--   server, middlewares and response together for a client of the application.
--
-- Bounds and fuel. `parse_headers` has the length of the buffer as fuel: every line it reads shortens
-- the buffer. The loops of `BufferRead` have the number of bytes to send: a callback accepts at least
-- one. The chain of handlers has the number of handlers and one: every call uses one up. That each is
-- enough is part of the theorems on them, which give the result, for handlers that call their
-- continuation at most once. MD5 has its 64 rounds and the number of
-- blocks, and texts below 2^29 bytes where the length is stated in bits. `size_t` is 64 bits wide. The
-- loops over `sqlite3_step` and over `send` need not end: their fuel is an argument, and the theorems
-- say how much is enough, in rows or in refusals. An `int` is a signed number whose overflow is a fault.
-- The fuel of `log` is the depth of its calls, which is two where the clock stays on one day.
--
-- Not modelled. Handlers of the application that run at the same time. The start and end of the application's thread; opening and closing the database, `finalize`, `TestColumn` and the printing of a value; what is printed on the
-- console; the multipart branch, which is empty in the source; construction and destruction of pooled
-- objects; the futures of tasks. The JSON library, SQLite and the test framework are other projects' code.
-- The client socket (src/socket/ClientSocket.cpp) is not part of the build.
pub mod Base
pub mod Base64
pub mod Url
pub mod Md5
pub mod Token
pub mod Dict
pub mod Words
pub mod Request
pub mod ObjectPool
pub mod ThreadPool
pub mod DataReader
pub mod Response
pub mod Server
pub mod HttpTask
pub mod Socket
pub mod SocketHandler
pub mod Sqlite3
pub mod Logger
pub mod Leave
pub mod App
