-- ===== src/Lib.antt =====
-- The programs of so-distribuidos, a collection of small distributed systems in C: a page server with
-- locks (tp8), logical clocks (tp5), two clock synchronisers (tp6 and tp-cristian), a server that
-- compiles and runs what it is sent (tp4), and three distributed file systems: dns.c and file_server.c in
-- sistema-archivos-distribuidos, a name server and a server that registers its files there, and the
-- newer programs there and those of tp7, each a name server, a file server and a client. The programs
-- share no code and run apart from each other. A program's processes and threads meet in sockets and in
-- variables under mutexes. Here a critical section, or a stretch of a thread between two waits, is a
-- function on the state, and what the system gives (bytes received, whether a call succeeds, times) is
-- an argument of it.
--
-- Files, by program:
--
-- - Prelude: numbers with C's tests, signed integers, C strings, the conversions of sscanf and printf,
--   arrays as lists, and tables that are searched by name (Keyed).
-- - PageServer, of tp8-memoria-compartida-distribuida. Message: send_command and recv_command of
--   communication.c and the parsers of newServer.c and client.c. Server: the page table, its queues
--   and the commands of newServer.c (read_page, read_lock_page, write_page, add_to_queue,
--   remove_from_queue, handle_client). Threads: the server's threads as a step relation, one step for
--   each stretch between two waits. Threads/Contract gives the lock's abstract steps, and Memory what
--   happens to the shared bytes. HandOver is about a page that goes from a writer to the next. Client:
--   handle_read_operation, handle_write_operation and main of client.c, and ClientSession is about a client
--   and the thread that serves it.
-- - Lamport, of tp5-algoritmo-de-lamport. Process: the critical sections of the three threads of
--   proceso.c (clock_thread is tick, server_thread is on_message, input_thread is on_input) and the
--   loop of proceso_reloj_manual.c (manual_round). System: processes over a network, with a log.
-- - ClockSync, of tp6-algoritmo-de-berkeley and tp-cristian. Slots: the table of clients of the
--   Berkeley daemon.c. Berkeley: a round of its synchronize_time. Average: the average it computes,
--   and a message in client.c (handler_mensajes). Cristian: handle_client of daemon.c and a round of
--   cristian_sync of client.c; Accuracy is about its error. Answers puts the clients of tp6 at the other
--   end of a round, and Agreement is about all their clocks. Daemon: the slots, the threads and the main
--   thread of tp-cristian's daemon.c as a step relation; Threads, MainThread and Descriptors are about its descriptors.
-- - Locks: a write lock for each name, as an interface. ElementDns fills it.
-- - ElementDns, of sistema-archivos-distribuidos/servidor_dns_nuevo.c: the requests (Service), their
--   texts as servidor_archivos_nuevo.c and cliente_nuevo.c send them (Messages), what they do to the
--   table (Table) and to one entry (Entry), the write locks (Locking), and what it does with those texts
--   (Exchange).
-- - Transfer: the loops that send and receive a file, over a stream that arrives in any pieces (Loops),
--   and the file system a program sees (Files).
-- - ElementServer, of sistema-archivos-distribuidos/servidor_archivos_nuevo.c. Commands: the menu and the
--   registrations. Daemon: a connection of manejar_cliente_daemon. Frame is about the files it can change,
--   and Commands/Registered about what the name server knows.
-- - ElementClient, of sistema-archivos-distribuidos/cliente_nuevo.c. Request: solicitar_elemento and main.
--   Folder: recibir_archivo, recibir_carpeta and enviar_archivo. System puts the name server and a daemon at
--   the other end of its connections. Serving, Answer, Headers and Pieces are about single messages;
--   Downloads, Session, FolderTransfer, FolderContents and Refused about runs. Stretches cuts solicitar_elemento for writing
--   where it waits for a server or for the user, and Interleaving, Turns, Exclusion and NoLostUpdate are about
--   clients that take turns at one element.
-- - ServerDns, of sistema-archivos-distribuidos/dns.c: its table of servers and its table of files (Service,
--   Tables), and what stays in them (Kept).
-- - FirstServer, of sistema-archivos-distribuidos/file_server.c: its registrations and its commands (Commands),
--   how dns.c reads its requests (Exchange), and what the two hold together (Registered, Session).
-- - FileDns, of tp7-sistema-archivos-distribuidos/dns_server.c.
-- - FileServer, of tp7-sistema-archivos-distribuidos. Lines: the loop over fgets. Service: register_file,
--   register_all_txt_files and handle_client of file_server.c. Client: request_file and main of client.c.
--   Delivery is about a file that is put and got. What it shares with the newer programs (the readers of a
--   command, a stream, a file system) is theirs.
-- - Migration, of tp4-migracion-procesos. Service: RecibeEnviaComandos of server.c and main of client.c, with
--   gcc and the compiled program as functions on the server's files. Delivery is about a program that goes there and back.
--
-- An Examples file under a program has runs at small inputs.
--
-- Bounds. A loop that polls or serves for ever is a relation on steps (PageServer.Threads,
-- Lamport.System) or a function on a list of requests or commands. The loops over a stream take fuel: one
-- more than the bytes of the stream or of the file, which is enough since every turn that goes on takes at
-- least a byte. All other definitions are structural. An `int`
-- or a `long long` is an integer. Lamport's clocks are kept within an int, since C leaves an overflow
-- undefined: past it there is no step. The page server's numbers, the times and the ports are not
-- bounded in the model. The arrays' sizes are: 128 bytes for a clock message, 1024 for a request to a
-- name server, 512 for a page message, 50 servers, and 100, 1000 and 10 files.
--
-- Undefined behaviour. A variable that sscanf leaves unset is an argument, what the variable held
-- before. What a handler does with words that overrun its arrays is an argument as well (`desborde`), in
-- ElementDns, ServerDns and ElementServer: it hangs on how a compiler lays out the variables. The commands
-- of a client of the newer programs overrun: ESCRIBIR fills char comando[8] of the name server to the last
-- byte, with its zero behind it, and OBTENER_ELEMENTO and ACTUALIZAR_ARCHIVO are longer than char
-- comando[16] of the daemon. A theorem about such a request has the hypothesis that in this build the
-- overrun damages nothing the handler reads (EscribirCabe, OrdenesCaben, Intacto); there are builds that
-- have it and builds, with nombre behind comando, where the daemon does not know its own commands. In
-- FileDns an entry past the array, a full receive buffer and a word that overruns have no result. FileServer
-- has none either where a word overruns, a buffer or an array is full or a file does not open, and ElementServer and FirstServer none where
-- the array of elements is full. Where malloc fails in add_to_queue of the page server a page is locked
-- with an empty queue: the steps of PageServer.Threads have that, and the theorems on its queues leave it
-- out by a hypothesis (NodesAllocated).
--
-- Files and streams. A file system is a function from paths, and which calls of fopen and mkdir succeed
-- is an argument. A stream is the list of the pieces in which it arrives, and ends behind the last. A
-- theorem about a client and a server says which pieces it takes to arrive apart.
--
-- Not modelled: the set-up of sockets and threads, printing and signal handlers. In the daemon of
-- ElementServer and in ServerDns handlers run one after another. The threads of dns.c read the table of
-- servers outside its mutex, which is a race. The socket exercises (sockets, sockets-hilos,
-- sockets-modular, sockets-practica, tp1, tp2), and the address server of tp3 are left out.
pub mod Prelude
pub mod ClockSync
pub mod ElementClient
pub mod ElementDns
pub mod ElementServer
pub mod FileDns
pub mod FileServer
pub mod FirstServer
pub mod Lamport
pub mod Locks
pub mod Migration
pub mod PageServer
pub mod ServerDns
pub mod Transfer
