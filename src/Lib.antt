-- ===== src/Lib.antt =====
-- A library on the programs of this repository: `make4061` of `Project 1 - Makefile`, the chat
-- of `Project 2 - Server`, and the multithreaded web server of `Project 3 - Multithreaded Web
-- Server`. The programs are independent; what they share is the C library.
--
-- CText models the functions of <string.h> and `fgets` that the programs call, over lists of
-- bytes without their NUL; CText/Words proves what the loops over `strtok` return. Numbers
-- models `atoi` and the printing of `%d` by ℤ. Common has the library names, the tests, and the
-- lemmas on lists, on bounded indices and on `%` that the parts share.
--
-- Make is `make4061`. Make/Target is `target_t` of `util.h` with `find_target`,
-- `compare_modification_time` and `parse_into_tokens` of `util.c`. Make/Files has `file_open`,
-- `does_file_exist` and the comparison of two files by `access` and `stat`; `build` compares the
-- times as the C int of the code. Make/Build is `build` of `main.c` and the lines of `main` that
-- start it (`start`). Make/Parser is `parse` of `util.c`, whose loop has a round for each byte
-- of the file, which is enough as every line has one. Make/Parser/Print writes rules as the text
-- of a makefile, and Make/Parser/Rounds and Make/Parser/Roundtrip follow the parser over it,
-- line by line. A target is named by a pointer, to the copy that `main` makes or into its array,
-- so that the statuses are shared as the program shares them. The files, `fork` and the commands
-- are the parameter `Os`. Make/Output is `show_targets`, which nothing calls, and
-- `show_error_message`. Make/Main is `main`, with what `getopt` returns as an argument. `build`
-- recurses on fuel, the depth of the recursion; a target is marked before its first dependency
-- is built and a marked one is not entered again, so twice the number of the targets and 4 is
-- enough, or, where the dependencies have a level that falls along them, any fuel above the
-- level of the target.
--
-- Chat is the chat. Chat/Users is the array of users of `comm.h` with `init_user_list`,
-- `find_empty_slot`, `add_user` and `find_user_index` of `server.c`, and a slot as
-- `cleanup_user` leaves it. Chat/Command is `parse_line` and `get_command_type` of `util.c` with
-- `extract_name` and `extract_text` of `server.c`. Chat/Server is the functions of `server.c`
-- that call the system: the state has the calls so far, and the parameter `Os` says whether the
-- newest of them succeeds.
--
-- Chat/Connect has the variables of `main` of `server.c` and what it does with a connection,
-- Chat/Loop the commands of the administrator and of the users, and the rounds of the loop: what
-- `get_connection`, `fork`, `pipe` and `read` return is an input of each round, and a buffer is
-- kept with what lies behind its NUL. Chat/Client/Start is `main` of `client.c` up to its loop,
-- Chat/Client the loop and the branch of `main` of `server.c` that relays between a client and
-- the server. Chat/Sockets is `comm.c`, the calls by which the two find each other.
-- Chat/Loop/Polite and Chat/Loop/Survives say which ids and messages the arrays hold, and follow
-- the rounds over them. Chat/Delivery puts the processes together.
--
-- Web is the server. `dispatch` of `server.c` accepts connections, reads each request with
-- `get_request` of `util.c` and puts it into a circular queue; `worker` takes a request, answers
-- it from the cache or from the disk, adds what it read to the cache, and logs.
--
-- Web/Queue is the queue: `initRequestQueue`, and the sections of `dispatch` and `worker` under
-- its mutex, `put` and `take`, with their guards in `try_put` and `try_take`;
-- Web/Queue/Refinement compares it with a bounded list. Web/Cache is `initCache`,
-- `getCacheIndex` and `addIntoCache`; its counters are the C int, with the wrap of `++` written
-- out. Web/Content is `getContentType` and `readFromDisk`, Web/Request is `makeargv` and
-- `get_request`, Web/Reply is `return_result` and `return_error`, Web/Config is the checks of
-- `main` up to the start of the threads, and Web/Worker is one turn of `worker` on a request,
-- with the disk as a parameter; Web/Worker/Log bounds its line of the log. Web/Sockets is `init`
-- and `accept_connection`, and `main` up to the listening socket, over the results of the calls
-- of the system.
--
-- Web/Threads has any number of dispatchers and workers as a step relation: a step is one
-- section of a mutex, one wait or signal, or one action of a thread on its own request. The
-- state has the owner of the queue's mutex and the position of every thread, and keeps the
-- requests that were stored and taken and the answers that were given. Web/Threads/Counting sums
-- over the threads, Web/Threads/Wakeups counts who has still to signal, and Web/Threads/Served
-- the requests that are with a worker.
--
-- Web/Heap is `malloc` and `free` over numbered blocks, where freeing a block that is not
-- allocated fails. Web/Request/Blocks has the blocks of `makeargv`, `freemakeargv` and
-- `get_request`; Web/Memory has those of the cache's contents and of a request, and
-- Web/Memory/Main those of `main` with `deleteRequestQueue`, `deleteCache` and the rest of its
-- clean-up. They compute the cache and the requests with the same functions as the parts above.
-- A run serves its connections one after the other and shuts down when no request is in service.
--
-- Writes past an array, and calls that crash, are outcomes of the model (`overrun`, `overflow`,
-- `crashed`, or `none`), never defined away. Web/Threads records them in the field `faulted`,
-- and its steps behind a fault are those of a run on which it has no further effect. The sizes
-- of files become a C int where the web server passes them as one. Loops whose number of rounds
-- the text bounds run on the length of the text; the others are structural.
--
-- Not modelled: what the chat prints on stderr, the `fcntl` and `usleep` of its server, and the
-- addresses and control messages of `comm.c`; the addresses, signals, log file and times of the
-- web server, and threads that are cancelled while they serve a request; `malloc` succeeds but
-- where `makeargv` tests it. The disk does not change while the server of Web/Threads runs where
-- a theorem says so.
mod Common
pub mod CText
pub mod Chat
pub mod Numbers
pub mod Make
pub mod Web
