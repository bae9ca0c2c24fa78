-- ===== src/Lib.antt =====
-- miniweb is an HTTP server in C. A dispatcher thread accepts clients into a table of connections
-- and passes readable ones through a bounded queue to worker threads. A worker reads a request, asks
-- the route tables for a handler and writes the response to a non-blocking socket; files come from a
-- cache, pages from templates. A scheduler thread runs the periodic tasks of the modules.
--
-- The files and the code they model:
--   Prelude      Boolean tests, lists measured by native numbers, C strings as lists of bytes.
--   Net          WorkQueue is src/net/work_queue.c (push, pop) and ConnectionPool is
--                src/net/connection_pool.c (alloc, free, is_stale); their children hold the proofs.
--                Net.Worker is src/net/worker.c: Request reads the start line and the headers, Worker
--                is the turn of a thread with one connection. The handlers are parameters of it.
--                Net.Server is src/net/server.c: accepting, the sweep of idle clients and the events,
--                as the dispatcher's own calls. Net.Server.Threads interleaves the steps of the
--                dispatcher with those of the workers; its Turn sets Net.Worker's turns beside them.
--   Router       src/router/url_registry.c, url_registry_lookup.c (route_match, route_path_known);
--                Router.Allow is url_registry_reverse.c; Router.Init is url_registry_init.c,
--                module_attach.c, router.c and the attach functions of src/modules. Views, Static and
--                AutoIndex are src/router/route_table.c: the views with their cache, the static files,
--                and the listing of a directory.
--   Http         Utils is src/http/utils.c, ResponseIo is src/http/response_io.c, FileCache is
--                src/http/response_file_cache.c and
--                ResponsePool is src/http/response_pool.c.
--                Response is src/http/response_api.c with the status texts of response_io.c, Request
--                and Helpers are response_helpers.c, SendFile is response_file.c.
--   Render       TemplateCache and Template are src/render/template_render.c.
--   Core         Heartbeat is src/core/heartbeat.c, heartbeat_schedule.c and heartbeat_dispatch.c;
--                Conf is src/core/conf_defaults.c and conf_validation.c, Conf.Parse is conf.c.
--   Program      parse_args of src/app_main.c.
--   Modules      Packages is the part of src/modules/packages/packages_module.c that reads a query;
--                Networking is the ring of src/modules/networking/networking_module.c; Man is
--                src/modules/man/man_query.c and man_render.c up to the rendering itself.
--   Examples     Each theorem with a hypothesis, applied to a concrete input.
--
-- State and steps. A struct is a record, an array is a function of its index where the code indexes it
-- and a list where the code only goes through it, and a call that changes shared state is a function
-- from state to state: each such call holds the component's lock throughout, so that any interleaving
-- of threads is a list of calls. Net.Worker's turn and Net.Server's handlers are what one thread does
-- on its own; as several calls they are not atomic, and Net.Server.Threads has each call of the kernel
-- and each section under a lock as a step of its own, in any order of the threads. A wait on a
-- condition is an outcome of its own (WorkQueue), or the end of a step (the scheduler's thread).
-- Results of the kernel, times and memory are arguments; the write loops read the kernel's answers
-- from a list and stop when it ends, so that they need no fuel.
-- Pointers to table entries are indices. `int` values that may be negative are Prelude.Int's ℤ; a
-- counter that the source wraps has its `% 2 ^ w` written out.
--
-- Bounds are the source's: 4096 connections and queue entries, 32 routes and 16 prefix routes, 32
-- periodic tasks, 16 shards of 32 cached files. Theorems on the scheduler's deadlines ask for times
-- below 2 ^ 63 and periods that an `unsigned int` holds.
--
-- A configuration file is read in as many rounds as it has bytes, since each takes one; the growth
-- of a listing's buffer has as many rounds as the bytes that are needed, since each doubles it.
--
-- Not modelled: the set-up of sockets, kqueue and threads, which is calls of the kernel; the
-- collectors and the parts of the modules that run external commands; the SQLite calls, logging, and
-- the platform's process hardening.
pub mod Prelude
pub mod Net
pub mod Router
pub mod Http
pub mod Core
pub mod Modules
pub mod Program
pub mod Render
pub mod Examples
