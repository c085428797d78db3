-- ===== src/Lib.antt =====
-- netcwmp: a TR-069 client (CPE). The daemon cwmpd opens sessions with the server of the operator
-- (ACS), reports events to it with an Inform and answers its requests; libcwmp is its library.
-- Paths below are from the repository's root.
--
-- The parts and how they interact. libcwmp/src/event.c keeps the events that an Inform reports, in
-- a list of slots in memory, and what must survive a reboot, in a record with a file. A session
-- (cwmpd/src/agent.c) takes the events that are pending into its Inform, clears them, and then
-- answers requests until the ACS is silent. Requests queue tasks (libcwmp/src/queue.c), which run
-- when the session has ended and raise events for the next one. Documents are written to, and read
-- from, chunks of buffers (libcwmp/src/buffer.c); texts in them are escaped, and parameters are
-- found in a tree (libcwmp/src/cwmp.c). The same file reads the requests of the ACS and makes the
-- documents of the answers; libcwmp/src/session.c puts the two together and queues the tasks.
-- Documents travel in HTTP requests and responses with digest authentication (libcwmp/src/http.c);
-- the ACS asks for a session by a request to a small server (cwmpd/src/httpd.c), which raises an
-- event.
--
--   Common   names, lists, numbers and flag words that the other modules share
--   Event    libcwmp/src/event.c: `set_value`, `clear_active`, `file_save`, `global_init` are the
--            functions cwmp_event_… of that name. Slots is the view that the proofs take of the list,
--            Raise and Clear are about the two operations on it. Boot has `event_init`
--            (cwmp_event_init) and the life of a device over its starts; Inform has
--            `get_active_event` (cwmp_agent_get_active_event) and `event_check`, the part of
--            cwmp_agent_analyse_session that reports a transfer.
--   Queue    libcwmp/src/queue.c on a heap of nodes: `queue_push`, `queue_add`, `queue_pop`,
--            `queue_free`. Chain and Fifo relate the heap to a list of tasks, Run has whole runs.
--   Buffer   libcwmp/src/buffer.c: `chunk_write_string` (Write), `chunk_copy` (Copy).
--   Session  cwmpd/src/agent.c: `session_step` is a round of the loop `while (!session_close)` of
--            cwmp_agent_start_session, `session_loop` the loop; `retry_session` and
--            `analyse_session` are its callees. Rounds and Ends are about its rounds, Delivery about
--            what becomes of the events.
--   Tasks    cwmp_agent_run_tasks of cwmpd/src/agent.c, over Queue and Event.
--   Agent    the outer loop of cwmp_agent_start_session, over Session and Tasks: `agent_round`.
--   Escape   cwmp_xml_copy_to_chunk_with_escape of libcwmp/src/cwmp.c, over Buffer.
--   Params   cwmp_get_parameter_node of libcwmp/src/cwmp.c (Names), and new instances of an object by
--            cwmp_model_copy_parameter of libcwmp/src/model.c (Instances). Deletes frees nodes, which
--            there lie in memory (Faults: an object with children). Loads makes the tree from the
--            description file (Found: dotted names in it).
--   Xml      the nodes of a document, and cwmp_xml_get_child_with_name and its like in
--            libcwmp/src/cwmp.c.
--   Soap     the envelope: `set_envelope_ns`, `get_rpc_method_node`, `parse_header_node`, the element
--            `cwmp` that the agent puts around what it has received (`received`), and the nodes around
--            a method (`document`); Lookup is about finding the method again.
--   Field    what a node of the parameter tree holds, with the device's functions behind it.
--   Fault    cwmp_get_fault_string and the two documents that report faults.
--   Response the functions cwmp_create_…_message of libcwmp/src/cwmp.c: `create_…`. InformMessage has
--            the Inform, ParameterNames the answer to GetParameterNames (Preorder: its list).
--   Request  the functions cwmp_parse_…_message: `parse_…`. Places is about the list of parameters that
--            they build, Values has GetParameterValues and SetParameterValues (Reads, Sets: their
--            loops), Objects AddObject and DeleteObject with cwmp_get_parameter_path_node (Paths;
--            Adds: the answers to AddObject), Transfer Download, Upload and Reboot.
--   Rpc      cwmp_session_create_…_response_message of libcwmp/src/session.c: `respond_…`, over
--            Request, Response and Queue. Dispatch is the choice by the method in
--            cwmp_agent_analyse_session; Answered, Values, Settings and Tasks are about the answers.
--   Inform   cwmp_session_create_inform_message of libcwmp/src/session.c and its callees, over Params,
--            Event and Response; Forced is about the parameters that each Inform has.
--   Printer  cwmp_xml_print_doc_to_chunk and its callee (Forever).
--   Http     http_parse_url of libcwmp/src/http.c (`parse_url`; Urls), and in Headers
--            http_get_variable, http_set_variable and http_parse_headers. Reading has http_read_line
--            and http_read_header, over the bytes that the socket gives; a line takes a byte at
--            least, so that fuel for each byte and one more is enough. Splitting has
--            http_split_headers, Requests http_read_request and http_write_request (Printed: the text
--            of a request; Trip: reading it), Responses http_read_response and http_read_body
--            (Pieces: bodies in several reads).
--   Digest   digest authentication in libcwmp/src/http.c: `check_digest_auth`, `parse_digest_auth`,
--            `calc_digest_response`. Reads is about the loops over the fields, Accepts about the
--            headers of RFC 2617.
--   Exchange cwmp_session_send_request and cwmp_session_recv_response of libcwmp/src/session.c, over
--            Http and Digest; Challenge is about the answer to a challenge.
--   Httpd    the server for connection requests, cwmpd/src/httpd.c: `judge` are its tests on a
--            request, `server_round` is a round of the loop of httpd_build_server. Requests is about
--            who is let in, Slots about the slots of the clients.
--   Files    http_receive_file and http_send_file of libcwmp/src/http.c with cwmp_agent_download_file and
--            cwmp_agent_upload_file of cwmpd/src/agent.c (Ends: what becomes of the file).
--   Conf     the configuration, libcwmp/src/cfg.c (Names: the two parts of a name).
--   Types    cwmp_get_type_string and cwmp_get_type_value of libcwmp/src/cwmp.c.
--   Hex      cwmp_hex_to_string and convert_to_hex of libcwmp/src/util.c.
--
-- Bounds and fuel. The loop of `chunk_write_string` has the length of the string as its fuel,
-- since each round writes a byte; `get_parameter_node` has the length of the name, since each
-- round takes a byte of it at least. `session_loop`, `run_tasks`, `agent_round` and `queue_free`
-- take their fuel from the caller, and their results say how much is enough.
-- `get_parameter_path_node` has the length of the name; `dom_tree_print` takes the depth of calls
-- from the caller; `decimal` makes at most ten digits, which a number of 32 bits has. The blocks
-- of a file are bounded by its length, of which each round takes some. `free_parameter` takes the
-- depth of calls and rounds from the caller. Numbers are unbounded: counters and lengths are far
-- below the width of `int`, but the code and the length of a response come from a text and are cut to
-- it (`to_int`). The code copies each part of a parameter's name into 256 bytes and the path of an
-- address into 513: the theorems ask for names whose parts are shorter (`fits`) and for such paths. Sizes of arrays (`INFORM_MAX`, `COMMAND_KEY_LEN`,
-- `DEFAULT_BUFFER_SIZE`) are those of the source.
--
-- Not modelled. Mutexes: a call is one step. Logging, sleeping and the clock. The network,
-- `malloc` and the file system are arguments that say how each attempt ends; that an Inform and a
-- report of a transfer can be made into documents is assumed, and printing no document writes
-- nothing. The making of responses, and what it queues, is an argument of `Session` and `Agent`,
-- and modelled in `Rpc`. The DOM library is third-party: a document is data (`Xml`) with its root
-- as the library finds it, a child is appended behind the others, and setting an attribute adds
-- it; the allocation of nodes and strings succeeds, and attribute names are valid. The functions
-- behind a parameter are arguments, on a state that stands for all that they change. Sockets: what
-- comes is a list of bytes, and the division of a body into reads is an argument; headers are
-- without NUL. MD5 is a function from texts to digests. In the tree a node has no pointer to its
-- parent: the parents of a node are those that a lookup comes through, while the loader points the
-- second and later children of an object to the first. The reader of ini files is an argument. The
-- refresh of objects and the third-party copies (XML parser, MD5, ini files,
-- pools) are left out.
pub mod Common
pub mod Event
pub mod Queue
pub mod Buffer
pub mod Session
pub mod Tasks
pub mod Agent
pub mod Escape
pub mod Params
pub mod Types
pub mod Xml
pub mod Soap
pub mod Field
pub mod Fault
pub mod Response
pub mod Request
pub mod Rpc
pub mod Inform
pub mod Exchange
pub mod Httpd
pub mod Printer
pub mod Http
pub mod Files
pub mod Hex
pub mod Conf
pub mod Digest
