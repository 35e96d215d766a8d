-- ===== src/Lib.antt =====
-- The library kerrighed_tools is about the tools and libraries of the Kerrighed cluster: what they
-- compute, what they ask of the kernel and in which order, and what they do when a call fails.
--
-- Parts and files, with paths from the root of the repository:
--
-- - Kernel: the requests of libs/include/kerrighed_tools.h with their structs, and
--   libs/libkerrighed/libkerrighed_tools.c: call_kerrighed_services, and in Kernel/Loading the check
--   of the kernel's version. Kernel/Calls says what a request adds to the log. The kernel and the C library are
--   no code of the repository. A World is any function that answers a call, given the log of the
--   calls before it, and says whether a signal has come; a program is a function from the log to a
--   result and a longer log (M). So every theorem about a program holds for any kernel, any timing
--   and any failure, except as its hypotheses say.
-- - Hotplug: libs/libkerrighed/libhotplug.c. Hotplug/NodeSet is struct krg_node_set with its
--   operations (krg_node_set_add is NodeSet.add, and so on), Hotplug/Nodes the status tables
--   (krg_nodes_num is Nodes.num), Hotplug/Mask the masks of libs/include/krgnodemask.h,
--   Hotplug/Services the globals and the requests (krg_hotplug_init is hotplug_init). The globals
--   kerrighed_max_nodes and kerrighed_max_clusters are the argument max_nodes where they are only
--   read. A pointer that may be NULL is an Option. Memory is not freed, as no result depends on it.
-- - Proc: libs/libkerrighed/libproc.c, one function for each of its functions.
-- - Krgadm: tools/krgadm.c. Krgadm/Remove and Krgadm/Add are nodes_remove and nodes_add: select
--   is the switch over the mode, which gives the set, a refusal, the reading of a NULL, or polls
--   without an end; then the set is passed to the kernel. They use Hotplug and Proc.get_node_id.
--   Krgadm/Parse has the lists of nodes on the command line (with the set comes a result, or no
--   end) and node_set_str, Krgadm/Status what is shown, and Krgadm/Commands cluster, nodes and
--   main, from the options that getopt_long finds on.
-- - Capabilities: libs/libkerrighed/libcapability.c. Krgcapset: tools/krgcapset.c, with the lists of
--   capabilities, and in Krgcapset/Main the two passes over the options, the question and main. A word
--   of capabilities is a number below 2^32, and Base/Bits has what the operations do to its bits.
-- - Restart: tools/restart.c. Restart has the substitution of files with its array, Restart/Main the
--   options, the restart, the unfreezing and the wait. The two shell commands are calls of the World.
-- - Text: the functions of the C library on strings, which are lists of bytes: strtol, strchr, strrchr,
--   strsep, strncmp, and "%d".
-- - Callbacks: libs/libkrgcb/libkrgcb.c. The globals are a State. Callbacks has the registration,
--   Callbacks/Running the loop of run_callbacks, the signal handler and the worker thread round by
--   round, Callbacks/Running/Interleaving their order, Callbacks/Requests the functions by which another
--   process asks for the callbacks, with both sides of the queue in Callbacks/Requests/Protocol.
-- - Checkpoint: tools/checkpoint.c; Checkpoint/CommandLine has its options. It uses Callbacks/Requests,
--   Proc and Hotplug/Services.
-- - Ipc: libs/libkerrighed/libipc.c; Ipc/Checkpointing is tools/ipccheckpoint.c and Ipc/Restarting is
--   tools/ipcrestart.c.
-- - KrgcrRun: tools/krgcr-run.c. After vfork both processes go on with the same function, each with its
--   own answer. Krgboot: tools-host/krgboot.c. Krginit: tools/krginit.c. Migrate: tools/migrate.c.
-- - Exclusion: libs/libkrgcheckpoint/libkrgcheckpoint.c: the start of the library on top of
--   Callbacks, the list of the children, in Exclusion/Regions the list of the excluded regions,
--   with its pointers in a store (of the calls of free, the log has those of cr_exclude_on), and
--   in Exclusion/Regions/Hooks what is done at a checkpoint, at a restart, around a fork and at
--   the exit. The children change in steps: a fork, the end of a child, a fork that the process
--   is the child of; the handler of SIGCHLD does not interrupt add_child.
-- - Base: Boolean tests, C integers, lists, loops over an index. Examples: a small cluster on which
--   the theorems are applied.
--
-- Loops: those over the nodes, the slots or the entries of a directory are structural recursion on
-- a count or a list. The iteration by krg_node_set_next is on fuel of one more than the number of
-- nodes, which is enough, as each round moves to a higher node number. parse_nodes and
-- construct_capability are on fuel of one more than the length of the string, which is enough, as
-- each call is on a shorter one. The walks over the excluded regions are on fuel for more rounds
-- than there are regions. The loop of krginit that never ends is run for any number of rounds. The
-- polls of krgadm nodes add and the wait of restart have no bound in the program; they take fuel, any
-- number of rounds. The entries that readdir gives are a finite list, fixed when the directory is
-- opened.
--
-- Not modelled: what the tools print; getopt itself, as each tool starts from the options that it
-- finds; the Python binding, the scripts and the test programs. C ints are integers without bound, except
-- that a long that is passed as an int is cut to 32 bits, and that the loop over a range of nodes up to
-- the greatest int, where node++ overflows, does not end: the numbers of nodes and of callbacks stay
-- small.
pub mod Base
pub mod Text
pub mod Capabilities
pub mod Krgcapset
pub mod Kernel
pub mod Hotplug
pub mod Proc
pub mod Krgadm
pub mod Callbacks
pub mod Checkpoint
pub mod Restart
pub mod Exclusion
pub mod Ipc
pub mod KrgcrRun
pub mod Krgboot
pub mod Krginit
pub mod Migrate
pub mod Examples
