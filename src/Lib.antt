-- ===== src/Lib.antt =====
-- Verification of the three projects of this repository: the mailbox system calls for MINIX's VFS
-- (prj_2), the file system tools (prj_3) and the shell mrpsh (prj_1).
--
-- Mailbox models prj_2/src/mailbox.c. Its globals are the record Server of Mailbox/State (mbList is
-- mb_list, susContext is sus_context, senderDB is sender_db); a handler takes the request `m_in`
-- and the server, and gives the answer, the new server and the effects on other processes in the
-- order of the code (sys_datacopy, FP_REVIVED, reply), or a fault where the code reads through NULL
-- or outside of an array. Mailbox/Pool has get_free_id and set_free_id, Mailbox/Queue putMsg,
-- getMsg and unsuspend_rx, Mailbox/Lookup get_mb_id, the local ids and isValidSender,
-- Mailbox/Deadlock check_dead_lock and indicate_deadlock, Mailbox/Deposit do_deposit,
-- Mailbox/Retrieve do_retrieve, Mailbox/Lifetime do_create_mailbox and do_destroy_mailbox,
-- Mailbox/Register do_register_mb, Mailbox/Listing do_get_av_mailboxes and do_get_senders, and
-- Mailbox/Client the callers' side, prj_2/src/mailbox_lib.c, with _syscall as a parameter. Proofs
-- are in the modules below these and in Mailbox/Inv, whose invariant Inv every call preserves;
-- Mailbox/Inv/Reach has the sequences of calls, and Mailbox/Wake, Mailbox/Quiet and Mailbox/Woken
-- what they do to processes that wait. The calls meet in the server only: VFS handles one message
-- at a time. do_deposit, with destinations and text already copied in, is given them as arguments.
-- The two walks over waiting senders run on fuel: 101 steps in do_deposit, one more than susContext
-- has entries, so that a walk that needs more repeats itself for ever. An allocation does not fail;
-- new memory is zeroed or indeterminate by a parameter of do_create_mailbox. The log prints are
-- left out.
--
-- Mfs models prj_3/src/mfs/misc.c. Mfs/Blocks is fs_get_inode_blocks with get_dir_zone,
-- get_sin_ind_zone and get_dbl_ind_zone: the globals EOF_reached, block_count, last_block_num and
-- starting_block_num, and the ranges printed, are the record Walk, and Mfs/Blocks/Spec has the
-- blocks of a file. Mfs/External is fs_getfrag with FraginFS and FragInInode, and
-- Mfs/External/Compute computeExtFragInFS with computeExtFragInInode and loops of their own.
-- Mfs/Internal is fs_get_int_frag with find_int_frag and the get_frag functions: the globals are
-- the record Stats, and find_int_frag runs on fuel, as the directories of a damaged file system can
-- form a circle; on a tree of them (Mfs/Internal/Trees) its depth is enough. The long and int
-- counters fault where they overflow; Mfs/Internal/Limits compares with a walk without bounds.
-- MINIX's get_block, rd_indir, get_inode and the inode bitmap are parameters: the records Cache,
-- Bitmap and Disk, and a function from numbers to inodes; Honest and Marks say what is relied on.
-- Block numbers and sums wrap around at 2 ^ 32 as u32_t does. The percentages in floating point and
-- the debug prints are left out.
--
-- FsTool models do_fileinfo and do_fraginfo of prj_3/src/fs_tool.c, the requests that
-- prj_3/src/vfs/request.c has for them, and the callers' side, prj_3/src/fs_tool_lib.c. The process
-- table, fetch_name, eat_path and the answers of the file servers are the record Vfs; what a
-- handler prints, sends and unlocks is a list of effects in the order of the code, and what MINIX's
-- _syscall makes of its answer is a parameter.
--
-- Tools models prj_3/tool: Tools/Options the command lines of fileinfo.c, fraginfo.c and frag.c,
-- and Tools/Devices the loop over the mounted devices of fraginfo.c and its copy in get_dev.c.
-- Lines is get_non_empty_line, which the tools and prj_1/mrpsh.c have in the same words. A loop
-- over the lines of a file runs on fuel; more than the file has bytes is enough, as each turn but
-- the last takes one byte at least. A file has no byte 0.
--
-- Shell models parts of prj_1. Shell/Assoc is assoc_ar.c, the table of aliases and variables:
-- `struct assoc_ar` is AssocAr, whose arrays are functions with the bounds of every write that can
-- leave them written out as faults; what malloc finds in memory is a parameter of init. Shell/Valid
-- is validateIfElseCondition of valid.c, with a stack of at most 1000 words and a fault where it is
-- left or listOfCommands[-1] is read. Shell/Split is count_spaces and split of exe.c, and
-- Shell/Locate the loop of execute that finds the parts of a conditional. Shell/Startup is the loop
-- of main in mrpsh.c up to the prompt, on fuel, with the inner `line` as a parameter for each turn,
-- NULL, unwritable or a buffer; it hides, Shell/Input has is_empty and read_command of mrpsh.c and
-- cleanCmd of parser.c, Shell/Parse the tokeniser of parseCmd and Shell/Alias its branch for alias
-- and set. Shell/Check is validateCommand of valid.c, and Shell/Turn what main does with a line, up
-- to execute, which Shell/Execute has with execute_single, on fuel, the system calls as events; a
-- process that was forked and comes back from execute into the caller's frame is kept in mind as a
-- stray. Shell/Session is bye of mrpsh.c, which writes the file of aliases at the end of a session,
-- and the loop of main up to the prompt with the turns of its lines; the lines are read first there
-- and executed then, as no turn writes the files. Shell/Paths has the paths of the profile and of
-- the aliases, Shell/Signal the handler of signal.c, on fuel, as it may never end. A write behind
-- the end of a buffer or of cmd_list is a fault. A string is the list of its bytes before the
-- terminator. The counters of hits and entries are not bounded.
--
-- Calls has the numbers of the added system calls and requests and the tables of handlers, those of
-- VFS in both projects and those of the file servers of prj_3. The dispatch itself is MINIX's.
--
-- Scratch is the menu of scratch/assoc_ar/assoc_ar.c around the table of Shell/Assoc: that file is
-- an earlier copy of prj_1/assoc_ar.c with the same functions.
--
-- Not modelled: the start of processes in mrpsh.c, the tests, the rest of scratch, and MINIX's
-- prototypes.
pub mod Prelude
pub mod Calls
pub mod FsTool
pub mod Lines
pub mod Mailbox
pub mod Mfs
pub mod Scratch
pub mod Shell
pub mod Tools
