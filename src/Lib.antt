-- ===== src/Lib.antt =====
-- The kernel of Seolsem, a 16-bit system for real-mode x86 (seolsem/kernel, C compiled by wcc, so
-- that int has 16 bits). The kernel mounts a FAT volume, keeps an environment and a current user,
-- decides who may do what at a path, and loads programs in the XEF format into its own segment.
--
-- Parts and files
--   Base        shared names, Boolean tests on native numbers, lists, casts to 8, 16 and 32 bits
--               (sima_type.h), and bit fields as arithmetic.
--   Mem         sima_mem.c. A char * is the list of bytes up to the end of its object, and a read or
--               write past the end is a result of its own; blocks lie in one memory by address, since
--               they may overlap. Mem/Copying and Mem/Comparing also state the string functions as
--               functions on values, and the other parts use them in that form.
--   Conv        sima_conv.c: numbers as decimal and hexadecimal text and back.
--   Fat         sima_fs.c up to the allocation of clusters. Fat is the volume, the disk and the cache
--               of one sector of the FAT (fat_flush_fat_sector, fat_load_fat_sector); Fat/Bytes are
--               the words in a sector; Fat/Table is one entry (fat_get_entry, fat_set_entry,
--               fat_next_cluster); Fat/Alloc is fat_find_free_cluster, fat_free_chain and
--               fat_alloc_chain; Fat/Mount is fat_load_bpb and fs_init, with the partition table;
--               Fat/Name is fat_build_83. The other files of Fat hold proofs.
--   Act         operations that may return FALSE, with the state that they leave beside the result, and
--               rules for what they keep (Act/Keeps).
--   Dir         sima_fs.c, directories: an entry at its place (fat_read_root_entry,
--               fat_write_entry_at_loc, fat_dir_loc_next); Dir/Find is fat_dir_read_raw and
--               fat_find_in_dir, Dir/Search is fat_find_in_dir_loc, Dir/Free is fat_find_free_in_dir,
--               fat_extend_dir_chain and fat_is_dir_empty, Dir/Resolve are the walks along a path. The
--               other files of Dir hold proofs.
--   File        sima_fs.c, contents and new entries: fat_read_file_entry, fat_write_cluster_chain,
--               fat_make_dir_entry; File/Write is fat_write_file_in_dir and fat_create_dir_in_dir.
--   Fs          the functions of sima_fs.h, with the current directory; Fs/Change has those that change
--               the volume, and Fs/Calls makes sequences of calls.
--   FilePath    fs_normalize_path, fs_make_abs_path and fat_next_segment of sima_fs.c.
--   Perm        sima_perm.c, on absolute paths from FilePath.
--   Env         sima_env.c: the table of variables and the file /XENV.ENV.
--   Xef         xef_loader.c: the header, the imports, the relocations and the placement of an image,
--               up to the call of its entry, over the memory of Mem. Xef/Image has the part from the
--               relocations on.
--   Program     sima_program.c: the slot of the loaded program and its handles, and the heap of
--               sima_heap.asm that it lies in; Program/Open opens, runs and closes.
--   User        sima_user.c: the table of users and the text of /ETC/PASSWD; User/Session has login, logout
--               and what writes the file, over Fs and Env. The other files of User hold proofs.
--   Proc        sima_proc.c: running a program and waiting for its status, over Program.
--   Shell       commands.c: the splitting of a line into words; Shell/Files, Shell/Programs, Shell/Users
--               and Shell/Manual have the commands, Shell/Dispatch is run_buffer. Shell/Programs also
--               puts the functions of Fs under the loader. The other files of Shell hold proofs.
--   Kernel      kernel.c: the prompt, the login and the loop of kernel_main, over all of the above.
--   Ata         sima_ide.c: the driver of the disk, over the ports.
--   Examples    each theorem at concrete data, and tests.
--
-- How code becomes definitions
--   Globals that an operation changes are a record that it takes and returns (Fat.State); globals
--   that are constant after fs_init are an argument (Fat.Volume). A function that returns BOOL and
--   an output gives an Option, or a pair with the state that FALSE leaves. The code that continues
--   after a call is a function of the result of that call (flushed after the loop of
--   fat_flush_fat_sector, entry_set after the load in fat_set_entry, placed after place_code).
--   UINT16 and UINT32 results are reduced by u16 and u32 where the code can wrap, and subtraction
--   is written so that it does not stop at 0 where the code wraps. The functions over directories
--   and files are actions (Act): a state to an Option and a state; g_sector is a local value of
--   them, since no function reads what another left in it. A string pointer is not NULL where a
--   definition takes a text.
--
-- What is assumed
--   The disk behind sima_ide.c is the record Fat.Drive: an operation may fail at any time, and the
--   laws say only what a transfer that succeeds did. IsReliable, where a theorem has it, says that
--   the transfers within the FAT succeed. IsLaidOut, IsInOrder and IsCoherent are what a mount
--   leaves. The driver takes 28 bits of an address, so that sectors whose numbers have the same low
--   28 bits are one; IsLaidOut and IsModest say that the copies of the FAT and the whole volume end
--   within 2^28 sectors, so that no two sectors of the volume are one. Covers says that the FAT has
--   an entry for every cluster of the volume; fs_init does not check it. Shell.Machine is what the
--   shell asks of the hardware and of a program: IDENTIFY leaves the sectors alone, and a program
--   changes the memory only, as in Xef, so that what it does to files through its imports is not
--   modelled. Ata.Ports are the ports, without a law. What is typed and which keys are pressed are
--   lists in the state of the shell, which notes when one has run out. The addresses of the import
--   wrappers and the called program are arguments of Xef. Env takes what fs_read gave for
--   /XENV.ENV, Program takes what the file system does as the record Program.Files, and Perm takes
--   the current user, HOME and the current directory.
--
-- Bounds and fuel
--   Loops over a count are recursions on the rounds left, with the count of the code:
--   fat_free_chain goes max_cluster + 1 rounds, as its max_iter does; the two scans of
--   fat_find_free_cluster go up to the last cluster and up to the hint. Loops over text go as many
--   rounds as the text has bytes: every round of fs_normalize_path uses up a byte of the path,
--   every round of sima_strcspl one of the string. sima_utoa has 16 rounds, since each divides a
--   16-bit number by at least 2; fat_calc_spc_shift has 8, since each halves an 8-bit number; the
--   search for the end of an import name has the bytes of the string table. fat_dir_read_raw and
--   fat_find_in_dir have fuel for all the entries of the root directory and of the clusters up to
--   the guard limit (Dir.Found.find_loop-rounds shows that more changes nothing); the other loops
--   over the clusters of a directory have max_iter rounds, as in the code. The loop of kernel_main
--   and that of login_screen take a line each round; the first has any number of rounds, the second
--   one more than there are lines. run_ls has the 256 entries of its guard, and ide_wait the
--   readings of its limit. A walk along a path has a round for each byte of it, a read of a file
--   one for each byte of it, and a write one for each byte of the data, since a cluster takes at
--   least one.
--
-- Not modelled
--   What a read leaves in its buffer when it returns FALSE is not modelled. Screen, keyboard and
--   ports, the assembly, the boot loader, the installer, the programs of seolsem/programs and the
--   host tools are left out, and so are the import wrappers of xef_loader.c, through which a
--   program calls the kernel, with the table of system calls that they go to.
pub mod Act
pub mod Dir
pub mod File
pub mod Fs
pub mod User
pub mod Proc
pub mod Env
pub mod Program
pub mod Base
pub mod Mem
pub mod Conv
pub mod Xef
pub mod Fat
pub mod FilePath
pub mod Perm
pub mod Examples
pub mod Shell
pub mod Kernel
pub mod Ata
