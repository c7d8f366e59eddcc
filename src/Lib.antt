-- ===== src/Lib.antt =====
-- RendezvOS, a microkernel: verification of parts of its core (directory kernel and include).
--
-- Parts of the program and the files that model them:
-- * IPC message bodies. kernel/ipc/ipc_serial.c encodes typed arguments as a count and
--   type-length-value fields, and decodes them; Ipc/Serial holds `ipc_serial_measure_va` (measure_va),
--   `ipc_serial_encode_into_va` (encode_into_va), `ipc_serial_decode` (decode) and their helpers
--   under their own names. Ipc/Serial/Wire describes the bytes independently; the other files under
--   Ipc/Serial prove what the encoder and the decoder do.
-- * Kernel messages. kernel/ipc/kmsg.c puts a header before such a body and hands it to
--   `create_message_data` of kernel/ipc/message.c: Ipc/Kmsg. A `kmsg_t` is the list of its bytes.
-- * The allocator of include/rendezvos/mm/allocator.h as its clients see it: Kalloc. What each call
--   of `m_alloc` answers is a parameter; the state counts the calls and the live blocks.
-- * Address space ids. kernel/mm/asid.c over the bitmap of include/common/dsa/bitmap.h and the masks
--   of include/common/bit.h: Mm/Bitmap and Mm/Asid. The operations of the bitmap are named `bitmap_test`
--   and so on in place of the macro's names; the width that the CPU reports is a parameter.
-- * The page allocator. include/rendezvos/mm/pmm.h (zones, sections, the cursor over the pages of a
--   zone, counts of references): Mm/Pmm, and Mm/Pmm/Change (`pmm_change_pages_ref`). kernel/mm/buddy_pmm.c:
--   Mm/Buddy (state), Mm/Buddy/Init
--   (`pmm_init`), Mm/Buddy/Alloc (`pmm_alloc_zone`, `pmm_alloc`), Mm/Buddy/Free (`pmm_free_one_index`,
--   `pmm_free`), with the functions' own names. A page is its number in the zone, a bucket's list is
--   the list of such numbers, the order -1 is `none`. The hook that reclaims pages is a parameter;
--   `pmm_alloc` tries as often as the code, 64 times after the first. The other files under Mm/Buddy
--   and Mm/Pmm hold proofs: Lists the sound states, Claims the counts, Split, Zone, Merge, Release and Request
--   the calls.
-- * The memory regions of kernel/mm/pmm.c, from which memory is reserved before there is a page allocator:
--   Mm/Regions, with the functions' own names.
-- * Page slices. kernel/mm/page_slice.c and include/rendezvos/mm/page_slice.h, a radix tree from page offsets
--   to kernel pages: Mm/PageSlice (the entries and their counts), Mm/PageSlice/Path (`ps_descend_pgoff`,
--   `ps_raise_height`, `ps_leaf_index_entry`), Mm/PageSlice/Shrink (removal and `ps_shrink`) and
--   Mm/PageSlice/Api (the calls, under their own names). A page of the tree stands in the one entry that
--   points to it. Mm/PageSlice/Tree has the well-formed trees and the map of a tree, Mm/PageSlice/Outcomes what
--   each call does to the map; the other files under Mm/PageSlice hold proofs. Mm/PageSlice/Copy has
--   `page_slice_copy_to_buffer` of kernel/mm/page_slice_copy.c, and Mm/PageSlice/Contents the bytes of a slice.
-- * The name index. kernel/registry/name_index.c maps the names of kernel objects to the objects:
--   Registry/NameIndex (data, hash and `strcmp_s` of kernel/mm/string.c), Registry/NameIndex/Table
--   (row array and hash table), Registry/NameIndex/Search (search, lookup, resolve) and
--   Registry/NameIndex/Calls (init, fini, register, register_abort, unregister). The functions have
--   the source's names without `name_index_`. The hooks of the owner are a parameter, and act on a
--   world of their own. ipc/port.c is the index's user.
--   Registry/NameIndex/RowSpec has what a registration and an unregistration do to a row, field by field.
-- * Thread ids, kernel/task/id.c: Task/Id.
-- Base holds what the parts share: Boolean tests and lists over the native numbers, the result type,
-- little-endian bytes, single bits of a word, and rules for what a function returns.
--
-- How the code is modelled:
-- * Integers are natural numbers, with the wrap-around of the C type written out (`% 2 ^ 32` and so
--   on) where a value can leave the type.
-- * Each function returns a `Result`: `ok` with its value, `err` with an error code, or `fault` for an
--   access outside a block of memory or an array, which C leaves undefined. Functions that return an
--   error code and change the state as well, as in the name index, return a `Status` inside `ok`.
-- * Memory is a list of bytes; a `va_list` is the list of the arguments with their C types; pointers to
--   kernel objects are numbers, 0 for NULL.
-- * Functions that run under one lock are single steps.
-- * Loops are structural: over the format, over the rounds that are left. The fuel of `asid_scan` is one
--   more than the largest id, which is the number of tests of the loop. `ht_insert` calls itself after a
--   rehash into twice the buckets; its fuel is 61 calls, as a table has less than 2^61 buckets.
--   `ps_raise_height` has 4 rounds
--   and `ps_shrink` 8: a round changes the height by one, and a height is at most 4; rounds
--   that run out are a fault. The loop of
--   `page_slice_copy_from_mapped` has as many rounds as bytes: a round copies one at least.
--
-- Not modelled: the slab allocator, the set-up of zones, page tables and address spaces, the other calls
-- of page_slice_copy.c, a slice that changes between the chunks of a copy, calls on a NULL slice, ports and their queues,
-- threads, time, the firmware parsers, and the architecture code, which is assembly and device
-- registers; the fields of the message structures that only these use.
mod Base
mod Kalloc
pub mod Ipc
pub mod Mm
pub mod Registry
pub mod Task
