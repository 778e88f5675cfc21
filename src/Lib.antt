-- ===== src/Lib.antt =====
-- FeatherOS, a small x86-64 kernel in C: its physical memory manager and slab allocator, its virtual
-- memory areas, its kernel heap and data structures, its scheduler, its synchronisation primitives,
-- its memory and string functions, and its network stack from the packet buffers up to the sockets.
--
-- How the parts meet. At start memory_manager_init takes the map of physical memory and builds the
-- manager, whose bitmap has a bit for each page; from then on pages are handed out and taken back
-- by the physical_ operations. The kernel heap kmalloc is a bump allocator beside it, over one
-- fixed range of addresses, and the data structures take their storage from it; the slab allocator
-- cuts pages of the manager into objects. Threads that share data use the locks and semaphores,
-- which stand on the atomic operations. The scheduler keeps the tasks that can run in a search
-- tree and picks the one with the lowest virtual runtime. An area of virtual memory is a node of a
-- red-black tree, allocated from the kernel heap. A byte from the keyboard enters a character into
-- a buffer. A received packet is a buffer that goes through the queue of received packets to
-- arp_rx, which fills the ARP cache; ip_rx, which eth_rx does not call, hands TCP segments and UDP
-- datagrams to the sockets.
--
-- Which file models what:
--   Bits, Bitmap        the macros BITMAP_SET, BITMAP_CLR and BITMAP_TEST and the searches and counts
--                       over the 32-bit words of the bitmap: FeatherOS/include/memory.h and
--                       FeatherOS/kernel/mm/memory.c. A word is a number below 2 ^ 32.
--   Memory.State        physical_memory_manager_t and memory_stats_t as records, and the global
--                       pointer to the manager, which may be NULL, as an Option.
--   Memory.Pages        the physical_ operations, each from the global pointer to the global pointer
--                       and a result. The loop over `count` pages is a recursion on the rounds left.
--   Memory.Init         memory_detect_e820, memory_manager_init and memory_manager_destroy.
--   Memory.Slab         the slab allocator of FeatherOS/kernel/mm/slab.c: one cache with its three
--                       lists of slabs, and the size classes. The free objects of a slab are a list
--                       of addresses, which is what the links in the objects make where an object has
--                       the 8 bytes of a link; what physical_alloc_page and kmalloc answer are
--                       arguments.
--   Memory.Vma          the virtual memory areas of FeatherOS/kernel/mm/vma.c: the red-black tree, with
--                       the parent pointers as the frames of the way down, insertion, look-up and
--                       erasing; Vma.Manager has vma_create, vma_insert and vma_mmap, Vma.Start
--                       vma_init and Vma.Stats the statistics. Vma.Sorted and Vma.Find have the
--                       lists of areas that the tree stands for.
--   Containers.KHeap    kmalloc, kfree and krealloc of FeatherOS/kernel/lib/datastructures.c over the
--                       two static variables, the next address and what is left.
--   Containers.Ring     the ring_ operations; Ring.Queue is the bounded queue that they implement.
--   Containers.Vector   the vector_ operations; an element is a `void *`, a number, and 0 is NULL.
--   Containers.HashTable
--                       the hash_ operations of the table with linear probing and tombstones.
--   Sync.Atomic         the atomic_ and atomic64_ operations of FeatherOS/kernel/sync/sync.c.
--   Sync.RwLock         spin_lock, spin_unlock and the read-write lock.
--   Sync.Semaphore      sem_init, sem_wait, sem_trywait and sem_post.
--   Sync.Mutex          the mutex, its fields and mutex_lock, mutex_trylock and mutex_unlock.
--   Sched               the run queue of FeatherOS/kernel/sched/schedule.c: cfs_enqueue, cfs_dequeue and
--                       pick_next_cfs over the links between tasks, numbers that stand for addresses.
--                       Sched.Nice has the nice table and update_curr_cfs, Sched.Run schedule, yield
--                       and the sleeping and waking of tasks, Sched.Tick the timer tick. Sched.Tree has
--                       the search trees that the links stand for,
--                       Sched.Search their order by vruntime.
--   Strings             memcpy, memmove, memset, memcmp, strlen, strcpy and strncmp of
--                       FeatherOS/kernel/string.c over memory as a function from addresses to bytes.
--   Network.Queue       the receive and the transmit queue of FeatherOS/kernel/net/network.c, linked
--                       through the packets; Queue.Refine has the bounded queues they implement.
--   Network.Arp         the ARP cache: arp_lookup, arp_add, and what arp_rx makes of a packet.
--   Network.Skb         the pointers of a packet buffer: skb_alloc, skb_pull, skb_push, skb_put,
--                       skb_trim and skb_clone.
--   TcpIp.Address       the ip_addr_ functions of FeatherOS/kernel/net/tcpip.c.
--   TcpIp.Checksum      ip_checksum and ip_build_header over the bytes of the header in memory.
--   TcpIp.Route         the routing table: route_add, route_del, route_lookup.
--   TcpIp.Socket        a socket with its two buffers: tcp_send, tcp_recv, and the part of tcp_rx
--                       that handles a segment for the socket found. A buffer is the memory from its
--                       first byte on, and so are the data of a packet: memcpy reads and writes past
--                       their ends where the source's lengths do.
--   TcpIp.Stack         the list of sockets: create, bind, listen, accept, connect and close;
--                       Receive has socket_lookup, tcp_rx and udp_rx, and Events the sequence of
--                       calls and packets. A pointer to a socket is its descriptor.
--   Keyboard            the interrupt handler and the buffer of FeatherOS/kernel/drivers/keyboard.c on
--                       the bytes from the keyboard; Keyboard.Buffer has the queue of characters.
--   Prelude             lists and numbers: indexing, `set`, the positions of a cyclic search.
--
-- Machine numbers. `uint64_t` and `size_t` are natural numbers with `% 2 ^ 64` written out where
-- the source adds or subtracts; an `int32_t` counter is its two's complement, a word below 2 ^ 32.
--
-- Loops. A counted loop recurs on the rounds left. The `while (true)` searches of the hash table
-- take the rounds they may still make and answer `none` where those run out. hash_put, hash_get and
-- hash_remove give them `capacity` rounds, after which a search is back at its start, where the
-- source ends it. strlen and strcpy take the rounds likewise: one more than the length of the
-- string is as many as the source makes. The loops of spin_lock, read_lock, write_lock, sem_wait
-- and mutex_lock end only when other threads let them, so each round is a step of an interleaving.
-- The walks of the scheduler over its tree take the rounds they may still make; more rounds than the
-- tree has tasks are enough. Over the tree of areas they recur on the tree.
-- ip_checksum folds its carries in at most three rounds, the third of which only ends the loop, since
-- the sum has 32 bits.
--
-- Interleavings. An operation of the read-write lock, the semaphore or the mutex is cut into its
-- accesses to shared memory, and a list of events says which thread takes the next one. Memory is
-- sequentially consistent. A thread calls read_unlock only as a reader and write_unlock only as a
-- writer, posts only a permit that it has, and unlocks only a mutex that it has.
--
-- Not modelled. The raw memory behind a pointer: the cells that kmalloc gives are a parameter, and
-- kzalloc's memset is left out. memory_test, memory_quick_test and the functions that print. The
-- linked list, the string-keyed hash table, the condition variable, the per-CPU locks and the
-- spinlocks that save the interrupt flag; the statistics counters of the locks. Of the slab
-- allocator: slab_shrink, slab_cache_destroy, the table of size caches and the statistics over all
-- caches. Of the network stack: the Ethernet layer, the list of devices and the loopback device,
-- ip_tx, ip_rx and udp_sendto, the counters of tcpip_stats_t and the locks. Of the rest of the
-- kernel: sched_init, the statistics of the scheduler and the context switch, which is assembly;
-- the creation and the end of processes, page tables, vma_munmap, the file systems, the system
-- calls, the mouse, strncpy and strcmp; the other device drivers and the assembly, whose behaviour
-- is that of the hardware.
pub mod Prelude
pub mod Bits
pub mod Bitmap
pub mod Memory
pub mod Containers
pub mod Sync
pub mod Sched
pub mod Strings
pub mod TcpIp
pub mod Network
pub mod Keyboard
