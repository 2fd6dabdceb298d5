-- ===== src/Lib.antt =====
-- The capDL loader: the root task that builds a system of kernel objects and threads from a capDL
-- specification.
--
-- The program. `capdl-loader-app/include/capdl.h` declares the specification: objects, the caps in
-- their slots, and what is to be known of threads, frames and interrupts. A tool generates a value of
-- that type. `capdl-loader-app/src/main.c` reads it together with the kernel's boot information and
-- makes the system calls that build what it describes, in phases: the objects are created from
-- untyped memory and their slots kept in tables, further caps are made, and then the interrupts, the
-- frames, the address spaces, the threads and the CNodes are set up, each phase reading the tables
-- that the earlier ones filled. At the end the threads are started.
--
-- The files.
--   Base: lists on native numbers, Boolean tests, and C's integers (wrap-around, conversions).
--   Spec: capdl.h. Spec/Types has its enumerations, Spec/Access its inline functions.
--   Platform: the configuration, the constants of the kernel's headers, the boot information, and
--     the kernel; Platform/Calls: the system calls and the writes to memory, with their arguments.
--   Exec: the static variables of main.c, with the specification (the loader writes to it), and
--     actions on them. Exec/Emits: which effects an action can have.
--   Loader: main.c, each function under its name in C.
--     Slots: get_free_slot to get_capData. Lookup: get_cap_at and the page walk, get_cdl_frame_pdpt
--     to get_frame_cap. Untyped: sort_untypeds. Bootinfo: parse_bootinfo, init_copy_frame,
--     init_copy_addr and cache_extended_bootinfo_headers. Device: find_device_object and
--     retype_untyped. Create: create_object and create_objects. Caps: create_irq_caps, duplicate_caps
--     and create_sched_ctrl_caps. Irq: init_irqs, init_pd_asids and start_threads. Tcb: init_scs and
--     init_tcb. Registers: configure_tcb and init_tcbs. Vspace and Vspace/Legacy: map_page and
--     init_vspace. Cspace: init_cspace. Frames: init_frames. System: mark_vspace_roots, init_system
--     and main.
--     The modules below these are about the part they stand under; Loader/Phases is about what the
--     phases do together.
--   Examples: a small system, runs of the loader on it, and the theorems on it.
--
-- How the model stands to the code. A function is an action on the variables, `World`: it returns or
-- stops (`fatal` for ZF_LOGF and a false assert, `undefined` for what C does not define, such as an
-- access past the end of an array). The kernel is a parameter: a function from all that was done so
-- far to the reply, so that any behaviour of a kernel is an instance. `trace` holds the calls and
-- writes to memory in order. What the preprocessor decides is tested on the configuration, so that
-- one definition stands for all architectures. Words wrap around at the word size, and where the code
-- sends a slot through an `int` the conversion is written out.
--
-- Bounds and fuel. Two loops of the code need not end: the walk over the extended boot information
-- (a header of length 0) and the allocations from a device untyped; their rounds are parameters, and
-- running out of them is a stop of its own. The loop of `create_objects` gets as many rounds as there
-- are objects and untypeds, and one, since each round moves on to the next of either.
--
-- Not modelled. Messages to the log. The contents of memory behind `memcpy`: a copy is an effect with
-- its addresses and length. The start-up code of debug builds (`init_bootinfo`). The kernel, the
-- archive of files and the rounding macro are parameters. The translator (`capDL-tool`), the Python
-- library (`python-capdl-tool`), the scripts (`cdl_utils`) and the root server of
-- `cantrip-os-rootserver` are other programs.
pub mod Base
pub mod Spec
pub mod Platform
pub mod Exec
pub mod Loader
pub mod Examples
