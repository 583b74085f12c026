-- ===== src/Lib.antt =====
-- DarkCore, an operating system for the Intel 80386: a model of its kernel libraries and the
-- theorems about them.
--
-- The program is a kernel (kernel/kernel.cxx) over libraries (library/): memory and text
-- utilities (library/common), a manager of physical frames (library/pmm) below a manager of page
-- tables (library/vmm), drivers, a scheduler, a file system and a terminal. The kernel reads the
-- firmware's table of memory regions, hands it to the physical memory manager, and every other
-- part allocates from there. Addresses and sizes are 32 bits wide on the target, and the
-- model writes out their wrap-around.
--
-- Which file models which part:
-- - Prelude and its children: tests, lists, words and bit operations that the parts share.
-- - Common.Align: AlignUp and AlignDown (library/common/typedefs.cxx).
-- - Common.Memory: MemoryUtils::Copy, Fill and Compare (library/common/memory-utils.cxx). Memory is
--   a function from addresses to bytes; an element of 2 or 4 bytes is read whole and then written.
--   Addresses are taken not to wrap.
-- - Common.Text: StringUtils (library/common/string-utils.cxx). A buffer is a list of bytes with a
--   terminator behind its end. A division loop has fuel for 32 digits, which base 2 needs.
-- - Pmm.Region: region descriptors, GetRegionFramesCount and GetRegionOverlapType
--   (library/pmm/pmm.cxx).
-- - Pmm.Zone: the loops over the frame descriptors of one region.
-- - Pmm.Allocator: AllocatePhysicalMemory, ReallocatePhysicalMemory and FreePhysicalMemory over the
--   table of regions. The descriptors of a region's frames, which the kernel keeps at the start
--   of the region, are a list beside the region.
-- - Pmm.Allocator.Wrapping: what AllocatePhysicalMemory does where AlignUp wraps.
-- - Pmm.Setup: how the table of regions is made: TweakRegionDescriptors, SortRegionDescriptors,
--   RemoveSimilarRegionDescriptors, RemoveExtraRegions and Initialize. The loop of
--   RemoveExtraRegions has fuel for a round per descriptor and per extra region that can split it.
--   Initialize is `none` where the frame descriptors that it writes would lie beyond their region or
--   in another one, since the list beside the region would not be what is in memory.
-- - Terminal: the cursor, PutChar and PutString, scrolling and Redraw (library/terminal/terminal.cxx).
--   The screen buffer is part of the memory.
-- - Terminal.Reading: ReadString. The characters that the keyboard delivers are a list, and a
--   call that would go on waiting returns `none`.
-- - Terminal.Formatting: PrintFormat, PrintFormatTemplate, PrintHexData and ReadChar. The arguments
--   behind the format are the words of the stack, by index; PrintFormat is `none` where a directive
--   is cut off by the end of the format, and PrintHexData, with a round for each byte, where no line
--   takes one.
-- - DynamicArray: the class template List (library/common/list.hxx). A block of memory is a
--   function from indices, and what `new` returns is an argument. What Remove copies beyond the end
--   of its smaller block is lost.
-- - Keyboard: the byte buffer under its interrupt handler and the reads, and GetInput
--   (library/ps2/ps2-keyboard.cxx). A call that waits on an empty buffer returns `none`. The buffer is
--   memory from the array on, so that the byte which the handler can write behind the array is at
--   the index 0x80.
-- - Keyboard.Commands: SendByte and the commands that use it. The bytes that ReadBufferLastByte
--   returns behind a byte that was sent are a list. Waiting for the controller is left out.
-- - Keyboard.Characters: the character maps and ReadChar. A key takes a byte of the buffer at least,
--   which bounds its loop.
-- - Vmm: page directories and tables, CreateTables, MapPages and GetPhysicalAddress
--   (library/vmm/vmm.cxx). The functions of the physical memory manager are parameters, as the
--   switch of the processor to physical addresses around each function is left out.
-- - Vmm.Searching, Vmm.Freeing, Vmm.Allocating, Vmm.Reallocating: the search for free pages, what takes
--   pages away, what gives them out, and the operators new and delete of the same file. The loops
--   go over the tables and the pages that are left.
-- - Scheduler: the table of threads, CreateThread, AddThread and RemoveCurrentThread
--   (library/scheduler/scheduler.cxx). The table is a function from indices beside its address,
--   and a `Next` pointer is an address.
-- - StringClass: the class String (library/common/string.cxx): comparison, searching, substrings and
--   Split. The length of the text is fuel enough for Split, by a theorem for the slash.
-- - RpfParser: Parse (library/common/rpf-parse.cxx). Each round takes a byte at least, so that the
--   length of the data is fuel enough.
-- - LiteFs, LiteFs.Lookup, LiteFs.Directories, LiteFs.Files: the file system
--   (library/lite-fs/lite-fs.cxx) over a device, which is a function from sectors to their bytes:
--   headers and partitions, paths, directory iterators and ReadFile. The copy of a chunk goes
--   through a local buffer at an address. The count of bytes is fuel enough for ReadFile. The loops
--   over partitions and entries are those of the source where the counts fit a `size_t`. ReadFile is
--   `none` where it does not end.
-- - Tests: runs on concrete inputs and instances of the theorems.
--
-- Not modelled: assembly, port input and output, and the drivers that are nothing else; IDE, ACPI
-- and PCI, the LEF loader, the system calls, the image tool and the programs.
pub mod Common
pub mod DynamicArray
pub mod Keyboard
pub mod LiteFs
pub mod Pmm
pub mod Prelude
pub mod RpfParser
pub mod Scheduler
pub mod StringClass
pub mod Terminal
pub mod Tests
pub mod Vmm
