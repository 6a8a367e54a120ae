-- ===== src/Lib.antt =====
-- A verification library for the kernel of os-jisaku, which runs on x86-64 after a UEFI boot loader.
--
-- The kernel first builds a map of free page frames from the firmware's memory map, sets up a heap in
-- one block of those frames, and then draws windows, a console and a mouse pointer to the screen
-- through buffers of pixels. The boot loader copies it to memory and enters it.
--
-- Which file models what, with paths from the repository's root:
--   Errors           kernel/error.hpp: the codes of `Error`, the test for an error, `WithError`.
--   Memory           kernel/memory_manager.hpp and .cpp: `BitmapMemoryManager`, one bit for each frame.
--                    Bitmap: the bits after each operation. Allocate: `allocate` as first fit.
--                    Bounds: which lines of `alloc_map_` are written. Init: kernel/memory_map.hpp and
--                    `initialize_memory_manager`. Heap: kernel/sbrk.cpp.
--   Graphics         kernel/graphics. Geometry: primitives.hpp, vectors and rectangles.
--                    Color: pixel_color.hpp and the two writers of device_pixel_writer.cpp.
--                    Frame: frame_buffer.hpp and .cpp, the copies between buffers; Clip is about
--                    `adjust_coords`, Fast about `copy_transparent_bpp_4`, Block and Copy about
--                    `copy_from`.
--                    Layers: layer.cpp, buffer_layer.cpp, group_layer.cpp, and the drawing of
--                    layer_manager.cpp; Layers/Manager has the operations of `LayerManager`, on a
--                    stack of layer numbers for the stack of pointers.
--                    Console: console.hpp and console.cpp; `Console` without a writer, and
--                    `FastConsole` with a list of the calls that it makes of its painter.
--                    Painter: painter.cpp, the rectangle that a painter reports as damaged;
--                    Painter/Draw has what it draws. Draw: graphics.cpp and font.cpp, rectangles
--                    and text through a `PixelWriter`; Draw/Device is device_pixel_writer.hpp,
--                    where the writer is a frame buffer's. Layers/Double: the double-buffered
--                    manager of layer_manager.cpp. Frame/Whole: `forward`, `clone`, `copy_self_y`.
--   Paging           kernel/paging.cpp: the tables of the identity mapping; their own addresses are
--                    parameters. Identity has the processor's walk through them.
--   Pci              kernel/pci.hpp and pci.cpp: configuration addresses (Address), the scan of the buses
--                    (Scan), `find_xhc_device` (Xhc), message signalled interrupts (Msi) and
--                    the walk over the capabilities (Capabilities). The hardware's answers are
--                    a parameter, a word for each configuration address.
--   Usb              kernel/usb, the driver for xHCI controllers. Codes: its error codes. Trb: the
--                    layouts of interface/usb/xhci/trb.hpp as lists of widths. Contexts: endpoints
--                    and their contexts. Ring: the command and transfer rings of xhci/ring.cpp;
--                    Ring/Reader describes the controller's end. EventRing: the event ring. Pool:
--                    memory.cpp. ArrayMap: arraymap.hpp. Transfer: the transfers of xhci/device.cpp
--                    and their completion. Descriptors and Init: the reader of descriptors and the
--                    phases of device.cpp. Hid: classdriver, the keyboard and the mouse. Ports and
--                    Xhci: the phases of the ports in xhci/xhci.cpp, one event at a time; what the
--                    hardware and the devices answer is a parameter of each step, and what a step
--                    asks of them is a list of calls. Registers: the bit fields of the controller's
--                    registers, the addresses in them, and what a port's status register is set to.
--   Loader           MikanLoaderPkg/LoadKernel.c and Common.c, the boot loader: the range of the kernel's
--                    segments (Range), their copy (Segments), and `LoadKernel` (Kernel). The
--                    firmware's calls, its `CopyMem` and `SetMem`, and what `elf.h` reads of the file
--                    are parameters, with what they promise as named hypotheses.
--   Prelude          what the components share: Boolean tests, integers as a sign and a number, bits of
--                    words, lists.
--
-- Numbers. `size_t`, `uintptr_t` and `uint64_t` are natural numbers with their wrap-around written out
-- (`add_size`). `int` is ℤ: coordinates do not overflow in the model. An array is a function of its
-- index, and the bytes of a frame buffer are a function of the offset from its first byte.
--
-- Fuel. `allocate` looks at one start after the other, and each start is above the one before, so
-- the `range_end + 1` rounds that it gets are enough. The walk over the memory map goes on by
-- `descriptor_size`, so `map_size + 1` rounds are enough when that size is not 0. A scan of the PCI buses
-- goes one level deeper at a bridge, each bridge takes one of the 32 places of the table of devices,
-- so 33 levels are enough. The walk over the capabilities takes its fuel as an argument: the list is
-- the hardware's, and the source has no bound for it.
-- The search for a USB descriptor and the loops around it take their fuel as an argument; as many rounds
-- as the buffer has bytes are enough for the search where no descriptor has the length 0.
--
-- Not modelled: the boot loader's own start (Main.c), the assembly, the loading of descriptor tables, the start of
-- the USB controller, and the text formatting of the C library.
pub mod Errors
pub mod Graphics
pub mod Loader
pub mod Memory
pub mod Paging
pub mod Pci
pub mod Prelude
pub mod Usb
